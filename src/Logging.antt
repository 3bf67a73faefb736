-- ===== src/Logging.antt =====
-- config/logging_config.py: the masking of secrets in log events and texts. `urlparse`, `urlunparse`,
-- `str.lower` and the installed version are arguments.
pub mod Texts
pub mod Access
pub mod Hiding
pub mod Replacing
use Prim.Native.String
use transcribe_service.Prelude.{
  ℕ, zero, suc, ◌+◌, String, Bool, true, false, not, ◌&&◌, ◌||◌, Option, none, some, List, [], ◌∷◌,
  ◌==◌, eqb, leb, is_some, if◌then◌else◌,
}
use transcribe_service.Prelude.Dict.{lookup, set, pop}
use transcribe_service.Prelude.Exec.{Result, ok, err}
use transcribe_service.Prelude.Text.{count, contains, starts_with, append}
use transcribe_service.Logging.Texts.{rstrip_colon, sub_urls, replace, ends_with}

-- `urlparse(url)`, with the fields as its properties give them.
pub record ParseResult : Type 0 where
  pub scheme : String
  pub username : Option String
  pub password : Option String
  pub hostname : Option String
  pub path : String

-- What the module uses of the standard library.
pub record Tools : Type 0 where
  pub lower : String → String
  -- the parts, and `p.port`, which is read on two branches and may raise
  pub urlparse : String → Result ParseResult
  pub port : String → Result (Option String)
  -- of a scheme, a network location and a path
  pub urlunparse : String → String → String → Result String

abbrev pub or_empty : Option String → String
or_empty none = ""
or_empty (some s) = s

-- `p.port or 6379`: port 0 is false
abbrev pub port_or_default : Option String → String
port_or_default none = "6379"
port_or_default (some s) = if s == "0" then "6379" else s

-- `bool(s)` of an optional text
abbrev pub truthy : Option String → Bool
truthy none = false
truthy (some s) = not (s == "")

abbrev masked : String
masked = "redis://***"

abbrev or_masked : Result String → String
or_masked (ok s) = s
or_masked (err e) = masked

module _ (t : Tools) where
  -- The location before its port, the port, and the URL with the scheme and the path.
  abbrev pub with_port : String → Result (Option String) → String → String → String
  with_port location (err e) scheme path = masked
  with_port location (ok port) scheme path = or_masked (
      t.urlunparse scheme (rstrip_colon (append location (append ":" (port_or_default port)))) path)

  -- The `try` block, for a URL that is parsed.
  abbrev pub mask_parsed : String → ParseResult → String
  mask_parsed url p =
      if truthy p.password || (truthy p.username && contains "@" url)
      then with_port (append (or_empty p.username) (append ":***@" (or_empty p.hostname)))
          (t.port url) p.scheme p.path
      else if truthy p.hostname
      then with_port (or_empty p.hostname) (t.port url) p.scheme p.path
      else masked

  unfoldable pub mask_redis_url : String → String
  unfolding contains rstrip_colon
  mask_redis_url url =
      if (url == "") || not (contains "redis" (t.lower url))
      then url
      else elim (t.urlparse url) [ ok p ↦ mask_parsed url p | err e ↦ masked ]

-- A value of an event: `None`, a text, or another value with its `str`.
pub data LogValue : Type 0 where
  null : LogValue
  text other : String → LogValue

abbrev pub str_of : LogValue → String
str_of null = "None"
str_of (text s) = s
str_of (other s) = s

abbrev pub EventDict : Type 0
EventDict = List (String × LogValue)

module _ (t : Tools) where
  abbrev pub without : Option String → String → String
  without none out = out
  without (some secret) out =
      if not (secret == "") && contains secret out then replace secret (count out) out else out

  unfoldable pub redact_text_for_logs : Option String → String → String
  unfolding contains replace sub_urls mask_redis_url
  redact_text_for_logs extra_secret s =
      without extra_secret (sub_urls (mask_redis_url t) (count s) s)

  -- The chain of conditions, for a key in lower case.
  abbrev pub mask_text : String → String → LogValue
  mask_text key_lower s =
      if key_lower == "redis_url"
      then text (mask_redis_url t s)
      else if contains "password" key_lower
      then text "***"
      else if ends_with "_url" key_lower && contains "redis" (t.lower s)
      then text (mask_redis_url t s)
      else if key_lower == "error"
      then text (redact_text_for_logs none s)
      else text s

  abbrev pub mask_value : String → LogValue → LogValue
  mask_value key_lower (text s) = mask_text key_lower s
  mask_value key_lower v =
      if ends_with "_url" key_lower && contains "redis" (t.lower (str_of v))
      then text (mask_redis_url t (str_of v))
      else v

  unfoldable pub mask_sensitive_processor : EventDict → EventDict
  unfolding contains ends_with redact_text_for_logs mask_redis_url
  mask_sensitive_processor [] = []
  mask_sensitive_processor ((key, v) ∷ event) =
      (key, mask_value (t.lower key) v) ∷ mask_sensitive_processor event

-- The version is `_get_version()`.
unfoldable pub add_service_context : String → EventDict → EventDict
unfolding set
add_service_context version event =
    set "version" (text version) (set "service" (text "realtime-transcribe-service") event)

unfoldable pub ensure_conversation_id : EventDict → EventDict
unfolding set
ensure_conversation_id event =
    if is_some (lookup "conversation_id" event)
    then event
    else set "conversation_id" (text "-") event

abbrev named : String → Option LogValue → EventDict → EventDict
named key none rest = rest
named key (some null) rest = rest
named key (some v) rest = (key, v) ∷ rest

-- What is left of the event, and the value of its new key `identity`, if one is added.
unfoldable pub group_identity : EventDict → EventDict × Option EventDict
unfolding pop
group_identity event =
    let left = pop "conversation_id" (pop "version" (pop "service" event)) in
    let identity = named "service" (lookup "service" event) (
      named "version" (lookup "version" event)
        (named "conversation_id" (lookup "conversation_id" event) [])) in
    elim identity [ [] ↦ (left, none) | p ∷ ps ↦ (left, some (p ∷ ps)) ]
