-- ===== src/Logging/Access.antt =====
-- config/logging_config.py: the filter that drops the access lines of the health probes.
use Prim.Native.Char.{Char, code}
use transcribe_service.Prelude.{
  ℕ, String, Bool, true, not, ◌&&◌, ◌||◌, Option, none, some, List, [], ◌∷◌, ◌==◌, eqb, leb,
  if◌then◌else◌,
}
use transcribe_service.Auth.{lower_is}
use transcribe_service.Auth.Whitespace.{is_space, strip}
use transcribe_service.Logging.{LogValue, text}
use transcribe_service.Logging.Texts.{match_letters, span, ends_with}
use transcribe_service.Settings.Prefix.{rstrip_slash}

-- `_env_flag_enabled` of a variable's value
unfoldable pub env_flag_enabled : Option String → Bool → Bool
unfolding lower_is strip
env_flag_enabled none default = default
env_flag_enabled (some raw) default =
    lower_is (strip raw) "1"
    || lower_is (strip raw) "true"
    || lower_is (strip raw) "yes"
    || lower_is (strip raw) "on"

abbrev before_query : Char → Bool
before_query c = not (eqb (code c) 63)

-- `_normalize_access_path` of a text
unfoldable pub normalize_access_path : String → String
unfolding span rstrip_slash
normalize_access_path path =
    let normalized = rstrip_slash (span before_query path).0 in
    if normalized == "" then "/" else normalized

-- A log record: the third of its arguments, if they are a tuple of three or more, and `getMessage()`.
pub record LogRecord : Type 0 where
  pub name : String
  pub third_arg : Option LogValue
  pub message : String

abbrev in_range : ℕ → ℕ → Char → Bool
in_range low high c = leb low (code c) && leb (code c) high

-- `[A-Z]` under `re.IGNORECASE`
abbrev is_letter : Char → Bool
is_letter c = in_range 65 90 c || in_range 97 122 c || eqb (code c) 383 || eqb (code c) 8490

abbrev no_space : Char → Bool
no_space c = not (is_space c)

-- `[0-9.]`
abbrev in_version : Char → Bool
in_version c = in_range 48 57 c || eqb (code c) 46

-- A run of at least one character, and what stands after it.
abbrev some_run : (Char → Bool) → String → Option (String × String)
some_run test s = let (run, rest) = span test s in if run == "" then none else some (run, rest)

infixl 5 ◌>>=◌
abbrev ◌>>=◌ : {A B : Type 0} → Option A → (A → Option B) → Option B
none >>= f = none
some a >>= f = f a

-- The pattern's letters: `HTTP/` and the quotation mark.
abbrev http_slash : List ℕ
http_slash = 104 ∷ 116 ∷ 116 ∷ 112 ∷ 47 ∷ []

abbrev quote : List ℕ
quote = 34 ∷ []

-- `_UVICORN_ACCESS_LINE_RE` at the head of a text: its group `path`. Classes that stand side by side
-- have no character in common, so the longest runs are the only match.
unfoldable pub access_line : String → Option String
unfolding match_letters span
access_line s = do
  (_, a) ← match_letters quote s
  (_, b) ← some_run is_letter a
  (_, c) ← some_run is_space b
  (path, d) ← some_run no_space c
  (_, e) ← some_run is_space d
  (_, f) ← match_letters http_slash e
  (_, g) ← some_run in_version f
  _ ← match_letters quote g
  some path

abbrev or_search : Option String → Option String → Option String
or_search none later = later
or_search (some path) later = some path

-- `_UVICORN_ACCESS_LINE_RE.search(s)`
unfoldable pub search_access_line : String → Option String
unfolding access_line
search_access_line String.[] = none
search_access_line (String.◌∷◌ c s) =
    or_search (access_line (String.◌∷◌ c s)) (search_access_line s)

abbrev in_message : Option String → Option String
in_message none = none
in_message (some path) = some (normalize_access_path path)

abbrev path_of : Option LogValue → String → Option String
path_of (some (text path)) message = some (normalize_access_path path)
path_of v message = in_message (search_access_line message)

unfoldable pub extract_uvicorn_access_path : LogRecord → Option String
unfolding normalize_access_path search_access_line
extract_uvicorn_access_path r =
    if not (r.name == "uvicorn.access") then none else path_of r.third_arg r.message

abbrev passes : Option String → Bool
passes none = true
passes (some path) = not (ends_with "/health" path || ends_with "/ready" path)

-- `_SuppressHealthAccessFilter.filter`. A text ends with a text that it is equal to.
unfoldable pub filter : LogRecord → Bool
unfolding extract_uvicorn_access_path ends_with
filter r = passes (extract_uvicorn_access_path r)
