-- ===== src/Logging/Hiding.antt =====
-- What a masked URL and a masked event say nothing of.
use transcribe_service.Prelude.{
  String, ◌≡◌, refl, sym, ap, ◌∙◌, true, false, false≢true, [], ◌∷◌, ◌⊎◌, inl, inr, ◌==◌, eq_iff,
  Bool-cases,
}
use transcribe_service.Prelude.Exec.{ok}
use transcribe_service.Prelude.Text.{contains}
use transcribe_service.Logging.{
  Tools, ParseResult, LogValue, text, EventDict, truthy, mask_parsed, mask_redis_url, mask_text,
  mask_value, mask_sensitive_processor,
}
use transcribe_service.Logging.Texts.{ends_with}

-- Parts that differ at most in a password that both have.
pub record SameParts (p q : ParseResult) : Type 0 where
  pub scheme : p.scheme ≡ q.scheme
  pub username : p.username ≡ q.username
  pub hostname : p.hostname ≡ q.hostname
  pub path : p.path ≡ q.path
  pub has_password : truthy p.password ≡ true
  pub has_password' : truthy q.password ≡ true

module _ (t : Tools) where
  abbrev pub NamesRedis : String → Type 0
  NamesRedis u = ((u == "") ≡ false) × (contains "redis" (t.lower u) ≡ true)

  -- Two URLs that differ at most in their passwords, and in what `mask_redis_url` drops.
  pub record SameUrl (u v : String) : Type 0 where
    pub p : ParseResult
    pub q : ParseResult
    pub parsed : t.urlparse u ≡ ok p
    pub parsed' : t.urlparse v ≡ ok q
    pub parts : SameParts p q
    pub port : t.port u ≡ t.port v
    pub redis : NamesRedis u
    pub redis' : NamesRedis v

  mask_parsed-SameParts :
      (u v : String) (p q : ParseResult)
      → SameParts p q
      → t.port u ≡ t.port v
      → mask_parsed t u p ≡ mask_parsed t v q
  mask_parsed-SameParts u v p q same port =
      rw
        (
          same.has_password, same.has_password', same.scheme, same.username, same.hostname,
          same.path, port,
        )
        refl

  pub mask_redis_url-SameUrl :
      (u v : String) → SameUrl u v → mask_redis_url t u ≡ mask_redis_url t v
  unfolding mask_redis_url
  mask_redis_url-SameUrl u v same =
      rw (same.redis.0, same.redis.1, same.redis'.0, same.redis'.1, same.parsed, same.parsed')
        (mask_parsed-SameParts u v same.p same.q same.parts same.port)

  -- Two values of an event, under the key's lower-case form: the same, two passwords, or two URLs that
  -- differ in a password.
  abbrev pub AlikeValues : String → LogValue → LogValue → Type 0
  AlikeValues key_lower (text s) (text s') =
      (s ≡ s')
      ⊎ (contains "password" key_lower ≡ true)
      ⊎ ((ends_with "_url" key_lower ≡ true) × SameUrl s s')
  AlikeValues key_lower v v' = v ≡ v'

  abbrev pub AlikeEvents : EventDict → EventDict → Type 0
  AlikeEvents [] [] = Unit
  AlikeEvents ((key, v) ∷ event) ((key', v') ∷ event') =
      (key ≡ key') × AlikeValues (t.lower key) v v' × AlikeEvents event event'
  AlikeEvents event event' = ⊥

  -- `redis_url` has no `password` in it.
  password-redis_url :
      (key_lower : String)
      → contains "password" key_lower ≡ true
      → (key_lower == "redis_url") ≡ false
  unfolding contains
  password-redis_url key_lower h = elim (Bool-cases (key_lower == "redis_url")) [
    | inl e ↦
        absurd
          (false≢true (sym (ap (contains "password") ((eq_iff key_lower "redis_url").0 e)) ∙ h))
    | inr e ↦ e
  ]

  mask_text-SameUrl :
      (key_lower s s' : String)
      → ends_with "_url" key_lower ≡ true
      → SameUrl s s'
      → mask_text t key_lower s ≡ mask_text t key_lower s'
  mask_text-SameUrl key_lower s s' url same =
      rw (mask_redis_url-SameUrl s s' same, url, same.redis.1, same.redis'.1) refl

  mask_value-AlikeValues :
      (key_lower : String) (v v' : LogValue)
      → AlikeValues key_lower v v'
      → mask_value t key_lower v ≡ mask_value t key_lower v'
  mask_value-AlikeValues key_lower (text s) (text s') (inl e) = ap (mask_text t key_lower) e
  mask_value-AlikeValues key_lower (text s) (text s') (inr (inl e)) =
      rw (password-redis_url key_lower e, e) refl
  mask_value-AlikeValues key_lower (text s) (text s') (inr (inr (url, same))) =
      mask_text-SameUrl key_lower s s' url same
  mask_value-AlikeValues key_lower v v' e = ap (mask_value t key_lower) e

  -- Whatever the standard library's functions are, two events with the same keys are masked to the same
  -- event if their values under each key are the same, or two texts and the key has `password` in it, or
  -- two URLs that name redis, differ at most in the passwords that both have and in what is not shown
  -- (query and fragment), and the key ends with `_url`.
  pub mask_sensitive_processor-hides :
      (event event' : EventDict)
      → AlikeEvents event event'
      → mask_sensitive_processor t event ≡ mask_sensitive_processor t event'
  unfolding mask_sensitive_processor
  mask_sensitive_processor-hides [] [] h = refl
  mask_sensitive_processor-hides [] (x ∷ event') h = absurd h
  mask_sensitive_processor-hides (x ∷ event) [] h = absurd h
  mask_sensitive_processor-hides ((key, v) ∷ event) ((key', v') ∷ event') h = rw (← h.0) (
      rw (mask_value-AlikeValues (t.lower key) v v' h.1)
        (rw (mask_sensitive_processor-hides event event' h.2) refl))
