-- ===== src/Settings/Secrets/Precedence.antt =====
-- Which of the layers a variable's value comes from once the secret is merged.
use transcribe_service.Prelude.{
  String, ◌≡◌, refl, ap, ◌∙◌, Bool, true, false, Option, none, some, List, [], ◌∷◌, ◌==◌, eq_iff,
  Bool-cases, inl, inr, if◌then◌else◌,
}
use transcribe_service.Prelude.Dict.{lookup, update, or_else, lookup-set, lookup-update}
use transcribe_service.Prelude.Exec.{ok}
use transcribe_service.Json.{Fields, obj}
use transcribe_service.Auth.Whitespace.{strip}
use transcribe_service.Settings.Secrets.{
  initial_region, app_env_is_deployed, or_empty, Outside, Loader, load, load_dotenv_layer,
  secret_json_to_env_kv, merge_deployed_secrets_into_environ, keep_one, Dict, member,
  keep_bootstrap, bootstrap_keys, merge_layers,
}

-- The value of a bootstrap variable that the process began with.
abbrev pub kept : List String → String → Dict → Option String
kept ks key initial = if member ks key then lookup key initial else none

lookup-keep_one :
    (key k : String) (o : Option String) (m : Dict)
    → lookup key (keep_one k o m) ≡ or_else (if k == key then o else none) (lookup key m)
lookup-keep_one key k none m = elim (Bool-cases (k == key)) [
  | inl e ↦ rw e refl
  | inr e ↦ rw e refl
]
lookup-keep_one key k (some v) m = elim (Bool-cases (k == key)) [
  | inl e ↦ lookup-set key k v m ∙ rw e refl
  | inr e ↦ lookup-set key k v m ∙ rw e refl
]

or_else_absorb :
    (b : Bool) (o y : Option String) → or_else o (or_else (if b then o else none) y) ≡ or_else o y
or_else_absorb true none y = refl
or_else_absorb false none y = refl
or_else_absorb b (some v) y = refl

lookup-keep_bootstrap :
    (key : String) (ks : List String) (initial m : Dict)
    → lookup key (keep_bootstrap ks initial m) ≡ or_else (kept ks key initial) (lookup key m)
unfolding keep_bootstrap
lookup-keep_bootstrap key [] initial m = refl
lookup-keep_bootstrap key (k ∷ ks) initial m =
    let rest = lookup-keep_bootstrap key ks initial m in
    lookup-keep_one key k (lookup k initial) (keep_bootstrap ks initial m)
    ∙ elim (Bool-cases (k == key)) [
      | inl e ↦ rw e (
          rw ((eq_iff k key).0 e)
            (rw rest (or_else_absorb (member ks key) (lookup key initial) (lookup key m))))
      | inr e ↦ rw e rest
    ]

-- The first layer that has the variable: the bootstrap variables of the process, the secret, the
-- process, and `.env`.
abbrev pub first_layer : String → Dict → Dict → Dict → Option String
first_layer key initial secret_kv dot_layer =
    or_else (kept bootstrap_keys key initial)
      (or_else (lookup key secret_kv) (or_else (lookup key initial) (lookup key dot_layer)))

or_else_last :
    (b s i d : Option String)
    → or_else (or_else b (or_else s (or_else i d))) i ≡ or_else b (or_else s (or_else i d))
or_else_last (some b) s i d = refl
or_else_last none (some s) i d = refl
or_else_last none none (some i) d = refl
or_else_last none none none (some d) = refl
or_else_last none none none none = refl

lookup-environ :
    (key : String) (initial secret_kv dot_layer : Dict)
    → lookup key (update initial (merge_layers dot_layer initial secret_kv))
      ≡ first_layer key initial secret_kv dot_layer
unfolding merge_layers
lookup-environ key initial secret_kv dot_layer =
    let low = lookup-update key dot_layer initial in
    let mid = lookup-update key (update dot_layer initial) secret_kv in
    let high =
      lookup-keep_bootstrap key bootstrap_keys initial
        (update (update dot_layer initial) secret_kv) in
    lookup-update key initial (merge_layers dot_layer initial secret_kv)
    ∙ ap (λ o. or_else o (lookup key initial))
        (high
          ∙ ap (or_else (kept bootstrap_keys key initial))
              (mid ∙ ap (or_else (lookup key secret_kv)) low))
    ∙ or_else_last (kept bootstrap_keys key initial) (lookup key secret_kv) (lookup key initial)
        (lookup key dot_layer)

abbrev pub secret_id : Dict → String
secret_id environ = strip (or_empty (lookup "AWS_SECRETS_MANAGER_SECRET_ID" environ))

-- The secret is read and is an object whose values are scalars.
pub record IsRead (w : Outside) (environ : Dict) (secret_kv : Dict) : Type 0 where
  pub raw : String
  pub fields : Fields
  pub found : w.get_secret (initial_region environ) (secret_id environ) ≡ ok (some raw)
  pub parsed : w.loads raw ≡ ok (obj fields)
  pub converted : secret_json_to_env_kv w.upper fields [] ≡ ok secret_kv

-- When a deployed service that has not loaded its secret yet is named one, and the secret is read and
-- holds an object of scalars, the merge returns without an exception and sets its flag, and every
-- variable then has the value of the first of these that holds it: the process environment, for the
-- four bootstrap variables; the secret; the process environment, for the others; and `.env`.
pub merge_deployed_secrets_into_environ-precedence :
    (w : Outside) (s : Loader) (secret_kv : Dict)
    → s.deployed_secrets_loaded ≡ false
    → app_env_is_deployed s.environ ≡ true
    → (secret_id s.environ == "") ≡ false
    → IsRead w s.environ secret_kv
    → let (r, s') = merge_deployed_secrets_into_environ w s in
      (r ≡ ok tt)
      × (s'.deployed_secrets_loaded ≡ true)
      × ((key : String)
          → lookup key s'.environ
            ≡ first_layer key s.environ secret_kv (load_dotenv_layer w.upper w.dotenv []))
unfolding merge_deployed_secrets_into_environ load
merge_deployed_secrets_into_environ-precedence w s secret_kv fresh deployed named read =
    rw (fresh, deployed, named, read.found, read.parsed, read.converted)
      (
        refl,
        refl,
        λ key. lookup-environ key s.environ secret_kv (load_dotenv_layer w.upper w.dotenv []),
      )
