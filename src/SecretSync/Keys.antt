-- ===== src/SecretSync/Keys.antt =====
-- The keys of a rendered payload: distinct, in their final form, and no bootstrap keys.
use transcribe_service.Prelude.{
  String, Bool, true, false, not, ◌&&◌, ◌||◌, List, [], ◌∷◌, ◌≡◌, refl, ◌==◌, eq_iff, Bool-cases,
  inl, inr, Option, none, some, is_some, ap, ◌∙◌, arith, false≢true, subst,
}
use transcribe_service.Prelude.Dict.{lookup, All, set-All, pop-All}
use transcribe_service.Prelude.Dict.Distinct.{Distinct, set-Distinct, pop-Distinct}
use transcribe_service.Prelude.Exec.{Result, ok}
use transcribe_service.Prelude.Result.{first_of_chain, Result-cases, ok_injective}
use transcribe_service.Prelude.Text.{append}
use transcribe_service.Auth.Whitespace.{strip, strip_idem}
use transcribe_service.Settings.Secrets.{member, bootstrap_keys}
use transcribe_service.SecretSync.{
  TomlValue, text, stripped, is_non_empty_string, only, allowed_aws_keys, all_set,
  required_aws_keys, get, aws_config, load_aws_config, load_toml_document, merge_tables, section,
  Table, end, entry, JsonScalar, AppSecret, place, is_unset, normalize_app_value, merge_app_layer,
  merge_app_layers, AwsSecretConfig,
}
use transcribe_service.SecretSync.Rendering.{
  Libraries, any, join, combine, validate_secret_app_keys, render_layers,
}

-- What is relied on of `str.upper`: it does not change its own results, and no character becomes a
-- space or nothing.
pub record UpperLaws (upper : String → String) : Type 0 where
  pub upper-strip : (s : String) → upper (strip (upper (strip s))) ≡ upper (strip s)
  pub strip-upper : (s : String) → (strip (upper (strip s)) == "") ≡ (strip s == "")

module _ (upper : String → String) where
  -- A key that the service's loader takes as it is.
  abbrev pub IsKey : String → JsonScalar → Type 0
  IsKey key v = (upper (strip key) ≡ key) × ((strip key == "") ≡ false)

  abbrev pub IsPayload : AppSecret → Type 0
  IsPayload app = All IsKey app × Distinct app

  place-IsPayload :
      (key : String) (v : JsonScalar) (app : AppSecret)
      → IsKey key v
      → IsPayload app
      → IsPayload (place key v app)
  place-IsPayload key v app k h = elim (Bool-cases (is_unset v)) [
    | inl e ↦ rw e (pop-All IsKey key app h.0, pop-Distinct key app h.1)
    | inr e ↦ rw e (set-All IsKey key v app k h.0, set-Distinct key v app h.1)
  ]

  merge_app_layer-IsPayload :
      UpperLaws upper
      → (layer : Table) (app : AppSecret) {merged : AppSecret} → IsPayload app
      → merge_app_layer upper layer app ≡ ok merged
      → IsPayload merged
  unfolding merge_app_layer
  merge_app_layer-IsPayload laws end app h = λ e. subst IsPayload (ok_injective e) h
  merge_app_layer-IsPayload laws (entry raw_key raw layer) app h =
      elim (Bool-cases (strip raw_key == "")) [
        | inl blank ↦ rw blank (λ e. cc)
        | inr named ↦ rw named (elim (Result-cases (normalize_app_value raw)) [
          | inl (v, scalar) ↦ rw scalar (
              merge_app_layer-IsPayload laws layer (place (upper (strip raw_key)) v app) (
                place-IsPayload (upper (strip raw_key)) v app
                  (laws.upper-strip raw_key, laws.strip-upper raw_key ∙ named) h))
          | inr (x, bad) ↦ rw bad (λ e. cc)
        ])
      ]

  pub merge_app_layers-IsPayload :
      UpperLaws upper
      → (layers : List Table) (app : AppSecret) {merged : AppSecret} → IsPayload app
      → merge_app_layers upper layers app ≡ ok merged
      → IsPayload merged
  unfolding merge_app_layers
  merge_app_layers-IsPayload laws [] app h = λ e. subst IsPayload (ok_injective e) h
  merge_app_layers-IsPayload laws (layer ∷ layers) app h =
      elim (Result-cases (merge_app_layer upper layer app)) [
        | inl (m, merged) ↦
            rw (merged, merge_app_layers)
              (merge_app_layers-IsPayload laws layers m
                (merge_app_layer-IsPayload laws layer app h merged))
        | inr (x, bad) ↦ rw (bad, merge_app_layers) (λ e. cc)
      ]

head_absent : (a b : Bool) → (a || b) ≡ false → a ≡ true → ⊥
head_absent a b h t = ground arith

tail_absent : (a b : Bool) → (a || b) ≡ false → b ≡ false
tail_absent a b h = ground arith

-- A payload without bootstrap keys has none under such a key.
lookup-any :
    (test : String → Bool) (key : String) (app : AppSecret)
    → any test app ≡ false
    → test key ≡ true
    → lookup key app ≡ none
lookup-any test key [] h t = refl
lookup-any test key ((k, v) ∷ app) h t = elim (Bool-cases (k == key)) [
  | inl e ↦ absurd (head_absent (test k) (any test app) h (ap test ((eq_iff k key).0 e) ∙ t))
  | inr e ↦ rw e (lookup-any test key app (tail_absent (test k) (any test app) h) t)
]

-- What a rendered payload and its target are.
pub record IsRendered (l : Libraries) (aws : AwsSecretConfig) (app : AppSecret) : Type 0 where
  pub payload : IsPayload l.upper app
  pub no_bootstrap : (key : String) → member bootstrap_keys key ≡ true → lookup key app ≡ none
  pub stripped : strip aws.secret_name ≡ aws.secret_name
  pub named : (aws.secret_name == "") ≡ false

validated :
    (upper : String → String) (app : AppSecret)
    → validate_secret_app_keys upper app ≡ ok tt
    → any (member bootstrap_keys) app ≡ false
unfolding validate_secret_app_keys
validated upper app = elim (Bool-cases (any (member bootstrap_keys) app)) [
  | inl e ↦ rw e (λ h. cc)
  | inr e ↦ λ h. e
]

text_named :
    (o : Option TomlValue)
    → is_non_empty_string o ≡ true
    → (strip (stripped o) ≡ stripped o) × ((stripped o == "") ≡ false)
text_named (some (text s)) h = (strip_idem s, ground (arith, h))
text_named none h = absurd (false≢true h)
text_named (some v) h = absurd (false≢true h)

third : (a b c : Bool) → (a && (b && (c && true))) ≡ true → c ≡ true
third a b c h = ground arith

aws_config-named :
    (merged : Table) {aws : AwsSecretConfig}
    → aws_config merged ≡ ok aws
    → (strip aws.secret_name ≡ aws.secret_name) × ((aws.secret_name == "") ≡ false)
aws_config-named merged = elim (Bool-cases (only allowed_aws_keys merged)) [
  | inr e ↦ rw e (λ h. cc)
  | inl e ↦ rw e (elim (Bool-cases (all_set required_aws_keys merged)) [
    | inr f ↦ rw f (λ h. cc)
    | inl f ↦
        rw f
          (elim (Bool-cases (
            is_some (get "kms_key_id" merged)
            && not (is_non_empty_string (get "kms_key_id" merged)))) [
              | inl g ↦ rw g (λ h. cc)
              | inr g ↦ rw g (λ h.
                  subst
                    (λ (a : AwsSecretConfig).
                      (strip a.secret_name ≡ a.secret_name) × ((a.secret_name == "") ≡ false))
                    (ok_injective h)
                    (text_named (get "secret_name" merged) (
                      third (is_non_empty_string (get "region" merged))
                        (is_non_empty_string (get "profile" merged))
                        (is_non_empty_string (get "secret_name" merged)) f)))
            ])
  ])
]

combine-IsRendered :
    (l : Libraries)
    → UpperLaws l.upper
    → (base env secret : Table) {r : AwsSecretConfig × AppSecret} → combine l base env secret ≡ ok r
    → IsRendered l r.0 r.1
unfolding combine load_aws_config
combine-IsRendered l laws base env secret =
    let aws_tables = merge_tables (section "aws" base) (section "aws" env) in
    let layers = section "app" base ∷ section "app" env ∷ section "app" secret ∷ [] in
    elim (Result-cases (aws_config aws_tables)) [
      | inr (x, e) ↦ rw e (λ h. cc)
      | inl (aws, e) ↦ rw e (elim (Result-cases (merge_app_layers l.upper layers [])) [
        | inr (x, f) ↦ rw f (λ h. cc)
        | inl (app, f) ↦ rw f (elim (Result-cases (validate_secret_app_keys l.upper app)) [
          | inr (x, g) ↦ rw g (λ h. cc)
          | inl (u, g) ↦ rw g (λ h.
              subst (λ (r : AwsSecretConfig × AppSecret). IsRendered l r.0 r.1) (ok_injective h)
                (record {
                  payload = merge_app_layers-IsPayload l.upper laws layers [] (tt, tt) f;
                  no_bootstrap =
                      λ key. lookup-any (member bootstrap_keys) key app (validated l.upper app g);
                  stripped = (aws_config-named aws_tables e).0;
                  named = (aws_config-named aws_tables e).1;
                }))
        ])
      ])
    ]

-- What is rendered has distinct keys in their final form and no bootstrap keys, and its secret has a
-- name.
pub render_layers-IsRendered :
    (l : Libraries)
    → UpperLaws l.upper
    → (read : String → Option String) (env_name dir : String) {r : AwsSecretConfig × AppSecret}
    → render_layers l read env_name dir ≡ ok r
    → IsRendered l r.0 r.1
unfolding render_layers
render_layers-IsRendered l laws read env_name dir h =
    let load : String → Bool → Result Table =
      λ name aws. load_toml_document l.toml_load (read (join dir name)) aws in
    let base = first_of_chain (load "base.toml" true) _ h in
    let env = first_of_chain (load (append env_name ".toml") true) _ base.2 in
    let secret = first_of_chain (load (append env_name ".secrets.toml") false) _ env.2 in
    combine-IsRendered l laws base.0 env.0 secret.0 secret.2
