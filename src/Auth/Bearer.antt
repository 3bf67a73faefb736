-- ===== src/Auth/Bearer.antt =====
-- What `_extract_bearer_token` gives back.
use transcribe_service.Prelude.{
  String, ◌≡◌, ◌≢◌, refl, Bool, true, false, not, ◌||◌, Option, none, some, ◌==◌, eq_iff,
  Bool-cases, ◌⊎◌, inl, inr, arith, if◌then◌else◌, false≢true, sym, ap, ◌∙◌,
}
use transcribe_service.Prelude.Exec.{authentication_error, Result, ok, err}
use transcribe_service.Prelude.Text.{append}
use transcribe_service.Auth.Whitespace.{strip, strip_idem, lstrip, rstrip, rstrip-strip}
use transcribe_service.Auth.{
  principal, of_token, claims, expired_signature_error, invalid_token_error, extract_bearer_token,
  partition, lower_is, authenticate, Decoded,
}

not_empty : (s : String) → s ≢ "" → (s == "") ≡ false
not_empty s ne = elim (Bool-cases (s == "")) [ inl e ↦ absurd (ne ((eq_iff s "").0 e)) | inr e ↦ e ]

ok_injective : {A : Type 0} {a b : A} → Result.ok a ≡ Result.ok b → a ≡ b
ok_injective h = cc

-- A token that is read from a header is not empty, and has no space at either end.
extract_bearer_token-strip :
    (header : Option String) (token : String)
    → extract_bearer_token header ≡ ok token
    → (strip token ≡ token) × (token ≢ "")
unfolding extract_bearer_token
extract_bearer_token-strip none token = λ h. cc
extract_bearer_token-strip (some header) token = elim (Bool-cases (strip header == "")) [
  | inl e ↦ rw e (λ h. cc)
  | inr e ↦ rw e (
      let (scheme, rest) = partition (strip header) in
      elim (Bool-cases (not (lower_is scheme "bearer"))) [
        | inl f ↦ rw f (λ h. cc)
        | inr f ↦ rw f (elim (Bool-cases (strip rest == "")) [
          | inl g ↦ rw g (λ h. cc)
          | inr g ↦ rw g (λ h.
              let same = ok_injective h in
              (
                ap strip (sym same) ∙ strip_idem rest ∙ same,
                λ empty. false≢true (sym g ∙ (eq_iff (strip rest) "").1 (same ∙ empty)),
              ))
        ])
      ])
]

strip-header :
    (token : String)
    → rstrip token ≡ token
    → token ≢ ""
    → strip (append "Bearer " token) ≡ append "Bearer " token
unfolding strip lstrip rstrip
strip-header String.[] h ne = absurd (ne refl)
strip-header (String.◌∷◌ c s) h ne = rw (h) refl

header-token :
    (token : String)
    → strip token ≡ token
    → token ≢ ""
    → extract_bearer_token (some (append "Bearer " token)) ≡ ok token
unfolding extract_bearer_token
header-token token h ne =
    rw (strip-header token (rstrip-strip token h) ne)
      (rw (not_empty (append "Bearer " token) (λ e. cc), h) (rw (not_empty token ne) refl))

-- A token that is not empty and has no space at either end is read back from the header
-- `Bearer <token>`, and `authenticate` answers for that header what `jwt.decode` makes of the token: the
-- principal of its claims, or the error of an expired or invalid token.
pub extract_bearer_token-header :
    (decode : String → Decoded) (token : String)
    → strip token ≡ token
    → token ≢ ""
    → (extract_bearer_token (some (append "Bearer " token)) ≡ ok token)
      × (authenticate decode (some (append "Bearer " token)) ≡ principal (decode token))
unfolding authenticate
extract_bearer_token-header decode token h ne =
    (header-token token h ne, ap (of_token decode) (header-token token h ne))

-- A result, or `AuthenticationError`.
abbrev Answers : {A : Type 0} → Result A → Type 0
Answers {A} r =
    ((a : A) × (r ≡ ok a)) ⊎ ((details : String) × (r ≡ err (authentication_error details)))

if-Answers :
    {A : Type 0} (b : Bool) (x y : Result A) → Answers x → Answers y → Answers (if b then x else y)
if-Answers true x y hx hy = hx
if-Answers false x y hx hy = hy

extract_bearer_token-Answers : (header : Option String) → Answers (extract_bearer_token header)
unfolding extract_bearer_token
extract_bearer_token-Answers none = inr (_, refl)
extract_bearer_token-Answers (some header) = if-Answers (strip header == "") _ _ (inr (_, refl)) (
    if-Answers
      (not (lower_is (partition (strip header)).0 "bearer")
        || (strip (partition (strip header)).1 == ""))
      _ _ (inr (_, refl)) (inl (_, refl)))

principal-Answers : (d : Decoded) → Answers (principal d)
principal-Answers (claims fields) = inl (_, refl)
principal-Answers expired_signature_error = inr (_, refl)
principal-Answers invalid_token_error = inr (_, refl)

of_token-Answers :
    (decode : String → Decoded) (r : Result String) → Answers r → Answers (of_token decode r)
of_token-Answers decode (ok token) h = principal-Answers (decode token)
of_token-Answers decode (err e) (inr (details, p)) = inr (details, cc)
of_token-Answers decode (err e) (inl (a, p)) = absurd (ground arith)

-- The backend raises nothing but `AuthenticationError`.
pub authenticate-cases :
    (decode : String → Decoded) (header : Option String) → Answers (authenticate decode header)
unfolding authenticate
authenticate-cases decode header =
    of_token-Answers decode (extract_bearer_token header) (extract_bearer_token-Answers header)
