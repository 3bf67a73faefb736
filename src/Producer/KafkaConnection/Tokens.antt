-- ===== src/Producer/KafkaConnection/Tokens.antt =====
-- Every token that the provider gives out was signed for it, and one that it reuses is not about to
-- expire.
use transcribe_service.Prelude.{
  ℕ, ◌+◌, ◌<◌, String, ◌≡◌, refl, ◌⊎◌, inl, inr, Option, none, some, List, [], ◌∷◌, arith,
  Bool-cases, subst,
}
use transcribe_service.Prelude.Exec.{Result, ok, err}
use transcribe_service.Producer.KafkaConnection.{
  Call, MskTokenProvider, new, is_fresh, sign, reuse, refresh_token,
}

-- One of the calls was answered by the signer with the token and its expiry.
abbrev pub IsSigned : String → ℕ → List Call → Type 0
IsSigned token expiry_ms [] = ⊥
IsSigned token expiry_ms (c ∷ cs) = (c.signed ≡ ok (token, expiry_ms)) ⊎ IsSigned token expiry_ms cs

-- What a call may return after the calls `past`.
abbrev pub IsBacked : List Call → Call → Result String → Type 0
IsBacked past c (ok token) =
    ((e : ℕ) × (c.signed ≡ ok (token, e)))
    ⊎ ((e : ℕ) × IsSigned token e past × (c.now_ms + 60000 < e))
IsBacked past c (err x) = c.signed ≡ err x

abbrev pub AllBacked : List Call → List Call → MskTokenProvider → Type 0
AllBacked past [] p = Unit
AllBacked past (c ∷ cs) p =
    IsBacked past c (refresh_token c p).0 × AllBacked (c ∷ past) cs (refresh_token c p).1

abbrev CacheIsSigned : List Call → Option String → ℕ → Type 0
CacheIsSigned past none e = Unit
CacheIsSigned past (some token) e = IsSigned token e past

-- One call.
abbrev IsStep : List Call → Call → Result String × MskTokenProvider → Type 0
IsStep past c (r, p) = IsBacked past c r × CacheIsSigned (c ∷ past) p.cached p.expiry_ms

later-IsSigned :
    (past : List Call) (c : Call) (o : Option String) (e : ℕ)
    → CacheIsSigned past o e
    → CacheIsSigned (c ∷ past) o e
later-IsSigned past c none e signed = tt
later-IsSigned past c (some token) e signed = inr signed

sign-IsStep :
    (past : List Call) (c : Call) (p : MskTokenProvider) (r : Result (String × ℕ))
    → CacheIsSigned past p.cached p.expiry_ms
    → c.signed ≡ r
    → IsStep past c (sign c p)
sign-IsStep past c p (ok (token, e)) held h = rw h (inl (e, refl), inl refl)
sign-IsStep past c p (err x) held h = rw h (
  refl,
  later-IsSigned past (record { now_ms = c.now_ms; signed = err x }) p.cached p.expiry_ms held,
)

reuse-IsStep :
    (past : List Call) (c : Call) (o : Option String) (p : MskTokenProvider)
    → CacheIsSigned past p.cached p.expiry_ms
    → p.cached ≡ o
    → IsStep past c (reuse o c p)
reuse-IsStep past c none p held same = sign-IsStep past c p c.signed held refl
reuse-IsStep past c (some token) p held same = elim (Bool-cases (is_fresh c.now_ms p.expiry_ms)) [
  | inl e ↦ rw e (
    inr (p.expiry_ms, subst (λ o. CacheIsSigned past o p.expiry_ms) same held, ground arith),
    later-IsSigned past c p.cached p.expiry_ms held,
  )
  | inr e ↦ rw e (sign-IsStep past c p c.signed held refl)
]

refresh_token-AllBacked :
    (past cs : List Call) (p : MskTokenProvider)
    → CacheIsSigned past p.cached p.expiry_ms
    → AllBacked past cs p
unfolding refresh_token
refresh_token-AllBacked past [] p signed = tt
refresh_token-AllBacked past (c ∷ cs) p signed =
    let step = reuse-IsStep past c p.cached p signed refl in
    (step.0, refresh_token-AllBacked (c ∷ past) cs (reuse p.cached c p).1 step.1)

-- Whatever the order of the calls' clocks, a token that a call of a new provider returns was signed in
-- that call, or was signed in an earlier one and expires more than a minute after the time that the
-- call read; and a call raises only what the signer raised in it.
pub refresh_token-backed : (cs : List Call) → AllBacked [] cs new
refresh_token-backed cs = refresh_token-AllBacked [] cs new tt
