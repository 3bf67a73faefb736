-- ===== src/Redis/OwnershipGuard/Lease.antt =====
-- A lease over time: what other senders do while it runs, and the refresh that renews it.
use transcribe_service.Prelude.{
  ℕ, ◌+◌, ◌-◌, ◌<◌, String, ◌≡◌, ◌≢◌, refl, Bool, true, false, List, [], ◌∷◌, arith, eq_refl, ◌∙◌,
  ap, sym, subst, inl, inr, Bool-cases, lt→ltb,
}
use transcribe_service.Prelude.Exec.{Result, ok}
use transcribe_service.Redis.Server.{Redis, millis}
use transcribe_service.Redis.OwnershipGuard.{Config, key, Guard, claim_or_refresh, release}
use transcribe_service.Redis.OwnershipGuard.Exclusion.{
  lease, available, claim_or_refresh-IsClaimed, release-IsReleased,
}

-- What may happen to the guard's server between two refreshes of a sender.
pub data Act : Type 0 where
  claims releases : String → Act
  passes : ℕ → Act

abbrev pub elapsed : List Act → ℕ
elapsed [] = 0
elapsed (passes ms ∷ acts) = ms + elapsed acts
elapsed (act ∷ acts) = elapsed acts

-- No act is made with this token.
abbrev pub ByOthers : String → List Act → Type 0
ByOthers token [] = Unit
ByOthers token (claims other ∷ acts) = (other ≢ token) × ByOthers token acts
ByOthers token (releases other ∷ acts) = (other ≢ token) × ByOthers token acts
ByOthers token (passes ms ∷ acts) = ByOthers token acts

module _ (r : Redis) (self : Config) (cid : String) where
  open r use {entry, text, same, tick}

  abbrev pub step : Act → Guard r → Guard r
  step (claims token) g = (claim_or_refresh r self cid token g).1
  step (releases token) g = (release r self cid token g).1
  step (passes ms) g = record g { store = tick ms g.store }

  unfoldable pub run : List Act → Guard r → Guard r
  run [] g = g
  run (act ∷ acts) g = run acts (step act g)

  abbrev pub IsHeld : String → ℕ → Guard r → Type 0
  IsHeld token left g = entry (key self cid) g.store ≡ lease r token left

  -- The answers to one refresh after each of the rounds.
  unfoldable pub heartbeat : String → List (List Act) → Guard r → List (Result Bool)
  heartbeat token [] g = []
  heartbeat token (acts ∷ rounds) g =
      (claim_or_refresh r self cid token (run acts g)).0
      ∷ heartbeat token rounds (step (claims token) (run acts g))

  abbrev pub InTime : String → List (List Act) → Type 0
  InTime token [] = Unit
  InTime token (acts ∷ rounds) =
      ByOthers token acts × (elapsed acts < millis self.guard_ttl) × InTime token rounds

  abbrev pub AllOwned : List (Result Bool) → Type 0
  AllOwned [] = Unit
  AllOwned (answer ∷ answers) = (answer ≡ ok true) × AllOwned answers

  same-false : (other token : String) → other ≢ token → same (text token) (text other) ≡ false
  same-false other token ne = elim (Bool-cases (same (text token) (text other))) [
    | inl e ↦ absurd (ne (sym (r.text_injective token other ((r.same_iff _ _).0 e))))
    | inr e ↦ e
  ]

  same_self : (token : String) → same (text token) (text token) ≡ true
  same_self token = (r.same_iff (text token) (text token)).1 refl

  module _ (pos : 0 < self.guard_ttl) where
    unavailable :
        (token other : String) (left : ℕ) (g : Guard r)
        → other ≢ token
        → IsHeld token left g
        → available r (entry (key self cid) g.store) other ≡ false
    unavailable token other left g ne held = rw held (same-false other token ne)

    claims-keeps :
        (token other : String) (left : ℕ) (g : Guard r)
        → other ≢ token
        → IsHeld token left g
        → IsHeld token left (step (claims other) g)
    claims-keeps token other left g ne held =
        let c = claim_or_refresh-IsClaimed r self cid other g pos in
        c.entries (key self cid)
        ∙ rw (eq_refl (key self cid), unavailable token other left g ne held) held

    releases-keeps :
        (token other : String) (left : ℕ) (g : Guard r)
        → other ≢ token
        → IsHeld token left g
        → IsHeld token left (step (releases other) g)
    releases-keeps token other left g ne held =
        let c = release-IsReleased r self cid other g in
        c.entries (key self cid)
        ∙ rw (eq_refl (key self cid), held) (rw (same-false other token ne))

    passes-keeps :
        (token : String) (ms left : ℕ) (g : Guard r)
        → ms < left
        → IsHeld token left g
        → IsHeld token (left - ms) (step (passes ms) g)
    passes-keeps token ms left g lt held =
        r.entry-tick (key self cid) ms g.store ∙ rw held (rw (lt→ltb ms left lt))

    run-keeps :
        (token : String) (acts : List Act) (left : ℕ) (g : Guard r)
        → ByOthers token acts
        → elapsed acts < left
        → IsHeld token left g
        → IsHeld token (left - elapsed acts) (run acts g)
    unfolding run
    run-keeps token [] left g others lt held =
        let e : left ≡ left - 0 = omega arith in subst (λ n. IsHeld token n g) e held
    run-keeps token (claims other ∷ acts) left g others lt held =
        run-keeps token acts left (step (claims other) g) others.1 lt
          (claims-keeps token other left g others.0 held)
    run-keeps token (releases other ∷ acts) left g others lt held =
        run-keeps token acts left (step (releases other) g) others.1 lt
          (releases-keeps token other left g others.0 held)
    run-keeps token (passes ms ∷ acts) left g others lt held =
        let e : left - ms - elapsed acts ≡ left - (ms + elapsed acts) = omega arith in
        subst (λ n. IsHeld token n (run acts (step (passes ms) g))) e
          (run-keeps token acts (left - ms) (step (passes ms) g) others (omega arith)
            (passes-keeps token ms left g (omega arith) held))

    -- With a positive time to live: while a token's lease runs, after any claims and releases with
    -- other tokens that take less time than the lease has left, the token still holds the
    -- conversation for the rest of that time, and the claim of any other token is refused.
    pub claim_or_refresh-excludes :
        (token other : String) (acts : List Act) (left : ℕ) (g : Guard r)
        → other ≢ token
        → ByOthers token acts
        → elapsed acts < left
        → IsHeld token left g
        → IsHeld token (left - elapsed acts) (run acts g)
          × ((claim_or_refresh r self cid other (run acts g)).0 ≡ ok false)
    claim_or_refresh-excludes token other acts left g ne others lt held =
        let still = run-keeps token acts left g others lt held in
        (
          still,
          (claim_or_refresh-IsClaimed r self cid other (run acts g) pos).owned
              ∙ ap ok (unavailable token other (left - elapsed acts) (run acts g) ne still),
        )

    refreshed :
        (token : String) (left : ℕ) (g : Guard r)
        → IsHeld token left g
        → ((claim_or_refresh r self cid token g).0 ≡ ok true)
          × IsHeld token (millis self.guard_ttl) (step (claims token) g)
    refreshed token left g held =
        let c = claim_or_refresh-IsClaimed r self cid token g pos in
        let free : available r (entry (key self cid) g.store) token ≡ true =
          rw held (same_self token) in
        (c.owned ∙ ap ok free, c.entries (key self cid) ∙ rw (eq_refl (key self cid), free))

    -- With a positive time to live: a sender that holds the conversation for the full time to live
    -- and refreshes it each time before that is over is answered "owned" each time, whatever
    -- claims and releases with other tokens come between its refreshes.
    pub heartbeat-AllOwned :
        (token : String) (rounds : List (List Act)) (g : Guard r)
        → InTime token rounds
        → IsHeld token (millis self.guard_ttl) g
        → AllOwned (heartbeat token rounds g)
    unfolding heartbeat
    heartbeat-AllOwned token [] g timely held = tt
    heartbeat-AllOwned token (acts ∷ rounds) g timely held =
        let still = run-keeps token acts (millis self.guard_ttl) g timely.0 timely.1 held in
        let again = refreshed token (millis self.guard_ttl - elapsed acts) (run acts g) still in
        (
          again.0,
          heartbeat-AllOwned token rounds (step (claims token) (run acts g)) timely.2 again.1,
        )
