-- ===== src/Prelude/Result.antt =====
-- Pure steps that may raise, one after another, and what a chain that returns says of its steps.
use mathlib.Core.Path.{◌≡◌, refl}
use mathlib.Core.Logic.{◌⊎◌, inl, inr}
use mathlib.Core.Bool.{Bool, true, false}
use transcribe_service.Prelude.Exec.{Exn, Result, ok, err}

pub ok_injective : {A : Type 0} {x y : A} → Result.ok x ≡ Result.ok y → x ≡ y
ok_injective same = cc

-- Whether a step returned or raised, with the equation that says so.
pub Result-cases :
    {A : Type 0} (step : Result A)
    → ((x : A) × (step ≡ ok x)) ⊎ ((raised : Exn) × (step ≡ err raised))
Result-cases (err raised) = inr (raised, refl)
Result-cases (ok x) = inl (x, refl)

module _ {A B : Type 0} where
  infixl 5 ◌>>=◌
  abbrev pub ◌>>=◌ : Result A → (A → Result B) → Result B
  err raised >>= next = err raised
  ok x >>= next = next x

  -- The first step of a chain that returned, and the rest of the chain.
  pub first_of_chain :
      (step : Result A) (next : A → Result B) {y : B}
      → (step >>= next) ≡ ok y
      → (x : A) × (step ≡ ok x) × (next x ≡ ok y)
  first_of_chain (err raised) next returned = cc
  first_of_chain (ok x) next returned = (x, refl, returned)

-- `if test: raise e`
abbrev pub raise_if : Bool → Exn → Result (Unit {0})
raise_if false raised = ok tt
raise_if true raised = err raised
