-- ===== src/Prelude/Dict/Distinct.antt =====
-- Dictionaries whose keys are distinct, as Python's are.
use Prim.Native.String.{String}
use mathlib.Core.Path.{◌≡◌, refl, sym, ap, ◌∙◌, subst}
use mathlib.Core.Logic.{inl, inr}
use mathlib.Core.Option.{none, some}
use mathlib.Core.List.{List, [], ◌∷◌}
use native.Mathlib.Omega.{arith}
use text.Mathlib.Text.{◌==◌}
use text.Mathlib.TextEquality.{eq_iff}
use text.Mathlib.TextPositions.{eq_refl}
use transcribe_service.Prelude.Tests.{if◌then◌else◌, Bool-cases}
use transcribe_service.Prelude.Dict.{lookup, set, pop, All, lookup-set, eq_false_comm}

module _ {ℓ} {V : Type ℓ} where
  abbrev pub Distinct : List (String × V) → Type ℓ
  Distinct [] = Unit
  Distinct ((k, v) ∷ d) = (lookup k d ≡ none) × Distinct d

  some_injective : {v w : V} → some v ≡ some w → v ≡ w
  some_injective e = cc

  none-some : {v : V} → none ≡ some v → ⊥
  none-some e = cc

  -- A key that is found is not the head's.
  later :
      (k key : String) (w v : V) (d : List (String × V))
      → lookup k d ≡ none
      → lookup key d ≡ some v
      → lookup key ((k, w) ∷ d) ≡ some v
  later k key w v d fresh e = elim (Bool-cases (k == key)) [
    | inl f ↦ absurd (none-some (sym fresh ∙ ap (λ x. lookup x d) ((eq_iff k key).0 f) ∙ e))
    | inr f ↦ rw f e
  ]

  pub lookup-pop :
      (j key : String) (d : List (String × V))
      → lookup j (pop key d) ≡ (if key == j then none else lookup j d)
  unfolding pop
  lookup-pop j key [] = ground arith
  lookup-pop j key ((k, v) ∷ d) = elim (Bool-cases (k == key)) [
    | inl e ↦ rw e (lookup-pop j key d ∙ rw ((eq_iff k key).0 e) (ground arith))
    | inr e ↦ rw e (elim (Bool-cases (k == j)) [
      | inl f ↦ rw (f, eq_false_comm j key (ap (λ x. x == key) (sym ((eq_iff k j).0 f)) ∙ e)) refl
      | inr f ↦ rw f (lookup-pop j key d)
    ])
  ]

  pub set-Distinct :
      (key : String) (v : V) (d : List (String × V)) → Distinct d → Distinct (set key v d)
  unfolding set
  set-Distinct key v [] h = (refl, tt)
  set-Distinct key v ((k, w) ∷ d) h = elim (Bool-cases (k == key)) [
    | inl e ↦ rw e h
    | inr e ↦ rw e (lookup-set k key v d ∙ rw (eq_false_comm k key e) h.0, set-Distinct key v d h.1)
  ]

  pub pop-Distinct : (key : String) (d : List (String × V)) → Distinct d → Distinct (pop key d)
  unfolding pop
  pop-Distinct key [] h = tt
  pop-Distinct key ((k, w) ∷ d) h = elim (Bool-cases (k == key)) [
    | inl e ↦ rw e (pop-Distinct key d h.1)
    | inr e ↦ rw e (lookup-pop k key d ∙ rw (eq_false_comm k key e) h.0, pop-Distinct key d h.1)
  ]

  found {κ} :
      (P : String → V → Type κ) (k key : String) (w v : V)
      → k ≡ key
      → some w ≡ some v
      → P k w
      → P key v
  found P k key w v same e h = subst (P key) (some_injective e) (subst (λ x. P x w) same h)

  -- What holds of every pair holds of what is found.
  pub lookup-All {κ} :
      (P : String → V → Type κ) (key : String) (v : V) (d : List (String × V))
      → All P d
      → lookup key d ≡ some v
      → P key v
  lookup-All P key v [] h = λ e. cc
  lookup-All P key v ((k, w) ∷ d) h = elim (Bool-cases (k == key)) [
    | inl f ↦ rw f (λ e. found P k key w v ((eq_iff k key).0 f) e h.0)
    | inr f ↦ rw f (lookup-All P key v d h.1)
  ]

  -- What holds of all that is found holds of every pair.
  pub All-lookup {κ} :
      (P : String → V → Type κ) (d : List (String × V))
      → Distinct d
      → ((key : String) (v : V) → lookup key d ≡ some v → P key v)
      → All P d
  All-lookup P [] h f = tt
  All-lookup P ((k, w) ∷ d) h f = (
    f k w (rw (eq_refl k) refl),
    All-lookup P d h.1 (λ key v e. f key v (later k key w v d h.0 e)),
  )
