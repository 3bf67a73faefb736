-- ===== src/Prelude/Dict.antt =====
-- Python's `dict` with texts as keys: pairs, of which the first with a key counts.
pub mod Distinct
use Prim.Native.String.{String}
use mathlib.Core.Path.{◌≡◌, refl, sym, ap, ◌∙◌}
use mathlib.Core.Logic.{inl, inr}
use mathlib.Core.Bool.{Bool, true, false, false≢true}
use mathlib.Core.Option.{Option, none, some}
use mathlib.Core.List.{List, [], ◌∷◌}
use text.Mathlib.Text.{◌==◌}
use text.Mathlib.TextEquality.{eq_iff}
use text.Mathlib.TextPositions.{eq_refl}
use transcribe_service.Prelude.Tests.{if◌then◌else◌, Bool-cases}

pub eq_false_comm : (s t : String) → (s == t) ≡ false → (t == s) ≡ false
eq_false_comm s t h = elim (Bool-cases (t == s)) [
  | inl e ↦ absurd (false≢true (sym h ∙ (eq_iff s t).1 (sym ((eq_iff t s).0 e))))
  | inr e ↦ e
]

-- `a if a is not None else b`
abbrev pub or_else {ℓ} : {A : Type ℓ} → Option A → Option A → Option A
or_else none y = y
or_else (some a) y = some a

module _ {ℓ} {V : Type ℓ} where
  -- `d.get(key)`
  abbrev pub lookup : String → List (String × V) → Option V
  lookup key [] = none
  lookup key ((k, v) ∷ d) = if k == key then some v else lookup key d

  -- `d[key] = value`
  unfoldable pub set : String → V → List (String × V) → List (String × V)
  set key value [] = (key, value) ∷ []
  set key value ((k, v) ∷ d) = if k == key then (k, value) ∷ d else (k, v) ∷ set key value d

  -- `d.update(e)`. The keys of a dictionary are distinct, so the order of the assignments is free.
  unfoldable pub update : List (String × V) → List (String × V) → List (String × V)
  unfolding set
  update d [] = d
  update d ((k, v) ∷ e) = set k v (update d e)

  -- `d.pop(key, None)`
  unfoldable pub pop : String → List (String × V) → List (String × V)
  pop key [] = []
  pop key ((k, v) ∷ d) = if k == key then pop key d else (k, v) ∷ pop key d

  pub lookup-set :
      (key k : String) (v : V) (d : List (String × V))
      → lookup key (set k v d) ≡ (if k == key then some v else lookup key d)
  unfolding set
  lookup-set key k v [] = refl
  lookup-set key k v ((k', v') ∷ d) = elim (Bool-cases (k' == k)) [
    | inl e ↦
        let same = (eq_iff k' k).0 e in
        elim (Bool-cases (k == key)) [
          | inl f ↦ rw e (rw same (rw f refl))
          | inr f ↦ rw e (rw same (rw f refl))
        ]
    | inr e ↦ rw e (elim (Bool-cases (k' == key)) [
      | inl f ↦
          let same = (eq_iff k' key).0 f in
          let other = ap (λ x. x == k) (sym same) ∙ e in rw (f, eq_false_comm key k other) refl
      | inr f ↦ rw f (lookup-set key k v d)
    ])
  ]

  pub lookup-update :
      (key : String) (d e : List (String × V))
      → lookup key (update d e) ≡ or_else (lookup key e) (lookup key d)
  unfolding update
  lookup-update key d [] = refl
  lookup-update key d ((k, v) ∷ e) = elim (Bool-cases (k == key)) [
    | inl f ↦ lookup-set key k v (update d e) ∙ rw f refl
    | inr f ↦ lookup-set key k v (update d e) ∙ rw f (lookup-update key d e)
  ]

  -- What holds of every pair.
  abbrev pub All {κ} : (String → V → Type κ) → List (String × V) → Type κ
  All P [] = Unit
  All P ((k, v) ∷ d) = P k v × All P d

  pub set-All {κ} :
      (P : String → V → Type κ) (key : String) (value : V) (d : List (String × V))
      → P key value
      → All P d
      → All P (set key value d)
  unfolding set
  set-All P key value [] p h = (p, tt)
  set-All P key value ((k, v) ∷ d) p h = elim (Bool-cases (k == key)) [
    | inl e ↦ rw e (rw ((eq_iff k key).0 e) (p, h.1))
    | inr e ↦ rw e (h.0, set-All P key value d p h.1)
  ]

  pub pop-All {κ} :
      (P : String → V → Type κ) (key : String) (d : List (String × V)) → All P d → All P (pop key d)
  unfolding pop
  pop-All P key [] h = tt
  pop-All P key ((k, v) ∷ d) h = elim (Bool-cases (k == key)) [
    | inl e ↦ rw e (pop-All P key d h.1)
    | inr e ↦ rw e (h.0, pop-All P key d h.1)
  ]
