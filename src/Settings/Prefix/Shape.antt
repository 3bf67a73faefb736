-- ===== src/Settings/Prefix/Shape.antt =====
-- The shape of a normalised prefix, and the end of the loop that makes it.
use Prim.Native.Char.{Char}
use transcribe_service.Prelude.{
  ℕ, zero, suc, ◌≤◌, ◌<◌, String, ◌≡◌, refl, ◌⊎◌, inl, inr, Bool, true, false, ◌||◌, ◌==◌, arith,
  Bool-cases, ◌∙◌, subst,
}
use transcribe_service.Prelude.Exec.{Result, ok}
use transcribe_service.Prelude.Text.{count, contains}
use transcribe_service.Auth.Whitespace.{strip}
use transcribe_service.Settings.Prefix.{
  is_slash, head_slash, has_double, replace_double, collapse, keep, rstrip_slash, with_slash,
  rooted, normalize_url_path_prefix_str,
}

ok_injective : {A : Type 0} {a b : A} → Result.ok a ≡ Result.ok b → a ≡ b
ok_injective h = cc

count-replace_double : (s : String) → count (replace_double s) ≤ count s
unfolding replace_double
count-replace_double String.[] = omega arith
count-replace_double (String.◌∷◌ c String.[]) = omega arith
count-replace_double (String.◌∷◌ c (String.◌∷◌ d s)) =
    ground (arith, count-replace_double s, count-replace_double (String.◌∷◌ d s))

replace_double-shorter : (s : String) → has_double s ≡ true → count (replace_double s) < count s
unfolding replace_double has_double
replace_double-shorter String.[] h = ground arith
replace_double-shorter (String.◌∷◌ c String.[]) h = ground arith
replace_double-shorter (String.◌∷◌ c (String.◌∷◌ d s)) h =
    ground (arith, count-replace_double s, replace_double-shorter (String.◌∷◌ d s))

head_slash-replace_double : (s : String) → head_slash (replace_double s) ≡ head_slash s
unfolding replace_double
head_slash-replace_double String.[] = refl
head_slash-replace_double (String.◌∷◌ c String.[]) = refl
head_slash-replace_double (String.◌∷◌ c (String.◌∷◌ d s)) = ground arith

-- With rounds enough the loop ends without a double slash.
collapse-has_double : (n : ℕ) (s : String) → count s ≤ n → has_double (collapse n s) ≡ false
unfolding collapse
collapse-has_double zero String.[] le = refl
collapse-has_double zero (String.◌∷◌ c s) le = absurd (omega arith)
collapse-has_double (suc n) s le = elim (Bool-cases (has_double s)) [
  | inl e ↦ rw e (
      let shorter = replace_double-shorter s e in
      collapse-has_double n (replace_double s) (omega arith))
  | inr e ↦ rw e e
]

head_slash-collapse : (n : ℕ) (s : String) → head_slash (collapse n s) ≡ head_slash s
unfolding collapse
head_slash-collapse zero s = refl
head_slash-collapse (suc n) s = elim (Bool-cases (has_double s)) [
  | inl e ↦ rw e (head_slash-collapse n (replace_double s) ∙ head_slash-replace_double s)
  | inr e ↦ rw e refl
]

abbrev pub ends_slash : String → Bool
ends_slash String.[] = false
ends_slash (String.◌∷◌ c String.[]) = is_slash c
ends_slash (String.◌∷◌ c (String.◌∷◌ d s)) = ends_slash (String.◌∷◌ d s)

ends_slash-keep : (c : Char) (s : String) → ends_slash s ≡ false → ends_slash (keep c s) ≡ false
ends_slash-keep c String.[] h = elim (Bool-cases (is_slash c)) [
  | inl e ↦ rw e refl
  | inr e ↦ rw e (rw e refl)
]
ends_slash-keep c (String.◌∷◌ d s) h = h

ends_slash-rstrip_slash : (s : String) → ends_slash (rstrip_slash s) ≡ false
unfolding rstrip_slash
ends_slash-rstrip_slash String.[] = refl
ends_slash-rstrip_slash (String.◌∷◌ c s) =
    ends_slash-keep c (rstrip_slash s) (ends_slash-rstrip_slash s)

-- Taking slashes off the end keeps the first character, unless nothing is left.
head_slash-keep : (c : Char) (s : String) → (head_slash (keep c s) ≡ is_slash c) ⊎ (keep c s ≡ "")
head_slash-keep c String.[] = elim (Bool-cases (is_slash c)) [
  | inl e ↦ inr (rw e refl)
  | inr e ↦ inl (rw e (rw e refl))
]
head_slash-keep c (String.◌∷◌ d s) = inl refl

head_slash-rstrip_slash :
    (s : String) → (head_slash (rstrip_slash s) ≡ head_slash s) ⊎ (rstrip_slash s ≡ "")
unfolding rstrip_slash
head_slash-rstrip_slash String.[] = inr refl
head_slash-rstrip_slash (String.◌∷◌ c s) = head_slash-keep c (rstrip_slash s)

has_double-keep :
    (c : Char) (s r : String)
    → (head_slash r ≡ head_slash s) ⊎ (r ≡ "")
    → has_double (String.◌∷◌ c s) ≡ false
    → has_double r ≡ false
    → has_double (keep c r) ≡ false
unfolding has_double
has_double-keep c s String.[] same h k = elim (Bool-cases (is_slash c)) [
  | inl e ↦ rw e refl
  | inr e ↦ rw e (rw e refl)
]
has_double-keep c s (String.◌∷◌ d r) (inl same) h k = ground (arith, same, h, k)
has_double-keep c s (String.◌∷◌ d r) (inr empty) h k = cc

has_double-tail :
    (c : Char) (s : String) → has_double (String.◌∷◌ c s) ≡ false → has_double s ≡ false
unfolding has_double
has_double-tail c s h = ground arith

has_double-rstrip_slash : (s : String) → has_double s ≡ false → has_double (rstrip_slash s) ≡ false
unfolding rstrip_slash
has_double-rstrip_slash String.[] h = h
has_double-rstrip_slash (String.◌∷◌ c s) h =
    has_double-keep c s (rstrip_slash s) (head_slash-rstrip_slash s) h
      (has_double-rstrip_slash s (has_double-tail c s h))

head_slash-with_slash : (s : String) → head_slash (with_slash s) ≡ true
head_slash-with_slash s = elim (Bool-cases (head_slash s)) [ inl e ↦ rw e e | inr e ↦ rw e refl ]

-- A path that is rooted, has no empty part, and does not end in a slash; or nothing.
abbrev pub IsPrefix : String → Type 0
IsPrefix s = (s ≡ "") ⊎ ((head_slash s ≡ true) × (has_double s ≡ false) × (ends_slash s ≡ false))

rooted-IsPrefix : (s : String) → IsPrefix (rooted s)
rooted-IsPrefix s =
    let t = with_slash s in
    let u = collapse (count t) t in
    let single = collapse-has_double (count t) t (omega arith) in
    elim (head_slash-rstrip_slash u) [
      | inl head ↦ inr (
        head ∙ head_slash-collapse (count t) t ∙ head_slash-with_slash s,
        has_double-rstrip_slash u single,
        ends_slash-rstrip_slash u,
      )
      | inr empty ↦ inl empty
    ]

-- A prefix that is normalised without an error is empty, which turns it off, or it starts with a slash,
-- does not end with one, and has no two slashes in a row. The rounds given to the loop are enough.
pub normalize_url_path_prefix_str-IsPrefix :
    (raw s : String) → normalize_url_path_prefix_str raw ≡ ok s → IsPrefix s
unfolding normalize_url_path_prefix_str
normalize_url_path_prefix_str-IsPrefix raw s = elim (Bool-cases (strip raw == "")) [
  | inl e ↦ rw e (λ h. subst IsPrefix (ok_injective h) (inl refl))
  | inr e ↦
      rw e
        (elim (Bool-cases
          (contains "\n" (strip raw) || contains "\r" (strip raw) || contains ".." (strip raw))) [
            | inl f ↦ rw f (λ h. cc)
            | inr f ↦ rw f (λ h. subst IsPrefix (ok_injective h) (rooted-IsPrefix (strip raw)))
          ])
]
