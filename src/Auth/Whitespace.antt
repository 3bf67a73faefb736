-- ===== src/Auth/Whitespace.antt =====
-- Python's `str.strip`, and what a stripped text looks like.
use Prim.Native.Char.{Char, code}
use transcribe_service.Prelude.{
  ℕ, String, ◌≡◌, refl, Bool, false, ◌&&◌, ◌||◌, eqb, leb, if◌then◌else◌, Bool-cases, ◌⊎◌, inl, inr,
  ap, sym, ◌∙◌,
}

abbrev between : ℕ → ℕ → ℕ → Bool
between low n high = leb low n && leb n high

-- `c.isspace()`
abbrev pub is_space : Char → Bool
is_space c =
    between 9 (code c) 13
    || between 28 (code c) 32
    || eqb (code c) 133
    || eqb (code c) 160
    || eqb (code c) 5760
    || between 8192 (code c) 8202
    || between 8232 (code c) 8233
    || eqb (code c) 8239
    || eqb (code c) 8287
    || eqb (code c) 12288

unfoldable pub lstrip : String → String
lstrip String.[] = ""
lstrip (String.◌∷◌ c s) = if is_space c then lstrip s else String.◌∷◌ c s

-- A character is kept if it is no space, or if one after it is kept.
abbrev keep : Char → String → String
keep c String.[] = if is_space c then "" else String.◌∷◌ c ""
keep c (String.◌∷◌ d rest) = String.◌∷◌ c (String.◌∷◌ d rest)

unfoldable pub rstrip : String → String
rstrip String.[] = ""
rstrip (String.◌∷◌ c s) = keep c (rstrip s)

unfoldable pub strip : String → String
unfolding lstrip rstrip
strip s = rstrip (lstrip s)

rstrip-keep : (c : Char) (s : String) → rstrip s ≡ s → rstrip (keep c s) ≡ keep c s
unfolding rstrip
rstrip-keep c String.[] h = elim (Bool-cases (is_space c)) [
  | inl e ↦ rw e refl
  | inr e ↦ rw e (rw e refl)
]
rstrip-keep c (String.◌∷◌ d rest) h = rw h refl

rstrip_idem : (s : String) → rstrip (rstrip s) ≡ rstrip s
unfolding rstrip
rstrip_idem String.[] = refl
rstrip_idem (String.◌∷◌ c s) = rstrip-keep c (rstrip s) (rstrip_idem s)

lstrip-cases :
    (s : String)
    → (lstrip s ≡ "")
      ⊎ ((c : Char) × (t : String) × (lstrip s ≡ String.◌∷◌ c t) × (is_space c ≡ false))
unfolding lstrip
lstrip-cases String.[] = inl refl
lstrip-cases (String.◌∷◌ c s) = elim (Bool-cases (is_space c)) [
  | inl e ↦ rw e (lstrip-cases s)
  | inr e ↦ inr (c, s, rw e refl, e)
]

lstrip-keep : (c : Char) (s : String) → is_space c ≡ false → lstrip (keep c s) ≡ keep c s
unfolding lstrip
lstrip-keep c String.[] e = rw e (rw e refl)
lstrip-keep c (String.◌∷◌ d rest) e = rw e refl

pub strip_idem : (s : String) → strip (strip s) ≡ strip s
unfolding strip
strip_idem s = elim (lstrip-cases s) [
  | inl e ↦ rw e refl
  | inr (c, t, e, no_space) ↦
      rw e (rw (lstrip-keep c (rstrip t) no_space) (rstrip-keep c (rstrip t) (rstrip_idem t)))
]

pub rstrip-strip : (s : String) → strip s ≡ s → rstrip s ≡ s
unfolding strip
rstrip-strip s h = ap rstrip (sym h) ∙ rstrip_idem (lstrip s) ∙ h
