-- ===== src/Prelude/Text.antt =====
-- Python's `str` operations that the service uses, over the native texts. A text is walked by
-- characters, since Python indexes a `str` by code points.
use Prim.Native.Nat.{ℕ, zero, suc, ◌/◌, ◌%◌, ◌≤◌, compare, Ordering}
use Prim.Native.Char.{Char, code}
use Prim.Native.String.{String, ◌++◌}
use mathlib.Core.Path.{◌≡◌, refl}
use mathlib.Core.Bool.{Bool, true, false, ◌&&◌, ◌||◌}
use native.Mathlib.Omega.{arith}

-- `len(s)`
abbrev pub count : String → ℕ
count String.[] = 0
count (String.◌∷◌ c s) = suc (count s)

-- `s[:n]`
unfoldable pub take : ℕ → String → String
take zero s = ""
take (suc n) String.[] = ""
take (suc n) (String.◌∷◌ c s) = String.◌∷◌ c (take n s)

-- A slice `s[:n]` has at most `n` characters.
pub count-take-le : (n : ℕ) (s : String) → count (take n s) ≤ n
unfolding take
count-take-le zero s = omega arith
count-take-le (suc n) String.[] = omega arith
count-take-le (suc n) (String.◌∷◌ c s) = omega (arith, count-take-le n s)

-- `s + t`, by the clauses that the native operation has as laws
abbrev pub append : String → String → String
append String.[] t = t
append (String.◌∷◌ c s) t = String.◌∷◌ c (append s t)

abbrev pub same_char : Char → Char → Bool
same_char c d = elim (compare (code c) (code d)) [ Ordering.eq ↦ true | _ ↦ false ]

-- `s.startswith(p)`
unfoldable pub starts_with : String → String → Bool
starts_with s String.[] = true
starts_with String.[] (String.◌∷◌ d p) = false
starts_with (String.◌∷◌ c s) (String.◌∷◌ d p) = same_char c d && starts_with s p

-- `p in s`
unfoldable pub contains : String → String → Bool
unfolding starts_with
contains p String.[] = starts_with "" p
contains p (String.◌∷◌ c s) = starts_with (String.◌∷◌ c s) p || contains p s

abbrev digit : ℕ → String
digit zero = "0"
digit (suc zero) = "1"
digit (suc (suc zero)) = "2"
digit (suc (suc (suc zero))) = "3"
digit (suc (suc (suc (suc zero)))) = "4"
digit (suc (suc (suc (suc (suc zero))))) = "5"
digit (suc (suc (suc (suc (suc (suc zero)))))) = "6"
digit (suc (suc (suc (suc (suc (suc (suc zero))))))) = "7"
digit (suc (suc (suc (suc (suc (suc (suc (suc zero)))))))) = "8"
digit _ = "9"

decimal_from : ℕ → ℕ → String
decimal_from zero n = ""
decimal_from (suc fuel) n =
    let rest = decimal_from fuel (n / 10) in
    elim (compare n 10) [ Ordering.lt ↦ digit n | _ ↦ rest ++ digit (n % 10) ]

-- `str(n)`: a number has at most as many decimal digits as its value, and one more.
unfoldable pub decimal : ℕ → String
unfolding decimal_from
decimal n = decimal_from (suc n) n

decimal_test : decimal 1970 ≡ "1970"
unfolding decimal
decimal_test = refl
