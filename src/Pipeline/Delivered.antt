-- ===== src/Pipeline/Delivered.antt =====
-- The sequence numbers that a topic holds of a conversation, and what it means that they are in order.
use transcribe_service.Prelude.{
  ℕ, ◌+◌, ◌<◌, ◌≤◌, String, ◌≡◌, refl, Bool, true, false, ◌||◌, Option, none, some, List, [], ◌∷◌,
  ◌++◌, arith, eqb, ◌==◌, if◌then◌else◌,
}
use transcribe_service.Producer.{KafkaRecord}

abbrev pub sequence_of : KafkaRecord → ℕ
sequence_of x = x.value.payload.sequence_number

-- The numbers of the records with this key, in the order of the topic.
abbrev pub stored : String → List KafkaRecord → List ℕ
stored c [] = []
stored c (x ∷ xs) = if x.key == c then sequence_of x ∷ stored c xs else stored c xs

pub stored-append :
    (c : String) (xs : List KafkaRecord) (x : KafkaRecord)
    → stored c (xs ++ x ∷ [])
      ≡ (if x.key == c then stored c xs ++ sequence_of x ∷ [] else stored c xs)
stored-append c [] x = ground arith
stored-append c (y ∷ xs) x = ground (arith, stored-append c xs x)

-- Read numbers in order, where all below `high` have been read: each is the next one, or the last one
-- once more. The result is the new `high`, and `none` if a number is neither.
abbrev pub next_high : ℕ → ℕ → Option ℕ
next_high high x =
    if eqb x high then some (high + 1) else if eqb (x + 1) high then some high else none

abbrev pub bind_high : Option ℕ → (ℕ → Option ℕ) → Option ℕ
bind_high none f = none
bind_high (some h) f = f h

unfoldable pub read_from : Option ℕ → List ℕ → Option ℕ
read_from high [] = high
read_from high (x ∷ xs) = read_from (bind_high high (λ h. next_high h x)) xs

-- The list is 0, 1, 2, … up to `high`, without a gap, and repeats only the number it stands at.
abbrev pub IsGapless : List ℕ → ℕ → Type 0
IsGapless xs high = read_from (some 0) xs ≡ some high

pub read_from-append :
    (high : Option ℕ) (xs : List ℕ) (x : ℕ)
    → read_from high (xs ++ x ∷ []) ≡ bind_high (read_from high xs) (λ h. next_high h x)
unfolding read_from
read_from-append high [] x = refl
read_from-append high (y ∷ xs) x = read_from-append (bind_high high (λ h. next_high h y)) xs x

abbrev pub mem : ℕ → List ℕ → Bool
mem a [] = false
mem a (x ∷ xs) = eqb x a || mem a xs

read_from-none : (xs : List ℕ) → read_from none xs ≡ none
unfolding read_from
read_from-none [] = refl
read_from-none (x ∷ xs) = read_from-none xs

mem-read_from :
    (a low high : ℕ) (xs : List ℕ)
    → read_from (some low) xs ≡ some high
    → low ≤ a
    → a < high
    → mem a xs ≡ true
unfolding read_from
mem-read_from a low high [] h p q = ground arith
mem-read_from a low high (x ∷ xs) h p q =
    ground
      (arith, mem-read_from a low high xs, mem-read_from a (low + 1) high xs, read_from-none xs)

-- A gapless list holds every number below its `high`.
pub mem-IsGapless : (a high : ℕ) (xs : List ℕ) → IsGapless xs high → a < high → mem a xs ≡ true
mem-IsGapless a high xs h q = mem-read_from a 0 high xs h (omega arith) q
