-- ===== src/Logging/Texts.antt =====
-- The operations on texts and the patterns that config/logging_config.py uses.
use Prim.Native.Char.{Char, code}
use transcribe_service.Prelude.{
  ℕ, zero, suc, ◌+◌, String, Bool, true, false, not, ◌&&◌, ◌||◌, Option, none, some, List, [], ◌∷◌,
  ◌==◌, eqb, leb, if◌then◌else◌,
}
use transcribe_service.Prelude.Text.{count, starts_with, append}
use transcribe_service.Auth.Whitespace.{is_space}

abbrev is_colon : Char → Bool
is_colon c = eqb (code c) 58

abbrev keep_colon : Char → String → String
keep_colon c String.[] = if is_colon c then "" else String.◌∷◌ c ""
keep_colon c (String.◌∷◌ d s) = String.◌∷◌ c (String.◌∷◌ d s)

-- `s.rstrip(":")`
unfoldable pub rstrip_colon : String → String
rstrip_colon String.[] = ""
rstrip_colon (String.◌∷◌ c s) = keep_colon c (rstrip_colon s)

abbrev is_lower : ℕ → Bool
is_lower n = leb 97 n && leb n 122

-- A letter of a pattern under `re.IGNORECASE`, in lower case: `s` also stands for the long s, and `k`
-- for the Kelvin sign. Another character stands for itself.
abbrev pub same_letter : ℕ → Char → Bool
same_letter lower c =
    eqb (code c) lower
    || (is_lower lower && eqb (code c + 32) lower)
    || (eqb lower 115 && eqb (code c) 383)
    || (eqb lower 107 && eqb (code c) 8490)

abbrev pub prepend : Char → Option (String × String) → Option (String × String)
prepend c none = none
prepend c (some (matched, rest)) = some (String.◌∷◌ c matched, rest)

-- What the letters match at the head of a text, and the rest of it.
unfoldable pub match_letters : List ℕ → String → Option (String × String)
match_letters [] s = some ("", s)
match_letters (l ∷ ls) String.[] = none
match_letters (l ∷ ls) (String.◌∷◌ c s) =
    if same_letter l c then prepend c (match_letters ls s) else none

-- The longest run of characters that pass a test.
unfoldable pub span : (Char → Bool) → String → String × String
span test String.[] = ("", "")
span test (String.◌∷◌ c s) =
    let (run, rest) = span test s in
    if test c then (String.◌∷◌ c run, rest) else ("", String.◌∷◌ c s)

abbrev in_url : Char → Bool
in_url c = not (is_space c || eqb (code c) 93)

-- `redis` and `rediss`, then `://`
abbrev schemes : List (List ℕ)
schemes =
    (114 ∷ 101 ∷ 100 ∷ 105 ∷ 115 ∷ 58 ∷ 47 ∷ 47 ∷ [])
    ∷ (114 ∷ 101 ∷ 100 ∷ 105 ∷ 115 ∷ 115 ∷ 58 ∷ 47 ∷ 47 ∷ [])
    ∷ []

abbrev with_run : String × String → Option (String × String)
with_run (scheme, s) =
    let (run, rest) = span in_url s in if run == "" then none else some (append scheme run, rest)

abbrev url_after : List (List ℕ) → String → Option (String × String)
url_after [] s = none
url_after (letters ∷ others) s = elim (match_letters letters s) [
  | some m ↦ with_run m
  | none ↦ url_after others s
]

-- `_REDIS_URL_IN_TEXT.sub(repl, s)`: a match takes at least one character, so the length of the text is
-- rounds enough.
unfoldable pub sub_urls : (String → String) → ℕ → String → String
unfolding match_letters span
sub_urls repl zero s = s
sub_urls repl (suc n) String.[] = ""
sub_urls repl (suc n) (String.◌∷◌ c s) = elim (url_after schemes (String.◌∷◌ c s)) [
  | some (url, rest) ↦ append (repl url) (sub_urls repl n rest)
  | none ↦ String.◌∷◌ c (sub_urls repl n s)
]

abbrev pub drop : ℕ → String → String
drop zero s = s
drop (suc n) String.[] = ""
drop (suc n) (String.◌∷◌ c s) = drop n s

-- `s.replace(old, "***")`, for an `old` that is not empty
unfoldable pub replace : String → ℕ → String → String
unfolding starts_with
replace old zero s = s
replace old (suc n) String.[] = ""
replace old (suc n) (String.◌∷◌ c s) = elim (starts_with (String.◌∷◌ c s) old) [
  | true ↦ append "***" (replace old n (drop (count old) (String.◌∷◌ c s)))
  | false ↦ String.◌∷◌ c (replace old n s)
]

-- `s.endswith(p)`
unfoldable pub ends_with : String → String → Bool
ends_with p String.[] = p == ""
ends_with p (String.◌∷◌ c s) = (String.◌∷◌ c s == p) || ends_with p s
