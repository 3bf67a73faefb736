-- ===== src/Settings/Prefix.antt =====
-- `normalize_url_path_prefix_str` of config/settings.py. A text is walked by characters.
pub mod Shape
use Prim.Native.Char.{Char, code}
use Prim.Native.String
use transcribe_service.Prelude.{
  ℕ, zero, suc, String, Bool, true, false, ◌&&◌, ◌||◌, ◌==◌, eqb, if◌then◌else◌,
}
use transcribe_service.Prelude.Exec.{Result, ok, err, value_error}
use transcribe_service.Prelude.Text.{count, contains, append}
use transcribe_service.Auth.Whitespace.{strip}

abbrev pub is_slash : Char → Bool
is_slash c = eqb (code c) 47

-- `s.startswith("/")`
abbrev pub head_slash : String → Bool
head_slash String.[] = false
head_slash (String.◌∷◌ c s) = is_slash c

-- `"//" in s`
unfoldable pub has_double : String → Bool
has_double String.[] = false
has_double (String.◌∷◌ c s) = (is_slash c && head_slash s) || has_double s

-- `s.replace("//", "/")`
unfoldable pub replace_double : String → String
replace_double String.[] = ""
replace_double (String.◌∷◌ c String.[]) = String.◌∷◌ c ""
replace_double (String.◌∷◌ c (String.◌∷◌ d s)) =
    let taken = replace_double s in
    let kept = replace_double (String.◌∷◌ d s) in
    if is_slash c && is_slash d then String.◌∷◌ c taken else String.◌∷◌ c kept

-- `while "//" in s: s = s.replace("//", "/")`, for so many rounds
unfoldable pub collapse : ℕ → String → String
unfolding has_double replace_double
collapse zero s = s
collapse (suc n) s = let rest = collapse n (replace_double s) in if has_double s then rest else s

abbrev pub keep : Char → String → String
keep c String.[] = if is_slash c then "" else String.◌∷◌ c ""
keep c (String.◌∷◌ d s) = String.◌∷◌ c (String.◌∷◌ d s)

-- `s.rstrip("/")`
unfoldable pub rstrip_slash : String → String
rstrip_slash String.[] = ""
rstrip_slash (String.◌∷◌ c s) = keep c (rstrip_slash s)

abbrev pub with_slash : String → String
with_slash s = if head_slash s then s else append "/" s

abbrev pub rooted : String → String
rooted s = rstrip_slash (collapse (count (with_slash s)) (with_slash s))

-- Each round of the loop shortens the text, so its length is rounds enough.
unfoldable pub normalize_url_path_prefix_str : String → Result String
unfolding strip contains collapse rstrip_slash
normalize_url_path_prefix_str raw =
    let s = strip raw in
    if s == ""
    then ok ""
    else if contains "\n" s || contains "\r" s || contains ".." s
    then err (value_error "URL_PATH_PREFIX must not contain '..' or newline characters")
    else ok (rooted s)
