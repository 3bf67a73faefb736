-- ===== src/Logging/Replacing.antt =====
-- A secret that is replaced in a text is gone.
use Prim.Native.Char.{Char, code}
use transcribe_service.Prelude.{
  ℕ, zero, suc, ◌≤◌, String, ◌≡◌, ◌≢◌, refl, sym, ap, subst, ◌∙◌, Bool, true, false, not, ◌&&◌,
  ◌||◌, some, ◌==◌, eqb, Bool-cases, inl, inr, false≢true, eq_iff, none, arith,
}
use transcribe_service.Prelude.Text.{append, count, contains, starts_with, same_char}
use transcribe_service.Logging.{Tools, redact_text_for_logs}
use transcribe_service.Logging.Texts.{replace, drop}

-- The text has no asterisk, of which the mask is made.
abbrev pub unstarred : String → Bool
unstarred String.[] = true
unstarred (String.◌∷◌ c s) = not (eqb (code c) 42) && unstarred s

and_true : (a b : Bool) → (a && b) ≡ true → (a ≡ true) × (b ≡ true)
and_true true b h = (refl, h)
and_true false b h = absurd (ground arith)

-- A text that starts with an asterisk does not start with such a text.
starts_with-star :
    (s : String) (d : Char) (q : String)
    → unstarred (String.◌∷◌ d q) ≡ true
    → starts_with (append "*" s) (String.◌∷◌ d q) ≡ false
unfolding starts_with
starts_with-star s d q plain = ground arith

replace-matched :
    (old : String) (n : ℕ) (c : Char) (s : String)
    → starts_with (String.◌∷◌ c s) old ≡ true
    → replace old (suc n) (String.◌∷◌ c s)
      ≡ append "***" (replace old n (drop (count old) (String.◌∷◌ c s)))
unfolding replace
replace-matched old n c s e = rw (e, replace) refl

replace-unmatched :
    (old : String) (n : ℕ) (c : Char) (s : String)
    → starts_with (String.◌∷◌ c s) old ≡ false
    → replace old (suc n) (String.◌∷◌ c s) ≡ String.◌∷◌ c (replace old n s)
unfolding replace
replace-unmatched old n c s e = rw (e, replace) refl

-- What a replaced text starts with, the text starts with.
starts_with-replace :
    (old : String) (n : ℕ) (s q : String)
    → unstarred q ≡ true
    → starts_with (replace old n s) q ≡ true
    → starts_with s q ≡ true
unfolding starts_with replace
starts_with-replace old n s String.[] plain = λ h. refl
starts_with-replace old zero s (String.◌∷◌ d q) plain = λ h. h
starts_with-replace old (suc n) String.[] (String.◌∷◌ d q) plain = λ h. h
starts_with-replace old (suc n) (String.◌∷◌ c s) (String.◌∷◌ d q) plain =
    elim (Bool-cases (starts_with (String.◌∷◌ c s) old)) [
      | inl e ↦ λ h. absurd (
          false≢true (
            sym (
              starts_with-star (append "**" (replace old n (drop (count old) (String.◌∷◌ c s)))) d q
                plain)
            ∙ subst (λ x. starts_with x (String.◌∷◌ d q) ≡ true) (replace-matched old n c s e) h))
      | inr e ↦ λ h.
          let both = and_true (same_char c d) (starts_with (replace old n s) q) (
            subst (λ x. starts_with x (String.◌∷◌ d q) ≡ true) (replace-unmatched old n c s e) h) in
          rw (both.0) (
            starts_with-replace old n s q (and_true (not (eqb (code d) 42)) (unstarred q) plain).1
              both.1)
    ]

count-drop : (n : ℕ) (s : String) → count (drop n s) ≤ count s
count-drop zero s = omega arith
count-drop (suc n) String.[] = omega arith
count-drop (suc n) (String.◌∷◌ c s) = omega (arith, count-drop n s)

-- A text that is masked at its head has the secret no more than the rest of it has.
contains-masked :
    (d : Char) (o s : String)
    → unstarred (String.◌∷◌ d o) ≡ true
    → contains (String.◌∷◌ d o) (append "***" s) ≡ contains (String.◌∷◌ d o) s
unfolding contains
contains-masked d o s plain =
    rw
      (
        starts_with-star (append "**" s) d o plain,
        starts_with-star (append "*" s) d o plain,
        starts_with-star s d o plain,
      )
      refl

unfound : (a b : Bool) → a ≢ true → b ≡ false → (a || b) ≡ false
unfound true b h h' = absurd (h refl)
unfound false b h h' = h'

-- Once it is replaced in as many rounds as the text has characters, the text does not contain it.
replace-contains :
    (d : Char) (o : String) (n : ℕ) (s : String)
    → unstarred (String.◌∷◌ d o) ≡ true
    → count s ≤ n
    → contains (String.◌∷◌ d o) (replace (String.◌∷◌ d o) n s) ≡ false
unfolding contains starts_with replace
replace-contains d o zero String.[] plain enough = refl
replace-contains d o zero (String.◌∷◌ c s) plain enough = absurd (omega (arith, enough))
replace-contains d o (suc n) String.[] plain enough = refl
replace-contains d o (suc n) (String.◌∷◌ c s) plain enough =
    let old = String.◌∷◌ d o in
    let rest = drop (count o) s in
    let text = String.◌∷◌ c s in
    elim (Bool-cases (starts_with text old)) [
      | inl e ↦
          ap (contains old) (replace-matched old n c s e)
          ∙ contains-masked d o (replace old n rest) plain
          ∙ replace-contains d o n rest plain (omega (arith, count-drop (count o) s, enough))
      | inr e ↦
          ap (contains old) (replace-unmatched old n c s e)
          ∙ unfound (starts_with (String.◌∷◌ c (replace old n s)) old)
              (contains old (replace old n s))
              (λ h. false≢true (
                sym e
                ∙ starts_with-replace old (suc n) text old plain
                    (ap (λ x. starts_with x old) (replace-unmatched old n c s e) ∙ h)))
              (replace-contains d o n s plain (omega (arith, enough)))
    ]

not_empty : (d : Char) (o : String) → (String.◌∷◌ d o == "") ≡ false
not_empty d o = elim (Bool-cases (String.◌∷◌ d o == "")) [
  | inl e ↦ let same = (eq_iff (String.◌∷◌ d o) "").0 e in cc
  | inr e ↦ e
]

-- A redacted text does not contain the secret, unless the secret is empty or has an asterisk.
pub redact_text_for_logs-contains :
    (t : Tools) (secret s : String)
    → secret ≢ ""
    → unstarred secret ≡ true
    → contains secret (redact_text_for_logs t (some secret) s) ≡ false
unfolding redact_text_for_logs
redact_text_for_logs-contains t String.[] s given plain = absurd (given refl)
redact_text_for_logs-contains t (String.◌∷◌ d o) s given plain =
    let secret = String.◌∷◌ d o in
    let out = redact_text_for_logs t none s in
    elim (Bool-cases (contains secret out)) [
      | inl e ↦ rw (e, not_empty d o) (replace-contains d o (count out) out plain (omega arith))
      | inr e ↦ rw (e, not_empty d o) e
    ]
