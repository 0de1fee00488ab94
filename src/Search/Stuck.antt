-- ===== src/Search/Stuck.antt =====
-- On which answers the loop of SEARCH ends.
use bkmail.Prelude.{
  ℕ, zero, suc, ◌≤◌, ◌≡◌, refl, ◌∙◌, Bool, true, false, ◌||◌, List, [], ◌∷◌, none, some, Bytes,
  length, all, take_while, drop_while, arith,
}
use bkmail.Astring.{is_digit}
use bkmail.Cursor.Progress.{length-drop_while}
use bkmail.Search.{is_blank, push_number, scan}

-- What the loop can pass: blanks and digits.
abbrev pub is_listable : ℕ → Bool
is_listable c = is_blank c || is_digit c

blank_listable : (cs : Bytes) → all is_listable (drop_while is_blank cs) ≡ all is_listable cs
blank_listable [] = refl
blank_listable (c ∷ cs) = ground (arith, blank_listable cs)

digit_listable : (cs : Bytes) → all is_listable (drop_while is_digit cs) ≡ all is_listable cs
digit_listable [] = refl
digit_listable (c ∷ cs) = ground (arith, digit_listable cs)

rest_listable :
    (cs : Bytes)
    → all is_listable (drop_while is_digit (drop_while is_blank cs)) ≡ all is_listable cs
rest_listable cs = digit_listable (drop_while is_blank cs) ∙ blank_listable cs

-- The loop of SEARCH never leaves an answer with a character other than a digit, a space, CR or LF, whatever
-- the fuel: the position stops in front of it.
pub scan_stuck :
    (fuel : ℕ) (text : Bytes) (matches : List ℕ)
    → all is_listable text ≡ false
    → scan fuel text matches ≡ none
unfolding scan
scan_stuck zero [] matches h = cc
scan_stuck zero (c ∷ cs) matches h = refl
scan_stuck (suc fuel) [] matches h = cc
scan_stuck (suc fuel) (c ∷ cs) matches h =
    let start = drop_while is_blank (c ∷ cs) in
    scan_stuck fuel (drop_while is_digit start) (push_number (take_while is_digit start) matches)
      (rest_listable (c ∷ cs) ∙ h)

rest_shorter :
    (c : ℕ) (cs : Bytes)
    → is_listable c ≡ true
    → length (drop_while is_digit (drop_while is_blank (c ∷ cs))) ≤ length cs
rest_shorter c cs h = ground (
  arith,
  length-drop_while is_digit (drop_while is_blank cs),
  length-drop_while is_blank cs,
  length-drop_while is_digit cs,
)

-- The loop of SEARCH leaves an answer of digits, spaces, CR and LF after at most one round for each byte.
pub scan_total :
    (fuel : ℕ) (text : Bytes) (matches : List ℕ)
    → length text ≤ fuel
    → all is_listable text ≡ true
    → (found : List ℕ) × (scan fuel text matches ≡ some found)
unfolding scan
scan_total zero [] matches l h = (matches, refl)
scan_total zero (c ∷ cs) matches l h = absurd (omega arith)
scan_total (suc fuel) [] matches l h = (matches, refl)
scan_total (suc fuel) (c ∷ cs) matches l h =
    let start = drop_while is_blank (c ∷ cs) in
    scan_total fuel (drop_while is_digit start) (push_number (take_while is_digit start) matches)
      (omega (arith, rest_shorter c cs (ground arith))) (rest_listable (c ∷ cs) ∙ h)
