-- ===== src/Context/Submit/Tag.antt =====
-- The tags that `allocate_tag` makes.
use bkmail.Prelude.{
  ℕ, zero, suc, ◌-◌, ◌≡◌, refl, sym, ap, ◌∙◌, true, false, [], ◌∷◌, ◌++◌, none, some, Bytes, all,
  drop, length, ◌==◌, arith,
}
use bkmail.Astring.{
  is_atom_char, is_atom_special, is_char, is_ctl, is_list_wildcard, is_quoted_special,
  is_resp_special, is_digit,
}
use bkmail.Astring.Decimal.{to_chars, decimal, decimal-to_chars}
use bkmail.Cursor.{peek}
use bkmail.Cursor.Literal.{to_chars_digits}
use bkmail.Parser.{parse, classify_status, is_tagged_status}
use bkmail.Parser.Tagged.{status_line, parse-status_line}
use bkmail.Response.{ResponseStatus, tagged}
use bkmail.Context.Submit.{tag_of, zeros}

decimal-zeros : (n : ℕ) (ds : Bytes) → decimal 0 (zeros n ++ ds) ≡ decimal 0 ds
unfolding decimal
decimal-zeros zero ds = refl
decimal-zeros (suc n) ds = decimal-zeros n ds

-- The counter is read back from the digits of the tag.
decimal-tag_of : (n : ℕ) → decimal 0 (drop 1 (tag_of n)) ≡ n
unfolding tag_of
decimal-tag_of n = decimal-zeros (4 - length (to_chars n)) (to_chars n) ∙ decimal-to_chars n

digit_is_atom : (c : ℕ) → is_digit c ≡ true → is_atom_char c ≡ true
unfolding is_digit is_atom_char is_atom_special is_char is_ctl is_list_wildcard is_quoted_special
    is_resp_special
digit_is_atom c h = ground (arith, h)

digits_are_atoms : (ds : Bytes) → all is_digit ds ≡ true → all is_atom_char ds ≡ true
digits_are_atoms [] h = refl
digits_are_atoms (d ∷ ds) h = ground (arith, h, digit_is_atom d, digits_are_atoms ds)

zeros_are_digits :
    (n : ℕ) (ds : Bytes) → all is_digit ds ≡ true → all is_digit (zeros n ++ ds) ≡ true
unfolding is_digit
zeros_are_digits zero ds h = h
zeros_are_digits (suc n) ds h = zeros_are_digits n ds h

tag_digits : (n : ℕ) → all is_atom_char (tag_of n) ≡ true
unfolding tag_of is_atom_char is_atom_special
tag_digits n =
    digits_are_atoms (zeros (4 - length (to_chars n)) ++ to_chars n)
      (zeros_are_digits (4 - length (to_chars n)) (to_chars n) (to_chars_digits n))

-- Two counters never make the same tag.
pub tag_of_injective : (m n : ℕ) → tag_of m ≡ tag_of n → m ≡ n
tag_of_injective m n e =
    sym (decimal-tag_of m) ∙ ap (λ t. decimal 0 (drop 1 t)) e ∙ decimal-tag_of n

-- The reply that a server makes of an allocated tag, one of the words OK, NO and BAD in any case, and
-- a text without a bracket, is parsed to that tag, that status and that text.
pub parse-tag_of :
    (n : ℕ) (word text : Bytes) (status : ResponseStatus)
    → all is_atom_char word ≡ true
    → classify_status word ≡ some status
    → is_tagged_status status ≡ true
    → (peek text == b'[') ≡ false
    → parse (status_line (tag_of n) word (b' ' ∷ text))
      ≡ some (tagged (record { tag = tag_of n; status = status; code = none; text = text }))
unfolding tag_of
parse-tag_of n word text status w k t b =
    parse-status_line b'a' (zeros (4 - length (to_chars n)) ++ to_chars n) word text status
      (tag_digits n) refl w k b
    ∙ (rw t refl)
