-- ===== src/Parser/Untagged.antt =====
-- Untagged responses: the numbered ones and those whose keyword is not known.
use bkmail.Prelude.{
  ℕ, ◌≡◌, refl, Bool, true, false, [], ◌∷◌, ◌++◌, none, some, ◌<◌, ◌^◌, Bytes, codes, is_empty, all,
  Stops, take_while-append, drop_while-append, take_while, drop_while, arith,
}
use bkmail.Astring.{is_atom_char, is_atom_special, is_digit}
use bkmail.Astring.Decimal.{to_chars, from_chars-to_chars}
use bkmail.Cursor.{peek, read_atom, read_number}
use bkmail.Cursor.Literal.{to_chars_digits, to_chars_nonempty}
use bkmail.Response.{untagged, UntaggedKind}
use bkmail.Parser.{
  parse, parse_untagged, classify_status, untagged_body, numbered_response, numbered,
  keyword_response, data_response, data_kind, blank,
}

-- `* `, a keyword of atom characters, and the rest of the line.
abbrev pub untagged_line : Bytes → Bytes → Bytes
untagged_line word rest = b'*' ∷ b' ' ∷ (word ++ rest)

-- A keyword that is neither a status nor one of the data kinds never fails the parse: the response
-- has the kind `unknown`, and its payload is the line from the keyword on, whatever follows it. The
-- keyword is made of atom characters and does not start with a digit.
pub parse-untagged_line :
    (c : ℕ) (cs rest : Bytes)
    → all is_atom_char (c ∷ cs) ≡ true
    → is_digit c ≡ false
    → Stops is_atom_char rest
    → classify_status (c ∷ cs) ≡ none
    → data_kind (c ∷ cs) ≡ none
    → parse (untagged_line (c ∷ cs) rest)
      ≡ some (untagged (record (blank UntaggedKind.unknown) { payload = c ∷ cs ++ rest }))
unfolding parse parse_untagged untagged_body keyword_response data_response read_atom
parse-untagged_line c cs rest h d s e k =
    rw
      (
        d,
        take_while-append is_atom_char (c ∷ cs) rest h s,
        drop_while-append is_atom_char (c ∷ cs) rest h s,
        e,
        k,
      )
      refl

-- The number in decimal and a keyword.
abbrev pub numbered_line : ℕ → Bytes → Bytes
numbered_line n word = b'*' ∷ b' ' ∷ (to_chars n ++ b' ' ∷ word)

digit_first :
    (ds rest : Bytes)
    → all is_digit ds ≡ true
    → is_empty ds ≡ false
    → is_digit (peek (ds ++ rest)) ≡ true
digit_first [] rest h e = cc
digit_first (d ∷ ds) rest h e = ground (arith, h)

take_while-all : (p : ℕ → Bool) (cs : Bytes) → all p cs ≡ true → take_while p cs ≡ cs
take_while-all p [] h = refl
take_while-all p (c ∷ cs) h = ground (arith, take_while-all p cs)

drop_while-all : (p : ℕ → Bool) (cs : Bytes) → all p cs ≡ true → drop_while p cs ≡ []
drop_while-all p [] h = refl
drop_while-all p (c ∷ cs) h = ground (arith, drop_while-all p cs)

numbered_word :
    (n : ℕ) (word : Bytes)
    → n < 2 ^ 64
    → all is_atom_char word ≡ true
    → parse (numbered_line n word)
      ≡ some (untagged (numbered n (to_chars n ++ b' ' ∷ word) word []))
unfolding parse parse_untagged untagged_body numbered_response read_number read_atom is_digit
numbered_word n word h w =
    rw
      (
        digit_first (to_chars n) (b' ' ∷ word) (to_chars_digits n) (to_chars_nonempty n),
        take_while-append is_digit (to_chars n) (b' ' ∷ word) (to_chars_digits n) refl,
        drop_while-append is_digit (to_chars n) (b' ' ∷ word) (to_chars_digits n) refl,
        to_chars_nonempty n,
        from_chars-to_chars n h,
        take_while-all is_atom_char word w,
        drop_while-all is_atom_char word w,
      )
      refl

-- `EXISTS`, `RECENT` and `EXPUNGE` carry their number, for every number of 64 bits, and a number
-- before another keyword is kept whole in the payload.
pub parse-numbered_line :
    (n : ℕ)
    → n < 2 ^ 64
    → (parse (numbered_line n (codes "EXISTS"))
        ≡ some (untagged (record (blank UntaggedKind.exists) { number = n })))
      × (parse (numbered_line n (codes "RECENT"))
          ≡ some (untagged (record (blank UntaggedKind.recent) { number = n })))
      × (parse (numbered_line n (codes "EXPUNGE"))
          ≡ some (untagged (record (blank UntaggedKind.expunge) { number = n })))
      × (parse (numbered_line n (codes "X"))
          ≡ some (
              untagged (record (blank UntaggedKind.unknown) {
                number = n;
                payload = to_chars n ++ b' ' ∷ codes "X";
              })))
unfolding numbered is_atom_char is_atom_special
parse-numbered_line n h = (
  numbered_word n (codes "EXISTS") h refl,
  numbered_word n (codes "RECENT") h refl,
  numbered_word n (codes "EXPUNGE") h refl,
  numbered_word n (codes "X") h refl,
)
