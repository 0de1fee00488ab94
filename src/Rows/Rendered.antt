-- ===== src/Rows/Rendered.antt =====
-- The tokens of a row against the renderers of include/bkmail/imap/detail/astring.h.
use bkmail.Prelude.{
  ℕ, ◌<◌, ◌^◌, ◌≡◌, refl, true, false, [], ◌∷◌, ◌++◌, some, inl, inr, Bool-cases, Bytes, length,
  all, take_while, take_while-append, drop_while-append, take-append_self, drop-append_self, arith,
}
use bkmail.Astring.{is_quoted_special, quoted_body, is_digit}
use bkmail.Astring.Decimal.{to_chars, from_chars-to_chars, to_chars_decimal, is_decimal}
use bkmail.Cursor.Literal.{to_chars_digits, to_chars_nonempty}
use bkmail.Rows.{quoted_token, literal_token, is_open_count, count_of}

quoted_plain :
    (c : ℕ) (v rest : Bytes)
    → is_quoted_special c ≡ false
    → quoted_token (c ∷ (quoted_body v ++ rest))
      ≡ (c ∷ (quoted_token (quoted_body v ++ rest)).0, (quoted_token (quoted_body v ++ rest)).1)
unfolding quoted_token is_quoted_special quoted_body
quoted_plain c [] rest h = ground arith
quoted_plain c (d ∷ v) rest h = ground arith

quoted_close : (rest : Bytes) → quoted_token (b'"' ∷ rest) ≡ ([], rest)
unfolding quoted_token
quoted_close [] = refl
quoted_close (c ∷ rest) = refl

quoted_escape :
    (c : ℕ) (text : Bytes)
    → quoted_token (b'\\' ∷ c ∷ text) ≡ (c ∷ (quoted_token text).0, (quoted_token text).1)
unfolding quoted_token
quoted_escape c text = refl

-- Any bytes at all come back from between the quotes.
pub quoted_token-quoted_body : (v rest : Bytes) → quoted_token (quoted_body v ++ rest) ≡ (v, rest)
unfolding quoted_body
quoted_token-quoted_body [] rest = quoted_close rest
quoted_token-quoted_body (c ∷ v) rest = elim (Bool-cases (is_quoted_special c)) [
  | inl special ↦
      rw special
        (rw (quoted_escape c (quoted_body v ++ rest), quoted_token-quoted_body v rest) refl)
  | inr plain ↦ rw plain (rw (quoted_plain c v rest plain, quoted_token-quoted_body v rest) refl)
]

decimal_open : (ds : Bytes) → all is_decimal ds ≡ true → all is_open_count ds ≡ true
decimal_open [] h = refl
decimal_open (d ∷ ds) h = ground (arith, decimal_open ds)

pub digits_whole : (ds : Bytes) → all is_digit ds ≡ true → take_while is_digit ds ≡ ds
digits_whole [] h = refl
digits_whole (d ∷ ds) h = ground (arith, digits_whole ds)

pub count_of-to_chars : (n : ℕ) → n < 2 ^ 64 → count_of (to_chars n) ≡ some n
count_of-to_chars n h =
    rw (digits_whole (to_chars n) (to_chars_digits n), to_chars_nonempty n, from_chars-to_chars n h)
      refl

-- Any bytes come back from a literal, if their number fits into 64 bits.
pub literal_token-render_literal :
    (v rest : Bytes)
    → length v < 2 ^ 64
    → literal_token (to_chars (length v) ++ b'}' ∷ b'\r' ∷ b'\n' ∷ (v ++ rest)) ≡ (v, rest)
unfolding literal_token
literal_token-render_literal v rest h =
    let open_digits = decimal_open (to_chars (length v)) (to_chars_decimal (length v)) in
    let tail : Bytes = b'}' ∷ b'\r' ∷ b'\n' ∷ (v ++ rest) in
    rw
      (
        take_while-append is_open_count (to_chars (length v)) tail open_digits refl,
        drop_while-append is_open_count (to_chars (length v)) tail open_digits refl,
        count_of-to_chars (length v) h,
        take-append_self v rest,
        drop-append_self v rest,
      )
      refl
