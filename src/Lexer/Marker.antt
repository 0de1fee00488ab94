-- ===== src/Lexer/Marker.antt =====
-- `literal_trailer` of response_lexer.h against the marker that `render_literal` of astring.h writes
-- and against the count that `read_literal` of parse_cursor.h reads.
use bkmail.Prelude.{
  ℕ, ◌+◌, ◌-◌, ◌*◌, ◌≤◌, ◌<◌, ◌^◌, Bool, true, ◌||◌, [], ◌∷◌, ◌++◌, ◌≡◌, refl, none, some, arith,
  Bytes, reverse, ltb, ◌==◌, if◌then◌else◌, all, append_assoc, reverse-append, reverse-reverse,
  reverse-cons, take_while-append, drop_while-append, length-append,
}
use bkmail.Astring.{is_digit, LiteralMode, synchronizing, non_synchronizing, plus_mark}
use bkmail.Astring.Decimal.{to_chars, from_chars, decimal, from_chars-to_chars, to_chars_last}
use bkmail.Cursor.Literal.{to_chars_digits}
use bkmail.Lexer.{
  literal_trailer, reversed_trailer, literal_value, trailer_digits, open_brace, skip_plus,
}

decimal_mono : (acc : ℕ) (ds : Bytes) → acc ≤ decimal acc ds
unfolding decimal
decimal_mono acc [] = omega arith
decimal_mono acc (d ∷ ds) = omega (arith, decimal_mono (acc * 10 + (d - b'0')) ds)

literal_value-decimal :
    (acc : ℕ) (ds : Bytes)
    → all is_digit ds ≡ true
    → acc < 2 ^ 64
    → literal_value acc ds ≡ (if ltb (decimal acc ds) (2 ^ 64) then some (decimal acc ds) else none)
unfolding literal_value decimal is_digit
literal_value-decimal acc [] h b = ground arith
literal_value-decimal acc (d ∷ ds) h b = ground (
  arith,
  literal_value-decimal (acc * 10 + (d - b'0')) ds,
  decimal_mono (acc * 10 + (d - b'0')) ds,
)

-- The lexer's guarded accumulation and `std::from_chars` agree on every run of digits: the same
-- value, and both refuse what does not fit in 64 bits.
pub literal_value-from_chars :
    (ds : Bytes) → all is_digit ds ≡ true → literal_value 0 ds ≡ from_chars ds
unfolding from_chars
literal_value-from_chars ds h = literal_value-decimal 0 ds h (omega arith)

-- The marker of a literal of `n` octets, without its CRLF.
abbrev pub marker : ℕ → LiteralMode → Bytes
marker n mode = b'{' ∷ (to_chars n ++ (plus_mark mode ++ b'}' ∷ []))

all-snoc :
    (p : ℕ → Bool) (xs : Bytes) (d : ℕ) → all p xs ≡ true → p d ≡ true → all p (xs ++ d ∷ []) ≡ true
all-snoc p [] d h k = ground arith
all-snoc p (x ∷ xs) d h k = ground (arith, all-snoc p xs d)

all-reverse : (p : ℕ → Bool) (xs : Bytes) → all p xs ≡ true → all p (reverse xs) ≡ true
all-reverse p [] h = refl
all-reverse p (x ∷ xs) h =
    rw (reverse-cons x xs)
      (all-snoc p (reverse xs) x (all-reverse p xs (ground arith)) (ground arith))

-- The marker's digits from the last one on.
reversed_digits :
    (n : ℕ) → (d : ℕ) × (ds : Bytes) × (reverse (to_chars n) ≡ d ∷ ds) × (is_digit d ≡ true)
unfolding is_digit
reversed_digits n =
    let (ds, d, e, h) = to_chars_last n in (d, reverse ds, rw (e, reverse-append ds (d ∷ [])), h)

marker_reversed :
    (before : Bytes) (c n : ℕ) (mode : LiteralMode)
    → reverse (before ++ c ∷ marker n mode)
      ≡ b'}' ∷ (plus_mark mode ++ (reverse (to_chars n) ++ (b'{' ∷ c ∷ reverse before)))
marker_reversed before c n synchronizing = simp (reverse-append, reverse-cons, append_assoc)
marker_reversed before c n non_synchronizing = simp (reverse-append, reverse-cons, append_assoc)

abbrev after_digits : ℕ → Bytes → ℕ → Bytes
after_digits c before n = reverse (to_chars n) ++ (b'{' ∷ c ∷ reverse before)

trailer_digits_marker :
    (before : Bytes) (c n : ℕ)
    → n < 2 ^ 64
    → trailer_digits (after_digits c before n) ≡ (if c == b' ' || c == b'~' then some n else none)
unfolding trailer_digits open_brace is_digit
trailer_digits_marker before c n h =
    let (d, ds, e, _) = reversed_digits n in
    let good = all-reverse is_digit (to_chars n) (to_chars_digits n) in
    rw (
      take_while-append is_digit (reverse (to_chars n)) (b'{' ∷ c ∷ reverse before) good refl,
      drop_while-append is_digit (reverse (to_chars n)) (b'{' ∷ c ∷ reverse before) good refl,
      reverse-reverse (to_chars n),
      literal_value-from_chars (to_chars n) (to_chars_digits n),
      from_chars-to_chars n h,
      e,
    )

skip_plus_marker :
    (before : Bytes) (c n : ℕ) (mode : LiteralMode)
    → skip_plus (plus_mark mode ++ after_digits c before n) ≡ after_digits c before n
unfolding is_digit
skip_plus_marker before c n non_synchronizing = refl
skip_plus_marker before c n synchronizing =
    let (d, ds, e, h) = reversed_digits n in rw e (ground arith)

-- A marker for fewer than 2^64 octets at the end of a line is a literal trailer exactly if the
-- character in front of it is a space or `~`.
pub literal_trailer-marker :
    (before : Bytes) (c n : ℕ) (mode : LiteralMode)
    → n < 2 ^ 64
    → literal_trailer (before ++ c ∷ marker n mode)
      ≡ (if c == b' ' || c == b'~' then some n else none)
unfolding literal_trailer reversed_trailer
literal_trailer-marker before c n mode h =
    rw
      (
        marker_reversed before c n mode,
        skip_plus_marker before c n mode,
        trailer_digits_marker before c n h,
      )
      (ground (
        arith,
        length-append before (c ∷ marker n mode),
        length-append (to_chars n) (plus_mark mode ++ b'}' ∷ []),
        length-append (plus_mark mode) (b'}' ∷ []),
      ))
