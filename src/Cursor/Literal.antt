-- ===== src/Cursor/Literal.antt =====
-- `read_literal` of parse_cursor.h against `render_literal` of astring.h.
use bkmail.Prelude.{
  ℕ, ◌<◌, ◌^◌, true, false, [], ◌∷◌, ◌++◌, ◌≡◌, refl, ap, some, arith, Bytes, append_assoc, all,
  length, is_empty, take_while-append, drop_while-append, Stops, length-append, take-append_self,
  drop-append_self,
}
use bkmail.Astring.{
  is_digit, LiteralMode, synchronizing, non_synchronizing, plus_mark, render_literal,
}
use bkmail.Astring.Decimal.{to_chars, from_chars-to_chars, to_chars_decimal, to_chars_last}
use bkmail.Cursor.{literal_marker, take_octets, read_literal}

pub to_chars_digits : (n : ℕ) → all is_digit (to_chars n) ≡ true
unfolding is_digit
to_chars_digits n = to_chars_decimal n

pub to_chars_nonempty : (n : ℕ) → is_empty (to_chars n) ≡ false
to_chars_nonempty n = let (ds, d, e, _) = to_chars_last n in rw e (snoc_nonempty ds d)
  where
    snoc_nonempty : (ds : Bytes) (d : ℕ) → is_empty (ds ++ d ∷ []) ≡ false
    snoc_nonempty [] d = refl
    snoc_nonempty (x ∷ ds) d = refl

-- What stands behind the digits of a marker.
marker_tail : LiteralMode → Bytes → Bytes
marker_tail mode octets = plus_mark mode ++ (b'}' ∷ b'\r' ∷ b'\n' ∷ octets)

marker_tail-Stops : (mode : LiteralMode) (octets : Bytes) → Stops is_digit (marker_tail mode octets)
unfolding marker_tail is_digit
marker_tail-Stops synchronizing octets = refl
marker_tail-Stops non_synchronizing octets = refl

literal_marker_lem :
    (n : ℕ) (mode : LiteralMode) (octets : Bytes)
    → n < 2 ^ 64
    → literal_marker (b'{' ∷ (to_chars n ++ marker_tail mode octets)) ≡ some (n, octets)
unfolding literal_marker
literal_marker_lem n synchronizing octets h =
    let tail = marker_tail synchronizing octets in
    let stops = marker_tail-Stops synchronizing octets in
    rw
      (
        take_while-append is_digit (to_chars n) tail (to_chars_digits n) stops,
        drop_while-append is_digit (to_chars n) tail (to_chars_digits n) stops,
        to_chars_nonempty n,
        from_chars-to_chars n h,
      )
      (unfold marker_tail in refl)
literal_marker_lem n non_synchronizing octets h =
    let tail = marker_tail non_synchronizing octets in
    let stops = marker_tail-Stops non_synchronizing octets in
    rw
      (
        take_while-append is_digit (to_chars n) tail (to_chars_digits n) stops,
        drop_while-append is_digit (to_chars n) tail (to_chars_digits n) stops,
        to_chars_nonempty n,
        from_chars-to_chars n h,
      )
      (unfold marker_tail in refl)

render_literal-append :
    (v rest : Bytes) (mode : LiteralMode)
    → render_literal v mode ++ rest ≡ b'{' ∷ (to_chars (length v) ++ marker_tail mode (v ++ rest))
unfolding render_literal marker_tail
render_literal-append v rest mode = ap (◌∷◌ b'{') (simp append_assoc)

take_octets_lem : (cs v rest : Bytes) → take_octets cs (some (length v, v ++ rest)) ≡ (some v, rest)
unfolding take_octets
take_octets_lem cs v rest =
    ground (arith, length-append v rest, take-append_self v rest, drop-append_self v rest)

-- `read_literal` takes back any octets, CRLF and 8-bit among them, that `render_literal` appends in
-- either mode, whatever follows them, if their count fits in 64 bits.
pub read_literal-render_literal :
    (v rest : Bytes) (mode : LiteralMode)
    → length v < 2 ^ 64
    → read_literal (render_literal v mode ++ rest) ≡ (some v, rest)
unfolding read_literal
read_literal-render_literal v rest mode h =
    rw (render_literal-append v rest mode, literal_marker_lem (length v) mode (v ++ rest) h)
      (take_octets_lem _ v rest)
