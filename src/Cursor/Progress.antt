-- ===== src/Cursor/Progress.antt =====
-- How far the readers of parse_cursor.h move the cursor.
use bkmail.Prelude.{
  ℕ, ◌≤◌, ◌<◌, ◌≡◌, refl, ap, Bool, false, [], ◌∷◌, Option, none, some, Bytes, length, is_empty,
  take_while, drop_while, length-drop, arith, if◌then◌else◌,
}
use bkmail.Astring.{is_digit, is_atom_char}
use bkmail.Astring.Decimal.{from_chars}
use bkmail.Cursor.{
  read_atom, scan_quoted, push_scanned, close_quoted, read_quoted, skip_mark, expect,
  literal_marker, take_octets, read_literal, read_string, read_astring,
}
use bkmail.Cursor.Monad.{◌>>=?◌}

pub length-drop_while : (p : ℕ → Bool) (cs : Bytes) → length (drop_while p cs) ≤ length cs
length-drop_while p [] = omega arith
length-drop_while p (c ∷ cs) = ground (arith, length-drop_while p cs)

-- A prefix that is not empty was taken.
pub drop_while_shorter :
    (p : ℕ → Bool) (cs : Bytes)
    → is_empty (take_while p cs) ≡ false
    → length (drop_while p cs) < length cs
drop_while_shorter p [] h = cc
drop_while_shorter p (c ∷ cs) h = ground (arith, length-drop_while p cs, h)

length-skip_mark : (m : ℕ) (cs : Bytes) → length (skip_mark m cs) ≤ length cs
length-skip_mark m [] = omega arith
length-skip_mark m (c ∷ cs) = ground arith

expect_shorter :
    (m : ℕ) (cs : Bytes) {rest : Bytes} → expect m cs ≡ some rest → length rest < length cs
expect_shorter m [] e = cc
expect_shorter m (c ∷ cs) e = ground (arith, e)

-- The end of a marker, behind its digits and its `+`.
abbrev marker_end : Bytes → ℕ → Option (ℕ × Bytes)
marker_end cs count = expect b'}' cs >>=? λ marked.
    expect b'\r' marked >>=? λ cr. expect b'\n' cr >>=? λ octets. some (count, octets)

marker_end_shorter :
    (cs : Bytes) (m : Option ℕ) {n : ℕ} {octets : Bytes}
    → (m >>=? marker_end cs) ≡ some (n, octets)
    → length octets < length cs
marker_end_shorter cs none e = cc
marker_end_shorter [] (some count) e = cc
marker_end_shorter (a ∷ []) (some count) e = ground (arith, e)
marker_end_shorter (a ∷ b ∷ []) (some count) e = ground (arith, e)
marker_end_shorter (a ∷ b ∷ c ∷ cs) (some count) e = ground (arith, e)

abbrev count_of : Bytes → Option ℕ
count_of inner =
    let digits = take_while is_digit inner in if is_empty digits then none else from_chars digits

marker_inner_shorter :
    (cs : Bytes) (o : Option Bytes) {n : ℕ} {octets : Bytes}
    → expect b'{' (skip_mark b'~' cs) ≡ o
    → (o >>=? λ inner. count_of inner >>=? marker_end (skip_mark b'+' (drop_while is_digit inner)))
      ≡ some (n, octets)
    → length octets < length cs
marker_inner_shorter cs none h e = cc
marker_inner_shorter cs (some inner) h e = omega (
  arith,
  length-skip_mark b'~' cs,
  expect_shorter b'{' (skip_mark b'~' cs) h,
  length-drop_while is_digit inner,
  length-skip_mark b'+' (drop_while is_digit inner),
  marker_end_shorter (skip_mark b'+' (drop_while is_digit inner)) (count_of inner) e,
)

pub literal_marker_shorter :
    (cs : Bytes) {n : ℕ} {octets : Bytes}
    → literal_marker cs ≡ some (n, octets)
    → length octets < length cs
unfolding literal_marker
literal_marker_shorter cs e = marker_inner_shorter cs (expect b'{' (skip_mark b'~' cs)) refl e

take_octets_shorter :
    (cs : Bytes) (m : Option (ℕ × Bytes)) {v rest : Bytes}
    → literal_marker cs ≡ m
    → take_octets cs m ≡ (some v, rest)
    → length rest < length cs
unfolding take_octets
take_octets_shorter cs none h e = cc
take_octets_shorter cs (some (count, octets)) h e =
    ground (arith, literal_marker_shorter cs h, length-drop count octets, e)

pub read_literal_shorter :
    (cs : Bytes) {v rest : Bytes} → read_literal cs ≡ (some v, rest) → length rest < length cs
unfolding read_literal
read_literal_shorter cs e = take_octets_shorter cs (literal_marker cs) refl e

push_scanned_length : (front : Bytes) (r : Option Bytes × Bytes) → (push_scanned front r).1 ≡ r.1
push_scanned_length front (none, rest) = refl
push_scanned_length front (some body, rest) = refl

length-scan_quoted : (cs : Bytes) → length (scan_quoted cs).1 ≤ length cs
unfolding scan_quoted
length-scan_quoted [] = omega arith
length-scan_quoted (c ∷ []) = ground arith
length-scan_quoted (c ∷ d ∷ cs) = ground (
  arith,
  length-scan_quoted cs,
  length-scan_quoted (d ∷ cs),
  ap length (push_scanned_length (c ∷ d ∷ []) (scan_quoted cs)),
  ap length (push_scanned_length (c ∷ []) (scan_quoted (d ∷ cs))),
)

length-close_quoted : (r : Option Bytes × Bytes) → length (close_quoted r).1 ≤ length r.1
unfolding close_quoted
length-close_quoted (none, rest) = omega arith
length-close_quoted (some body, rest) = omega (arith, length-drop 1 rest)

pub read_quoted_shorter :
    (cs : Bytes) {v rest : Bytes} → read_quoted cs ≡ (some v, rest) → length rest < length cs
unfolding read_quoted
read_quoted_shorter [] e = cc
read_quoted_shorter (c ∷ cs) e = ground (
  arith,
  ap length (ap (λ r. r.1) e),
  length-close_quoted (scan_quoted cs),
  length-scan_quoted cs,
)

read_string_shorter :
    (cs : Bytes) {v rest : Bytes} → read_string cs ≡ (some v, rest) → length rest < length cs
unfolding read_string
read_string_shorter cs {v} {rest} e = ground (
  arith,
  e,
  read_quoted_shorter cs {v = v} {rest = rest},
  read_literal_shorter cs {v = v} {rest = rest},
)

-- An astring that is read, as an atom, a quoted string or a literal, takes at least one byte.
pub read_astring_shorter :
    (cs : Bytes) {v rest : Bytes} → read_astring cs ≡ (some v, rest) → length rest < length cs
unfolding read_astring read_atom
read_astring_shorter cs {v} {rest} e =
    ground
      (arith, e, read_string_shorter cs {v = v} {rest = rest}, drop_while_shorter is_atom_char cs)
