-- ===== src/Astring.antt =====
-- include/bkmail/imap/detail/astring.h: the character classes of RFC 3501 §9 and the rendering of
-- astrings. A `char` is its unsigned value; for every class the sign of a byte above 127 changes
-- no answer. `Decimal` holds the two standard conversions that the rendering and the parsers call.
pub mod Decimal
use bkmail.Prelude.{
  ℕ, ◌+◌, ◌-◌, Bool, true, false, ◌&&◌, ◌||◌, not, List, [], ◌∷◌, ◌++◌, leb, ◌==◌, if◌then◌else◌,
  Bytes, codes, length, all,
}
use Decimal.{to_chars}

-- CHAR: any 7-bit character except NUL.
unfoldable pub is_char : ℕ → Bool
is_char c = leb 0x01 c && leb c 0x7f

unfoldable pub is_ctl : ℕ → Bool
is_ctl c = leb c 0x1f || c == 0x7f

unfoldable pub is_list_wildcard : ℕ → Bool
is_list_wildcard c = c == b'%' || c == b'*'

unfoldable pub is_quoted_special : ℕ → Bool
is_quoted_special c = c == b'"' || c == b'\\'

unfoldable pub is_resp_special : ℕ → Bool
is_resp_special c = c == b']'

unfoldable pub is_atom_special : ℕ → Bool
unfolding is_ctl is_list_wildcard is_quoted_special is_resp_special
is_atom_special c =
    c == b'('
    || c == b')'
    || c == b'{'
    || c == b' '
    || is_ctl c
    || is_list_wildcard c
    || is_quoted_special c
    || is_resp_special c

unfoldable pub is_atom_char : ℕ → Bool
unfolding is_char is_atom_special
is_atom_char c = is_char c && not (is_atom_special c)

unfoldable pub is_astring_char : ℕ → Bool
unfolding is_atom_char is_resp_special
is_astring_char c = is_atom_char c || is_resp_special c

unfoldable pub is_tag_char : ℕ → Bool
unfolding is_astring_char
is_tag_char c = is_astring_char c && not (c == b'+')

-- TEXT-CHAR: any CHAR except CR and LF.
unfoldable pub is_text_char : ℕ → Bool
unfolding is_char
is_text_char c = is_char c && not (c == b'\r') && not (c == b'\n')

unfoldable pub is_digit : ℕ → Bool
is_digit c = leb b'0' c && leb c b'9'

unfoldable pub ascii_to_upper : ℕ → ℕ
ascii_to_upper c = if leb b'a' c && leb c b'z' then (c - b'a') + b'A' else c

-- The size test and the loop in one recursion.
unfoldable pub ascii_iequals : Bytes → Bytes → Bool
unfolding ascii_to_upper
ascii_iequals [] [] = true
ascii_iequals (x ∷ a) (y ∷ b) = ascii_to_upper x == ascii_to_upper y && ascii_iequals a b
ascii_iequals _ _ = false

pub data AstringClass : Type 0 where
  atom quoted literal : AstringClass

-- The two flags of the loop are the two `all`s.
unfoldable pub classify_astring : Bytes → AstringClass
classify_astring [] = quoted
classify_astring (c ∷ cs) =
    if all is_astring_char (c ∷ cs)
    then atom
    else if all is_text_char (c ∷ cs)
    then quoted
    else literal

-- The body of the loop, with the closing quote behind the last character.
unfoldable pub quoted_body : Bytes → Bytes
unfolding is_quoted_special
quoted_body [] = b'"' ∷ []
quoted_body (c ∷ cs) =
    let rest = c ∷ quoted_body cs in if is_quoted_special c then b'\\' ∷ rest else rest

-- What `render_quoted` appends to `out`.
unfoldable pub render_quoted : Bytes → Bytes
unfolding quoted_body
render_quoted value = b'"' ∷ quoted_body value

-- The precondition of `render_astring` keeps `literal` out; a release build quotes it.
unfoldable pub render_astring : Bytes → Bytes
unfolding classify_astring render_quoted
render_astring value = elim (classify_astring value) [ atom ↦ value | _ ↦ render_quoted value ]

pub data LiteralMode : Type 0 where
  synchronizing non_synchronizing : LiteralMode

abbrev pub plus_mark : LiteralMode → Bytes
plus_mark synchronizing = []
plus_mark non_synchronizing = b'+' ∷ []

-- The marker `{n}` or `{n+}`, CRLF, and the octets.
unfoldable pub render_literal : Bytes → LiteralMode → Bytes
render_literal octets mode =
    b'{' ∷ (to_chars (length octets) ++ (plus_mark mode ++ (b'}' ∷ b'\r' ∷ b'\n' ∷ octets)))
