-- ===== src/Lexer/Trailer.antt =====
-- `literal_trailer` of response_lexer.h. Its indices fall from the end of the line, so the line is
-- read here from its last byte on.
use bkmail.Prelude.{
  ℕ, ◌+◌, ◌-◌, ◌*◌, ◌/◌, ◌^◌, Bool, true, ◌||◌, [], ◌∷◌, Option, none, some, ltb, ◌==◌,
  if◌then◌else◌, Bytes, length, take_while, drop_while, is_empty, reverse,
}
use bkmail.Astring.{is_digit}

-- The accumulation with its overflow guard; `~std::uint64_t{0}` is 2^64 - 1.
unfoldable pub literal_value : ℕ → Bytes → Option ℕ
literal_value value [] = some value
literal_value value (c ∷ cs) =
    let d = c - b'0' in
    let rest = literal_value (value * 10 + d) cs in
    if ltb ((2 ^ 64 - 1 - d) / 10) value then none else rest

-- The marker is a token of its own: at the line's start, or behind SP or `~`.
abbrev own_token : Bytes → Bool
own_token [] = true
own_token (c ∷ cs) = c == b' ' || c == b'~'

unfoldable pub open_brace : Bytes → Bytes → Option ℕ
unfolding literal_value
open_brace digits [] = none
open_brace digits (c ∷ before) =
    if c == b'{' then if own_token before then literal_value 0 (reverse digits) else none else none

-- Behind the closing brace and the `+`: the digits, in reverse order.
unfoldable pub trailer_digits : Bytes → Option ℕ
unfolding open_brace
trailer_digits cs =
    if is_empty (take_while is_digit cs)
    then none
    else open_brace (take_while is_digit cs) (drop_while is_digit cs)

abbrev pub skip_plus : Bytes → Bytes
skip_plus [] = []
skip_plus (c ∷ cs) = if c == b'+' then cs else c ∷ cs

unfoldable pub reversed_trailer : Bytes → Option ℕ
unfolding trailer_digits
reversed_trailer [] = none
reversed_trailer (c ∷ cs) = if c == b'}' then trailer_digits (skip_plus cs) else none

unfoldable pub literal_trailer : Bytes → Option ℕ
unfolding reversed_trailer
literal_trailer text = if ltb (length text) 3 then none else reversed_trailer (reverse text)
