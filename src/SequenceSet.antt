-- ===== src/SequenceSet.antt =====
-- include/bkmail/imap/sequence_set.h. A position in the text is the rest of the text from there on.
pub mod Grammar
pub mod Sound
pub mod Complete
use bkmail.Prelude.{
  ℕ, zero, suc, ◌+◌, ◌-◌, ◌*◌, ◌^◌, Bool, true, false, ◌&&◌, ◌||◌, [], ◌∷◌, Option, none, some,
  ◌==◌, ltb, leb, if◌then◌else◌, Bytes, length, is_empty,
}

-- The value stays below 2^32 * 10, so the 64-bit arithmetic of the source does not wrap.
unfoldable pub seq_digits : ℕ → Bytes → Option Bytes
seq_digits acc [] = some []
seq_digits acc (c ∷ cs) =
    let value = acc * 10 + (c - b'0') in
    let next = seq_digits value cs in
    if leb b'0' c && leb c b'9'
    then (if ltb (2 ^ 32 - 1) value then none else next)
    else some (c ∷ cs)

unfoldable pub parse_seq_number : Bytes → Option Bytes
unfolding seq_digits
parse_seq_number [] = none
parse_seq_number (c ∷ cs) =
    if c == b'*' then some cs else if ltb c b'1' || ltb b'9' c then none else seq_digits 0 (c ∷ cs)

-- The second number of a range, if a colon follows the first.
unfoldable pub range_end : Option Bytes → Option Bytes
unfolding parse_seq_number
range_end none = none
range_end (some []) = some []
range_end (some (c ∷ cs)) = if c == b':' then parse_seq_number cs else some (c ∷ cs)

-- What follows a range: the end, or a comma that is not the last character.
unfoldable pub more_ranges : (Bytes → Bool) → Option Bytes → Bool
more_ranges again none = false
more_ranges again (some []) = true
more_ranges again (some (c ∷ cs)) =
    if c == b',' then (if is_empty cs then false else again cs) else false

-- Every round consumes a number.
unfoldable pub valid_loop : ℕ → Bytes → Bool
unfolding more_ranges range_end parse_seq_number
valid_loop zero text = false
valid_loop (suc fuel) text = more_ranges (valid_loop fuel) (range_end (parse_seq_number text))

unfoldable pub is_valid : Bytes → Bool
unfolding valid_loop
is_valid text = if is_empty text then false else valid_loop (suc (length text)) text

pub record SequenceSet : Type 0 where
  pub text : Bytes

-- `none` is the empty optional of `parse`, and the exception of the constructor.
unfoldable pub parse : Bytes → Option SequenceSet
unfolding is_valid
parse text = if is_valid text then some (record { text = text }) else none
