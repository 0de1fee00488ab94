-- ===== src/SequenceSet/Grammar.antt =====
-- The seq-set grammar of RFC 3501, and `is_valid` of sequence_set.h against it.
use bkmail.Prelude.{ℕ, ◌^◌, ◌<◌, ◌≤◌, List, [], ◌∷◌, ◌++◌, Bytes}
use bkmail.Astring.Decimal.{to_chars}

pub data SeqNumber : Type 0 where
  star : SeqNumber
  number : ℕ → SeqNumber

pub data SeqRange : Type 0 where
  single : SeqNumber → SeqRange
  range : SeqNumber → SeqNumber → SeqRange

-- A number is within [1, 2^32 - 1].
unfoldable pub IsSeqNumber : SeqNumber → Type 0
IsSeqNumber star = 0 < 1
IsSeqNumber (number n) = (1 ≤ n) × (n < 2 ^ 32)

unfoldable pub IsSeqRange : SeqRange → Type 0
unfolding IsSeqNumber
IsSeqRange (single a) = IsSeqNumber a
IsSeqRange (range a b) = IsSeqNumber a × IsSeqNumber b

-- A set has a first range, and others.
unfoldable pub IsSeqSet : SeqRange → List SeqRange → Type 0
unfolding IsSeqRange
IsSeqSet r [] = IsSeqRange r
IsSeqSet r (s ∷ others) = IsSeqRange r × IsSeqSet s others

unfoldable pub render_number : SeqNumber → Bytes
unfolding to_chars
render_number star = b'*' ∷ []
render_number (number n) = to_chars n

unfoldable pub render_range : SeqRange → Bytes
unfolding render_number
render_range (single a) = render_number a
render_range (range a b) = render_number a ++ b':' ∷ render_number b

unfoldable pub render_set : SeqRange → List SeqRange → Bytes
unfolding render_range
render_set r [] = render_range r
render_set r (s ∷ others) = render_range r ++ b',' ∷ render_set s others
