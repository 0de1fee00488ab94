-- ===== src/SequenceSet/Complete.antt =====
-- From the grammar to `is_valid` of sequence_set.h.
use bkmail.Prelude.{
  ℕ, zero, suc, ◌+◌, ◌-◌, ◌*◌, ◌^◌, ◌<◌, ◌≤◌, ◌≡◌, refl, sym, Bool, true, false, ◌||◌, List, [],
  ◌∷◌, ◌++◌, some, ◌==◌, Bytes, length, is_empty, all, arith, append_assoc, append-nil, subst,
  Stops, length-append,
}
use bkmail.Astring.Decimal.{
  to_chars, decimal, is_decimal, to_chars_decimal, decimal-to_chars, to_chars_head,
}
use bkmail.SequenceSet.{seq_digits, parse_seq_number, range_end, more_ranges, valid_loop, is_valid}
use bkmail.SequenceSet.Grammar.{
  SeqNumber, star, number, SeqRange, single, range, IsSeqNumber, IsSeqRange, IsSeqSet,
  render_number, render_range, render_set,
}

decimal_grows : (acc : ℕ) (ds : Bytes) → acc ≤ decimal acc ds
unfolding decimal
decimal_grows acc [] = omega arith
decimal_grows acc (d ∷ ds) = ground (arith, decimal_grows (acc * 10 + (d - b'0')) ds)

seq_digits-append :
    (acc : ℕ) (ds rest : Bytes)
    → all is_decimal ds ≡ true
    → Stops is_decimal rest
    → decimal acc ds < 2 ^ 32
    → seq_digits acc (ds ++ rest) ≡ some rest
unfolding seq_digits decimal
seq_digits-append acc [] [] d s h = refl
seq_digits-append acc [] (c ∷ rest) d s h = ground arith
seq_digits-append acc (c ∷ ds) rest d s h = ground (
  arith,
  decimal_grows (acc * 10 + (c - b'0')) ds,
  seq_digits-append (acc * 10 + (c - b'0')) ds rest,
)

digit_first :
    (c : ℕ) (ds rest : Bytes)
    → b'1' ≤ c
    → c ≤ b'9'
    → seq_digits 0 (c ∷ ds) ≡ some rest
    → parse_seq_number (c ∷ ds) ≡ some rest
unfolding parse_seq_number
digit_first c ds rest low high h = ground arith

-- The number is read up to a character that is no digit.
parse_seq_number-render_number :
    (a : SeqNumber) (rest : Bytes)
    → IsSeqNumber a
    → Stops is_decimal rest
    → parse_seq_number (render_number a ++ rest) ≡ some rest
unfolding parse_seq_number IsSeqNumber render_number
parse_seq_number-render_number star rest h s = refl
parse_seq_number-render_number (number n) rest (low, high) s =
    let (c, cs, e, first, last) = to_chars_head n low in
    let digits =
      seq_digits-append 0 (to_chars n) rest (to_chars_decimal n) s (rw (decimal-to_chars n) high) in
    subst (λ ds. seq_digits 0 (ds ++ rest) ≡ some rest → parse_seq_number (ds ++ rest) ≡ some rest)
      (sym e) (digit_first c (cs ++ rest) rest first last) digits

abbrev is_range_char : ℕ → Bool
is_range_char c = is_decimal c || c == b':'

Stops-decimal : (rest : Bytes) → Stops is_range_char rest → Stops is_decimal rest
Stops-decimal [] s = tt
Stops-decimal (c ∷ rest) s = ground arith

no_colon : (rest : Bytes) → Stops is_range_char rest → range_end (some rest) ≡ some rest
unfolding range_end
no_colon [] s = refl
no_colon (c ∷ rest) s = ground arith

range_end-render_range :
    (r : SeqRange) (rest : Bytes)
    → IsSeqRange r
    → Stops is_range_char rest
    → range_end (parse_seq_number (render_range r ++ rest)) ≡ some rest
unfolding IsSeqRange render_range range_end
range_end-render_range (single a) rest h s =
    rw (parse_seq_number-render_number a rest h (Stops-decimal rest s)) (no_colon rest s)
range_end-render_range (range a b) rest (h, k) s =
    rw
      (
        append_assoc (render_number a) (b':' ∷ render_number b) rest,
        parse_seq_number-render_number a (b':' ∷ (render_number b ++ rest)) h refl,
      )
      (parse_seq_number-render_number b rest k (Stops-decimal rest s))

number_nonempty :
    (a : SeqNumber) (rest : Bytes) → IsSeqNumber a → is_empty (render_number a ++ rest) ≡ false
unfolding IsSeqNumber render_number
number_nonempty star rest h = refl
number_nonempty (number n) rest (low, high) =
    let (c, cs, e, _, _) = to_chars_head n low in rw e refl

range_nonempty :
    (r : SeqRange) (rest : Bytes) → IsSeqRange r → is_empty (render_range r ++ rest) ≡ false
unfolding IsSeqRange render_range
range_nonempty (single a) rest h = number_nonempty a rest h
range_nonempty (range a b) rest (h, k) =
    rw (append_assoc (render_number a) (b':' ∷ render_number b) rest)
      (number_nonempty a (b':' ∷ (render_number b ++ rest)) h)

set_nonempty :
    (r : SeqRange) (others : List SeqRange)
    → IsSeqSet r others
    → is_empty (render_set r others) ≡ false
unfolding IsSeqSet render_set
set_nonempty r [] h =
    subst (λ text. is_empty text ≡ false) (append-nil (render_range r)) (range_nonempty r [] h)
set_nonempty r (s ∷ others) (h, k) = range_nonempty r (b',' ∷ render_set s others) h

valid_loop-render_set :
    (fuel : ℕ) (r : SeqRange) (others : List SeqRange)
    → IsSeqSet r others
    → length others < fuel
    → valid_loop fuel (render_set r others) ≡ true
unfolding valid_loop render_set IsSeqSet more_ranges
valid_loop-render_set zero r others h p = elim p [ ]
valid_loop-render_set (suc fuel) r [] h p =
    subst (λ text. more_ranges (valid_loop fuel) (range_end (parse_seq_number text)) ≡ true)
      (append-nil (render_range r)) (rw (range_end-render_range r [] h tt) refl)
valid_loop-render_set (suc fuel) r (s ∷ others) (h, k) p =
    rw (range_end-render_range r (b',' ∷ render_set s others) h refl, set_nonempty s others k)
      (valid_loop-render_set fuel s others k (omega arith))

ranges_shorter :
    (r : SeqRange) (others : List SeqRange) → length others ≤ length (render_set r others)
unfolding render_set
ranges_shorter r [] = omega arith
ranges_shorter r (s ∷ others) =
    rw (length-append (render_range r) (b',' ∷ render_set s others))
      (omega (arith, ranges_shorter s others))

pub is_valid-render_set :
    (r : SeqRange) (others : List SeqRange)
    → IsSeqSet r others
    → is_valid (render_set r others) ≡ true
unfolding is_valid
is_valid-render_set r others h = rw (set_nonempty r others h) (
    valid_loop-render_set (suc (length (render_set r others))) r others h
      (omega (arith, ranges_shorter r others)))
