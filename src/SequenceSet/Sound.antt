-- ===== src/SequenceSet/Sound.antt =====
-- From `is_valid` of sequence_set.h to the grammar.
use bkmail.Prelude.{
  ℕ, zero, suc, ◌+◌, ◌-◌, ◌*◌, ◌^◌, ◌<◌, ◌≤◌, ◌≡◌, refl, sym, ap, ◌∙◌, ◌↔◌, ◌⊎◌, inl, inr, Bool,
  true, ◌&&◌, ◌||◌, List, [], ◌∷◌, ◌++◌, Option, none, some, ◌==◌, ltb, leb, Bytes, length,
  is_empty, arith, append_assoc, append-nil, Bool-cases,
}
use bkmail.Astring.Decimal.{to_chars, to_chars-snoc, to_chars_digit}
use bkmail.SequenceSet.{seq_digits, parse_seq_number, range_end, more_ranges, valid_loop, is_valid}
use bkmail.SequenceSet.Complete.{is_valid-render_set}
use bkmail.SequenceSet.Grammar.{
  SeqNumber, star, number, SeqRange, single, range, IsSeqNumber, IsSeqRange, IsSeqSet,
  render_number, render_range, render_set,
}

digit_step :
    (acc c : ℕ) (cs : Bytes)
    → 1 ≤ acc
    → b'0' ≤ c
    → c ≤ b'9'
    → to_chars acc ++ c ∷ cs ≡ to_chars (acc * 10 + (c - b'0')) ++ cs
digit_step acc c cs p low high =
    rw
      (
        to_chars-snoc acc (c - b'0') p (omega arith),
        append_assoc (to_chars acc) ((b'0' + (c - b'0')) ∷ []) cs,
      )
      (ap (λ d. to_chars acc ++ d ∷ cs) (omega arith))

digit_start : (c : ℕ) (cs : Bytes) → b'1' ≤ c → c ≤ b'9' → c ∷ cs ≡ to_chars (c - b'0') ++ cs
digit_start c cs low high =
    rw (to_chars_digit (c - b'0') (omega arith)) (ap (λ d. d ∷ cs) (omega arith))

-- The loop, behind the text of a number.
seq_digits_sound :
    (acc : ℕ) (cs rest : Bytes)
    → 1 ≤ acc
    → acc < 2 ^ 32
    → seq_digits acc cs ≡ some rest
    → (n : ℕ) × (1 ≤ n) × (n < 2 ^ 32) × (to_chars acc ++ cs ≡ to_chars n ++ rest)
unfolding seq_digits
seq_digits_sound acc [] rest p q h = (acc, p, q, grind arith)
seq_digits_sound acc (c ∷ cs) rest p q h = elim (Bool-cases (leb b'0' c && leb c b'9')) [
  | inr other ↦ (acc, p, q, ground arith)
  | inl digit ↦ elim (Bool-cases (ltb (2 ^ 32 - 1) (acc * 10 + (c - b'0')))) [
    | inl large ↦ ground arith
    | inr small ↦
        let (n, low, high, e) =
          seq_digits_sound (acc * 10 + (c - b'0')) cs rest (omega arith) (ground arith)
            (ground arith) in
        (n, low, high, digit_step acc c cs p (ground arith) (ground arith) ∙ e)
  ]
]

parse_seq_number_sound :
    (cs rest : Bytes)
    → parse_seq_number cs ≡ some rest
    → (a : SeqNumber) × IsSeqNumber a × (cs ≡ render_number a ++ rest)
unfolding parse_seq_number seq_digits IsSeqNumber render_number
parse_seq_number_sound [] rest h = ground arith
parse_seq_number_sound (c ∷ cs) rest h = elim (Bool-cases (c == b'*')) [
  | inl is_star ↦ (star, omega arith, ground arith)
  | inr other ↦ elim (Bool-cases (ltb c b'1' || ltb b'9' c)) [
    | inl outside ↦ ground arith
    | inr inside ↦
        let (n, low, high, e) =
          seq_digits_sound (c - b'0') cs rest (ground arith) (ground arith) (ground arith) in
        (number n, (low, high), digit_start c cs (ground arith) (ground arith) ∙ e)
  ]
]

colon_case :
    (cs rest : Bytes)
    → range_end (some cs) ≡ some rest
    → (cs ≡ rest) ⊎ ((tail : Bytes) × (cs ≡ b':' ∷ tail) × (parse_seq_number tail ≡ some rest))
unfolding range_end
colon_case [] rest h = inl (grind arith)
colon_case (c ∷ cs) rest h = elim (Bool-cases (c == b':')) [
  | inl colon ↦ inr (cs, ground arith, ground arith)
  | inr other ↦ inl (ground arith)
]

range_of :
    (cs : Bytes) (found : Option Bytes) (rest : Bytes)
    → parse_seq_number cs ≡ found
    → range_end found ≡ some rest
    → (r : SeqRange) × IsSeqRange r × (cs ≡ render_range r ++ rest)
unfolding range_end IsSeqRange render_range
range_of cs none rest e h = ground arith
range_of cs (some tail) rest e h =
    let (a, is_number, start) = parse_seq_number_sound cs tail e in
    elim (colon_case tail rest h) [
      | inl alone ↦ (single a, is_number, start ∙ ap (λ t. render_number a ++ t) alone)
      | inr (after, colon, second) ↦
          let (b, is_second, stop) = parse_seq_number_sound after rest second in
          (
            range a b,
            (is_number, is_second),
            start
                ∙ (ap (λ t. render_number a ++ t) (colon ∙ ap (λ t. b':' ∷ t) stop)
                    ∙ sym (append_assoc (render_number a) (b':' ∷ render_number b) rest)),
          )
    ]

more_cases :
    (again : Bytes → Bool) (found : Option Bytes)
    → more_ranges again found ≡ true
    → (found ≡ some []) ⊎ ((rest : Bytes) × (found ≡ some (b',' ∷ rest)) × (again rest ≡ true))
unfolding more_ranges
more_cases again none h = ground arith
more_cases again (some []) h = inl refl
more_cases again (some (c ∷ [])) h = ground arith
more_cases again (some (c ∷ d ∷ cs)) h = inr (d ∷ cs, ground arith, ground arith)

valid_loop_sound :
    (fuel : ℕ) (text : Bytes)
    → valid_loop fuel text ≡ true
    → (r : SeqRange) × (others : List SeqRange) × IsSeqSet r others × (text ≡ render_set r others)
unfolding valid_loop IsSeqSet render_set
valid_loop_sound zero text h = ground arith
valid_loop_sound (suc fuel) text h =
    elim (more_cases (valid_loop fuel) (range_end (parse_seq_number text)) h) [
      | inl last ↦
          let (r, is_range, e) = range_of text (parse_seq_number text) [] refl last in
          (r, [], is_range, e ∙ append-nil (render_range r))
      | inr (rest, comma, again) ↦
          let (r, is_range, e) = range_of text (parse_seq_number text) (b',' ∷ rest) refl comma in
          let (s, others, is_set, f) = valid_loop_sound fuel rest again in
          (r, s ∷ others, (is_range, is_set), e ∙ ap (λ t. render_range r ++ b',' ∷ t) f)
    ]

is_valid_sound :
    (text : Bytes)
    → is_valid text ≡ true
    → (r : SeqRange) × (others : List SeqRange) × IsSeqSet r others × (text ≡ render_set r others)
unfolding is_valid
is_valid_sound text h = elim (Bool-cases (is_empty text)) [
  | inl empty ↦ ground arith
  | inr some_text ↦ valid_loop_sound (suc (length text)) text (ground arith)
]

-- A text is valid exactly if it is the text of a sequence set whose numbers are within [1, 2^32 - 1].
pub is_valid_grammar :
    (text : Bytes)
    → (is_valid text ≡ true) ↔ (
        (r : SeqRange) × (others : List SeqRange) × IsSeqSet r others
        × (text ≡ render_set r others))
is_valid_grammar text =
    (is_valid_sound text, λ (r, others, is_set, e). rw e (is_valid-render_set r others is_set))
