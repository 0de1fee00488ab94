-- ===== src/Lexer/Resume.antt =====
-- The loop of response_lexer.h: its fuel, and its run on a buffer that grows.
use bkmail.Prelude.{
  ℕ, zero, suc, ◌≤◌, ◌<◌, ◌++◌, ◌≡◌, ◌≢◌, refl, ◌∙◌, arith, Bytes, length, sym, length-append,
}
use bkmail.Lexer.{
  Lexer, Round, go_on, wait, complete, round, starved, waiting, extracted, extract, enough_fuel,
  next_complete_response,
}
use bkmail.Lexer.Rounds.{IsCursor, measure, Advances, round-Advances}

pub data Outcome (s : Lexer) (b : Bytes) : Type 0 where
  goes_on :
      (s' : Lexer)
      → round s b ≡ go_on s'
      → IsCursor s' b
      → measure s' b < measure s b
      → ((c : Bytes) → round s (b ++ c) ≡ go_on s')
      → Outcome s b
  waits : (s' : Lexer) → round s b ≡ wait s' → IsCursor s' b → Outcome s b
  completes :
      (text : Bytes) (s' : Lexer)
      → round s b ≡ complete text s'
      → s'.response_end ≤ length b
      → ((c : Bytes) → round s (b ++ c) ≡ complete text s')
      → Outcome s b

Outcome-of : (s : Lexer) (b : Bytes) (r : Round) → round s b ≡ r → Advances s b r → Outcome s b
Outcome-of s b (go_on s') e a = goes_on s' e a.0 a.1 a.2
Outcome-of s b (wait s') e a = waits s' e a
Outcome-of s b (complete text s') e a = completes text s' e a.0 a.1

pub outcome : (s : Lexer) (b : Bytes) → IsCursor s b → Outcome s b
outcome s b v = Outcome-of s b (round s b) refl (round-Advances s b v)

module _ (f : ℕ) (s : Lexer) (b : Bytes) where
  pub extract_go_on : {s' : Lexer} → round s b ≡ go_on s' → extract (suc f) s b ≡ extract f s' b
  unfolding extract
  extract_go_on e = rw (e, extract)

  pub extract_wait : {s' : Lexer} → round s b ≡ wait s' → extract (suc f) s b ≡ waiting s'
  unfolding extract
  extract_wait e = rw (e, extract)

  pub extract-complete :
      {text : Bytes} {s' : Lexer}
      → round s b ≡ complete text s'
      → extract (suc f) s b ≡ extracted text s'
  unfolding extract
  extract-complete e = rw (e, extract)

-- The loop ends, and enough fuel is as good as any.
pub extract_fuel :
    (f g : ℕ) (s : Lexer) (b : Bytes)
    → IsCursor s b
    → measure s b < f
    → measure s b < g
    → (extract f s b ≢ starved) × (extract f s b ≡ extract g s b)
extract_fuel zero g s b v hf hg = elim hf [ ]
extract_fuel (suc f) zero s b v hf hg = elim hg [ ]
extract_fuel (suc f) (suc g) s b v hf hg = elim (outcome s b v) [
  | goes_on s' e v' m _ ↦
      rw (extract_go_on f s b e, extract_go_on g s b e)
        (extract_fuel f g s' b v' (omega arith) (omega arith))
  | waits s' e _ ↦ rw (extract_wait f s b e, extract_wait g s b e) (λ h. cc, refl)
  | completes text s' e _ _ ↦
      rw (extract-complete f s b e, extract-complete g s b e) (λ h. cc, refl)
]

pub measure-enough_fuel : (s : Lexer) (b : Bytes) → measure s b < enough_fuel b
measure-enough_fuel s b = ground arith

-- With the fuel of `next_complete_response` the extraction never starves: a well-formed cursor gets
-- a response, or waits for more bytes, within two rounds for each literal.
pub next_complete_response_total :
    (s : Lexer) (b : Bytes) → IsCursor s b → next_complete_response s b ≢ starved
unfolding next_complete_response
next_complete_response_total s b v =
    (extract_fuel (enough_fuel b) (enough_fuel b) s b v (measure-enough_fuel s b)
      (measure-enough_fuel s b)).0

-- A response that is complete stays the same, whatever arrives later.
pub extract-append :
    (f g : ℕ) (s : Lexer) (b c : Bytes) {text : Bytes} {s' : Lexer}
    → IsCursor s b
    → measure s b < f
    → measure s (b ++ c) < g
    → extract f s b ≡ extracted text s'
    → (extract g s (b ++ c) ≡ extracted text s') × (s'.response_end ≤ length b)
extract-append zero g s b c v hf hg x = elim hf [ ]
extract-append (suc f) zero s b c v hf hg x = elim hg [ ]
extract-append (suc f) (suc g) s b c v hf hg x = elim (outcome s b v) [
  | goes_on s1 e v' m later ↦ rw (extract_go_on g s (b ++ c) (later c)) (
      extract-append f g s1 b c v' (omega arith)
        (omega (arith, v.inside, v'.inside, length-append b c)) (sym (extract_go_on f s b e) ∙ x))
  | waits s1 e _ ↦ absurd (let no : waiting s1 ≡ _ = sym (extract_wait f s b e) ∙ x in cc)
  | completes t s1 e end later ↦
      let same : extracted t s1 ≡ extracted _ _ = sym (extract-complete f s b e) ∙ x in
      (extract-complete g s (b ++ c) (later c) ∙ same, ground arith)
]
