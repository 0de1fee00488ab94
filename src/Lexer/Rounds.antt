-- ===== src/Lexer/Rounds.antt =====
-- One round of the loop of response_lexer.h: the cursor, its measure, and appended bytes.
use bkmail.Prelude.{
  ℕ, ◌+◌, ◌-◌, ◌*◌, ◌≤◌, ◌<◌, ◌++◌, ◌≡◌, refl, ◌∙◌, ap, Option, none, some, ltb, arith, Bytes,
  length, drop, inl, inr, Option-cases, Bool-cases, ◌⊎◌, length-append, length-drop, drop-append_le,
  take-append_le,
}
use bkmail.Lexer.{
  Lexer, ScanMode, line, literal, find_crlf, find_eol, Round, go_on, wait, complete, literal_round,
  line_round, line_text, end_of_line, round_in, round,
}
use bkmail.Lexer.Scan.{find_crlf_bound, find_crlf-append}

-- The cursor lies in the buffer, behind the start of its line; in line mode it is at that start, or
-- at a byte that was searched before.
pub record IsCursor (s : Lexer) (buffer : Bytes) : Type 0 where
  pub behind : s.line_start ≤ s.scan_pos
  pub inside : s.scan_pos ≤ length buffer
  pub resumable : s.mode ≡ line → (s.scan_pos ≡ s.line_start) ⊎ (s.scan_pos < length buffer)

abbrev mode_weight : ScanMode → ℕ
mode_weight line = 0
mode_weight literal = 1

-- What falls from round to round.
abbrev pub measure : Lexer → Bytes → ℕ
measure s buffer = 2 * (length buffer - s.scan_pos) + mode_weight s.mode

pub IsCursor-append : (s : Lexer) (xs ys : Bytes) → IsCursor s xs → IsCursor s (xs ++ ys)
IsCursor-append s xs ys v = record {
  behind = v.behind;
  inside = omega (arith, v.inside, length-append xs ys);
  resumable = λ e. ground (arith, v.resumable e, length-append xs ys);
}

pub find_eol_bound :
    (s : Lexer) (buffer : Bytes) {eol : ℕ}
    → s.scan_pos ≤ length buffer
    → find_eol s buffer ≡ some eol
    → (s.scan_pos ≤ eol) × (eol + 2 ≤ length buffer)
unfolding find_eol
find_eol_bound s buffer h e = elim (Option-cases (find_crlf (drop s.scan_pos buffer))) [
  | inl n ↦ ground arith
  | inr (k, f) ↦
      ground (arith, find_crlf_bound (drop s.scan_pos buffer) f, length-drop s.scan_pos buffer)
]

-- What the round's outcome is, for the buffer `b` and for every extension of it.
abbrev pub Advances : Lexer → Bytes → Round → Type 0
Advances s b (go_on s') =
    IsCursor s' b × (measure s' b < measure s b) × ((c : Bytes) → round s (b ++ c) ≡ go_on s')
Advances s b (wait s') = IsCursor s' b
Advances s b (complete text s') =
    (s'.response_end ≤ length b) × ((c : Bytes) → round s (b ++ c) ≡ complete text s')

literal_round-Advances :
    (s : Lexer) (b : Bytes) → IsCursor s b → s.mode ≡ literal → Advances s b (literal_round s b)
unfolding literal_round round round_in
literal_round-Advances s b v m =
    elim (Bool-cases (ltb (length b - s.scan_pos) s.literal_remaining)) [
      | inl short ↦ rw short v
      | inr enough ↦ rw enough (
        record { behind = omega arith; inside = ground arith; resumable = λ _. inl refl },
        ground arith,
        λ c. ground (arith, length-append b c),
      )
    ]

find_eol-append :
    (s : Lexer) (b c : Bytes) {eol : ℕ}
    → s.scan_pos ≤ length b
    → find_eol s b ≡ some eol
    → find_eol s (b ++ c) ≡ some eol
unfolding find_eol
find_eol-append s b c h e = elim (Option-cases (find_crlf (drop s.scan_pos b))) [
  | inl n ↦ ground arith
  | inr (k, f) ↦
      ground (arith, drop-append_le s.scan_pos b c h, find_crlf-append (drop s.scan_pos b) c f)
]

line_text-append :
    (s : Lexer) (b c : Bytes) (eol : ℕ)
    → s.line_start ≤ length b
    → eol ≤ length b
    → line_text s (b ++ c) eol ≡ line_text s b eol
unfolding line_text
line_text-append s b c eol h k = rw (drop-append_le s.line_start b c h) (
    take-append_le (eol - s.line_start) (drop s.line_start b) c
      (omega (arith, length-drop s.line_start b)))

end_of_line-append :
    (s : Lexer) (b c : Bytes) (eol : ℕ) (trailer : Option ℕ)
    → eol ≤ length b
    → end_of_line s (b ++ c) eol trailer ≡ end_of_line s b eol trailer
unfolding end_of_line
end_of_line-append s b c eol (some size) h = refl
end_of_line-append s b c eol none h =
    ap (λ t. complete t (record s { response_end = eol + 2 })) (take-append_le eol b c h)

line_round-append :
    (s : Lexer) (b c : Bytes) (eol : ℕ)
    → s.line_start ≤ length b
    → eol ≤ length b
    → line_round s (b ++ c) (some eol) ≡ line_round s b (some eol)
unfolding line_round
line_round-append s b c eol h k =
    rw (line_text-append s b c eol h k) (end_of_line-append s b c eol _ k)

pub round-line :
    (s : Lexer) (b : Bytes) {found : Option ℕ}
    → s.mode ≡ line
    → find_eol s b ≡ found
    → round s b ≡ line_round s b found
unfolding round round_in find_eol
round-line s b m e = rw (m, round_in) (rw e)

pub round_literal : (s : Lexer) (b : Bytes) → s.mode ≡ literal → round s b ≡ literal_round s b
unfolding round round_in
round_literal s b m = rw (m, round_in)

pub ScanMode-cases : (m : ScanMode) → (m ≡ line) ⊎ (m ≡ literal)
ScanMode-cases line = inl refl
ScanMode-cases literal = inr refl

waiting_cursor : (s : Lexer) (b : Bytes) → IsCursor s b → Advances s b (line_round s b none)
unfolding line_round
waiting_cursor s b v = elim (Bool-cases (ltb s.line_start (length b))) [
  | inl e ↦
      rw e (record {
        behind = ground arith;
        inside = omega arith;
        resumable = λ _. inr (ground arith);
      })
  | inr e ↦ rw e (record {
    behind = omega arith;
    inside = omega (arith, v.behind, v.inside);
    resumable = λ _. inl refl;
  })
]

end_of_line-Advances :
    (s : Lexer) (b : Bytes) (eol : ℕ) (trailer : Option ℕ)
    → IsCursor s b
    → s.scan_pos ≤ eol
    → eol + 2 ≤ length b
    → ((c : Bytes) → round s (b ++ c) ≡ end_of_line s b eol trailer)
    → Advances s b (end_of_line s b eol trailer)
unfolding end_of_line
end_of_line-Advances s b eol none v lo hi same = (hi, same)
end_of_line-Advances s b eol (some size) v lo hi same = (
  record { behind = omega (arith, v.behind); inside = hi; resumable = λ m. cc },
  omega arith,
  same,
)

line_round-Advances :
    (s : Lexer) (b : Bytes) (found : Option ℕ)
    → IsCursor s b
    → s.mode ≡ line
    → find_eol s b ≡ found
    → Advances s b (line_round s b found)
unfolding line_round
line_round-Advances s b none v m e = waiting_cursor s b v
line_round-Advances s b (some eol) v m e =
    let (lo, hi) = find_eol_bound s b v.inside e in
    end_of_line-Advances s b eol _ v lo hi (λ c.
      round-line s (b ++ c) m (find_eol-append s b c v.inside e)
      ∙ line_round-append s b c eol (omega (arith, v.behind, v.inside)) (omega arith))

-- Every round of a well-formed cursor.
pub round-Advances : (s : Lexer) (b : Bytes) → IsCursor s b → Advances s b (round s b)
round-Advances s b v = elim (ScanMode-cases s.mode) [
  | inl m ↦ rw (round-line s b m refl) (line_round-Advances s b _ v m refl)
  | inr m ↦ rw (round_literal s b m) (literal_round-Advances s b v m)
]
