-- ===== src/Lexer/Frames.antt =====
-- Frames of response_lexer.h as the read pump takes them, when the bytes arrive in pieces.
use bkmail.Prelude.{
  subst, ℕ, zero, suc, ◌+◌, ◌-◌, ◌<◌, [], ◌∷◌, ◌++◌, ◌≡◌, refl, ◌∙◌, ap, Option, none, some, ltb,
  arith, Bytes, length, drop, inl, inr, Option-cases, Bool-cases, ◌⊎◌, sym, length-append,
  length-drop, drop-append_le, if◌then◌else◌,
}
use bkmail.Lexer.{
  Lexer, line, literal, find_crlf, find_eol, wait, round, reset, Extraction, starved, waiting,
  extracted, extract, enough_fuel, next_complete_response, unfinished, framed, frame_of, next_frame,
  line_round, end_of_line, line_text, literal_round, literal_trailer,
}
use bkmail.Lexer.Scan.{drop-drop, find_crlf_resume, shift}
use bkmail.Lexer.Rounds.{
  IsCursor, measure, round-Advances, round-line, round_literal, ScanMode-cases, IsCursor-append,
}
use bkmail.Lexer.Resume.{
  goes_on, waits, completes, outcome, extract_go_on, extract_wait, extract-complete, extract_fuel,
  extract-append, measure-enough_fuel,
}

shift-shift : (m n k : ℕ) (o : Option ℕ) → m + n ≡ k → shift m (shift n o) ≡ shift k o
shift-shift m n k none e = refl
shift-shift m n k (some i) e = ap some (omega arith)

find_eol-shift :
    (s : Lexer) (b : Bytes) → find_eol s b ≡ shift s.scan_pos (find_crlf (drop s.scan_pos b))
unfolding find_eol
find_eol-shift s b = ground arith

search_resume :
    (p q : ℕ) (b c searched : Bytes)
    → drop p b ≡ searched
    → p < length b
    → q ≡ length b - 1
    → find_crlf searched ≡ none
    → shift q (find_crlf (drop q (b ++ c))) ≡ shift p (find_crlf (drop p (b ++ c)))
search_resume p q b c [] e h k n = absurd (omega (arith, ap length e, length-drop p b))
search_resume p q b c (x ∷ xs) e h k n =
    let whole : drop p (b ++ c) ≡ x ∷ (xs ++ c) =
      drop-append_le p b c (omega arith) ∙ ap (λ t. t ++ c) e in
    let sum : p + length xs ≡ q = omega (arith, ap length e, length-drop p b) in
    let last : drop q (b ++ c) ≡ drop (length xs) (x ∷ (xs ++ c)) =
      sym (drop-drop p (length xs) q (b ++ c) sum) ∙ ap (drop (length xs)) whole in
    rw (whole, last, find_crlf_resume x xs c n) (sym (shift-shift p (length xs) q _ sum))

shift-none : (m : ℕ) (o : Option ℕ) → shift m o ≡ none → o ≡ none
shift-none m none h = refl
shift-none m (some k) h = cc

-- The search from the last byte of a searched buffer finds what a search of the whole finds.
find_eol_resume :
    (s : Lexer) (b c : Bytes) (p : ℕ)
    → IsCursor s b
    → s.mode ≡ line
    → find_eol s b ≡ none
    → p ≡ (if ltb s.line_start (length b) then length b - 1 else s.line_start)
    → find_eol (record s { scan_pos = p }) (b ++ c) ≡ find_eol s (b ++ c)
find_eol_resume s b c p v m n e =
    rw (find_eol-shift s (b ++ c), find_eol-shift (record s { scan_pos = p }) (b ++ c))
      (elim (Bool-cases (ltb s.scan_pos (length b))) [
        | inl inner ↦
            search_resume s.scan_pos p b c _ refl (ground arith) (ground (arith, v.behind))
              (shift-none s.scan_pos _ (sym (find_eol-shift s b) ∙ n))
        | inr outer ↦
            let same : p ≡ s.scan_pos = ground (arith, v.behind, v.inside, v.resumable m) in rw same
      ])

-- In line mode the frame depends on the end of line that is found, and not on `scan_pos`.
same_tail :
    (f g p : ℕ) (s : Lexer) (b : Bytes) (eol : ℕ) (trailer : Option ℕ)
    → round s b ≡ end_of_line s b eol trailer
    → round (record s { scan_pos = p }) b ≡ end_of_line (record s { scan_pos = p }) b eol trailer
    → IsCursor s b
    → IsCursor (record s { scan_pos = p }) b
    → measure (record s { scan_pos = p }) b < suc f
    → measure s b < suc g
    → frame_of b (extract (suc f) (record s { scan_pos = p }) b) ≡ frame_of b (extract (suc g) s b)
unfolding end_of_line frame_of
same_tail f g p s b eol none e e' v v' hf hg =
    rw (extract-complete g s b e, extract-complete f (record s { scan_pos = p }) b e')
same_tail f g p s b eol (some size) e e' v v' hf hg =
    let a = rw e at (round-Advances s b v) in
    let a' = rw e' at (round-Advances (record s { scan_pos = p }) b v') in
    rw (extract_go_on g s b e, extract_go_on f (record s { scan_pos = p }) b e')
      (ap (frame_of b) (extract_fuel f g _ b a.0 (omega (arith, a'.1)) (omega (arith, a.1))).1)

same_line :
    (f g p : ℕ) (s : Lexer) (b : Bytes) (found : Option ℕ)
    → s.mode ≡ line
    → find_eol s b ≡ found
    → find_eol (record s { scan_pos = p }) b ≡ found
    → IsCursor s b
    → IsCursor (record s { scan_pos = p }) b
    → measure (record s { scan_pos = p }) b < suc f
    → measure s b < suc g
    → frame_of b (extract (suc f) (record s { scan_pos = p }) b) ≡ frame_of b (extract (suc g) s b)
unfolding line_round
same_line f g p s b none m e e' v v' hf hg = rw (
  extract_wait g s b (round-line s b m e),
  extract_wait f (record s { scan_pos = p }) b (round-line (record s { scan_pos = p }) b m e'),
)
same_line f g p s b (some eol) m e e' v v' hf hg =
    same_tail f g p s b eol _ (round-line s b m e) (round-line (record s { scan_pos = p }) b m e') v
      v' hf hg

-- What a waiting round leaves behind.
wait_cursor :
    (s s' : Lexer) (b : Bytes)
    → round s b ≡ wait s'
    → ((s.mode ≡ literal) × (s' ≡ s))
      ⊎ ((s.mode ≡ line)
          × (find_eol s b ≡ none)
          × (s' ≡ record s {
            scan_pos = if ltb s.line_start (length b) then length b - 1 else s.line_start;
          }))
unfolding literal_round line_round end_of_line
wait_cursor s s' b e = elim (ScanMode-cases s.mode) [
  | inr m ↦ inl (m, let w = sym (round_literal s b m) ∙ e in ground arith)
  | inl m ↦ elim (Option-cases (find_eol s b)) [
    | inl n ↦ inr (m, n, let w = sym (round-line s b m n) ∙ e in ground arith)
    | inr (eol, x) ↦ absurd (
        let w = sym (round-line s b m x) ∙ e in no_wait eol (literal_trailer (line_text s b eol)) w)
  ]
]
  where
    no_wait : (eol : ℕ) (t : Option ℕ) → end_of_line s b eol t ≡ wait s' → ⊥
    no_wait eol none w = cc
    no_wait eol (some size) w = cc

resume_wait :
    (g h : ℕ) (s s' : Lexer) (b c : Bytes)
    → round s b ≡ wait s'
    → IsCursor s b
    → IsCursor s' b
    → measure s (b ++ c) < suc g
    → measure s' (b ++ c) < suc h
    → frame_of (b ++ c) (extract (suc h) s' (b ++ c))
      ≡ frame_of (b ++ c) (extract (suc g) s (b ++ c))
resume_wait g h s s' b c e v v' hg hh = elim (wait_cursor s s' b e) [
  | inl (m, q) ↦
      subst (λ t. measure t (b ++ c) < suc h → Same t) (sym q)
        (λ k.
          ap (frame_of (b ++ c))
            (extract_fuel (suc h) (suc g) s (b ++ c) (IsCursor-append s b c v) k hg).1)
        hh
  | inr (m, n, q) ↦
      subst (λ t. IsCursor t b → measure t (b ++ c) < suc h → Same t) (sym q)
        (λ w k.
          same_line h g _ s (b ++ c) _ m refl (find_eol_resume s b c _ v m n refl)
            (IsCursor-append s b c v) (IsCursor-append _ b c w) k hg)
        v' hh
]
  where
    Same : Lexer → Type 0
    Same t =
        frame_of (b ++ c) (extract (suc h) t (b ++ c))
        ≡ frame_of (b ++ c) (extract (suc g) s (b ++ c))

-- A wait keeps the cursor well formed, and a later extraction finds what it would have found had all
-- bytes been there at once.
extract_resume :
    (f g h : ℕ) (s : Lexer) (b c : Bytes) {s' : Lexer}
    → IsCursor s b
    → measure s b < f
    → measure s (b ++ c) < g
    → measure s' (b ++ c) < h
    → extract f s b ≡ waiting s'
    → IsCursor s' b
      × (frame_of (b ++ c) (extract h s' (b ++ c)) ≡ frame_of (b ++ c) (extract g s (b ++ c)))
extract_resume zero g h s b c v hf hg hh x = elim hf [ ]
extract_resume (suc f) zero h s b c v hf hg hh x = elim hg [ ]
extract_resume (suc f) (suc g) zero s b c v hf hg hh x = elim hh [ ]
extract_resume (suc f) (suc g) (suc h) s b c {s'} v hf hg hh x = elim (outcome s b v) [
  | goes_on s1 e v1 m later ↦ rw (extract_go_on g s (b ++ c) (later c)) (
      extract_resume f g (suc h) s1 b c v1 (omega arith)
        (omega (arith, v.inside, v1.inside, length-append b c)) hh
        (sym (extract_go_on f s b e) ∙ x))
  | waits s1 e v1 ↦
      let told : waiting s1 ≡ waiting s' = sym (extract_wait f s b e) ∙ x in
      let same : s1 ≡ s' = cc in
      let v' = subst (λ t. IsCursor t b) same v1 in
      (v', resume_wait g h s s' b c (e ∙ ap wait same) v v' hg hh)
  | completes text s1 e _ _ ↦
      absurd (let no : extracted text s1 ≡ waiting s' = sym (extract-complete f s b e) ∙ x in cc)
]

framed_extraction :
    (b : Bytes) (x : Extraction) {text rest : Bytes} {s' : Lexer}
    → frame_of b x ≡ framed text rest s'
    → (t : Lexer) × (x ≡ extracted text t) × (rest ≡ drop t.response_end b) × (s' ≡ reset)
unfolding frame_of
framed_extraction b starved h = cc
framed_extraction b (waiting s) h = cc
framed_extraction b (extracted text s) h = (s, cc, cc, cc)

-- A frame does not change when more bytes stand behind it: they are found behind what it leaves.
pub next_frame-append :
    (s : Lexer) (b c : Bytes) {text rest : Bytes} {s' : Lexer}
    → IsCursor s b
    → next_frame s b ≡ framed text rest s'
    → next_frame s (b ++ c) ≡ framed text (rest ++ c) s'
unfolding next_frame next_complete_response frame_of
next_frame-append s b c v h =
    let (t, x, r, e) = framed_extraction b (extract (enough_fuel b) s b) h in
    let (y, inside) =
      extract-append (enough_fuel b) (enough_fuel (b ++ c)) s b c v (measure-enough_fuel s b)
        (measure-enough_fuel s (b ++ c)) x in
    rw (y, r, e, drop-append_le t.response_end b c inside)

unfinished_extraction :
    (b : Bytes) (x : Extraction) {s' : Lexer} → frame_of b x ≡ unfinished s' → x ≡ waiting s'
unfolding frame_of
unfinished_extraction b starved h = cc
unfinished_extraction b (waiting s) h = cc
unfinished_extraction b (extracted text s) h = cc

-- A wait loses nothing: from the cursor that it leaves, which is well formed again, the longer
-- buffer gives the frame that it gives from the cursor before the wait.
pub next_frame_resume :
    (s : Lexer) (b c : Bytes) {s' : Lexer}
    → IsCursor s b
    → next_frame s b ≡ unfinished s'
    → IsCursor s' b × (next_frame s' (b ++ c) ≡ next_frame s (b ++ c))
unfolding next_frame next_complete_response
next_frame_resume s b c {s'} v h =
    extract_resume (enough_fuel b) (enough_fuel (b ++ c)) (enough_fuel (b ++ c)) s b c v
      (measure-enough_fuel s b) (measure-enough_fuel s (b ++ c)) (measure-enough_fuel s' (b ++ c))
      (unfinished_extraction b _ h)
