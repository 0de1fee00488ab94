-- ===== src/Lexer/Wire.antt =====
-- Whole responses on the wire, with any number of literals, and the frames that the lexer cuts.
use bkmail.Prelude.{
  ℕ, zero, suc, ◌+◌, ◌-◌, ◌≤◌, ◌<◌, List, [], ◌∷◌, ◌++◌, ◌≡◌, refl, sym, ◌∙◌, ap, Option, none,
  some, arith, Bytes, length, take, drop, length-append, length-drop, append_assoc,
  take-append_self, drop-append_self, All,
}
use bkmail.Lexer.{
  Lexer, line, literal, find_crlf, find_eol, literal_trailer, go_on, round, reset, extract,
  extracted, enough_fuel, next_frame, next_complete_response, frame_of, framed, line_round,
  end_of_line, line_text, literal_round,
}
use bkmail.Lexer.Scan.{drop-drop}
use bkmail.Lexer.Rounds.{round-line, round_literal}
use bkmail.Lexer.Resume.{extract_go_on, extract-complete}

abbrev pub crlf : Bytes → Bytes
crlf rest = b'\r' ∷ b'\n' ∷ rest

-- A line that announces octets, and the octets.
pub record Segment : Type 0 where
  pub text : Bytes
  pub octets : Bytes

-- The line holds no CRLF, and its trailer counts the octets.
pub record IsSegment (g : Segment) : Type 0 where
  pub one_line : find_crlf g.text ≡ none
  pub counts : literal_trailer g.text ≡ some (length g.octets)

-- The text of a response: segments, and a last line.
abbrev pub wire : List Segment → Bytes → Bytes
wire [] last = last
wire (g ∷ gs) last = g.text ++ crlf (g.octets ++ wire gs last)

find_crlf_line :
    (xs rest : Bytes) → find_crlf xs ≡ none → find_crlf (xs ++ crlf rest) ≡ some (length xs)
unfolding find_crlf
find_crlf_line [] rest h = refl
find_crlf_line (a ∷ []) rest h = ground arith
find_crlf_line (a ∷ b ∷ xs) rest h = ground (arith, find_crlf_line (b ∷ xs) rest)

-- A cursor at the start of a line.
abbrev at : ℕ → Lexer
at p = record { mode = line; scan_pos = p; line_start = p; literal_remaining = 0; response_end = 0 }

module _ (p : ℕ) (b text rest : Bytes) (here : drop p b ≡ text ++ crlf rest)
    (one_line : find_crlf text ≡ none) where
  find_eol-at : find_eol (at p) b ≡ some (p + length text)
  unfolding find_eol
  find_eol-at = rw (here, find_crlf_line text rest one_line)

  line_text-at : line_text (at p) b (p + length text) ≡ text
  unfolding line_text
  line_text-at =
      let n : p + length text - p ≡ length text = omega arith in
      rw (here, n) (take-append_self text (crlf rest))

  rest_at : (q : ℕ) → q ≡ p + length text + 2 → drop q b ≡ rest
  rest_at q e =
      sym (drop-drop p (length text + 2) q b (omega arith))
      ∙ ap (drop (length text + 2)) here
      ∙ sym (drop-drop (length text) 2 (length text + 2) (text ++ crlf rest) refl)
      ∙ ap (drop 2) (drop-append_self text (crlf rest))

  round-at :
      (trailer : Option ℕ)
      → literal_trailer text ≡ trailer
      → round (at p) b ≡ end_of_line (at p) b (p + length text) trailer
  unfolding line_round
  round-at trailer e = round-line (at p) b refl find_eol-at ∙ rw (line_text-at, e)

length-here : (p : ℕ) (b xs : Bytes) → drop p b ≡ xs → p ≤ length b → length b ≡ p + length xs
length-here p b xs h le = omega (arith, ap length h, length-drop p b)

literal_end :
    (p q n : ℕ) (b : Bytes)
    → q + n ≤ length b
    → literal_round (record (at p) { literal_remaining = n; scan_pos = q; mode = literal }) b
      ≡ go_on (at (q + n))
unfolding literal_round
literal_end p q n b h = ground arith

-- Two rounds take one segment.
module _ (p q : ℕ) (b rest : Bytes) (g : Segment) (v : IsSegment g) (le : p ≤ length b)
    (here : drop p b ≡ g.text ++ crlf (g.octets ++ rest))
    (e : q ≡ p + length g.text + 2 + length g.octets) where
  segment_fits : q ≤ length b
  segment_fits = omega (
    arith,
    length-here p b _ here le,
    length-append g.text (crlf (g.octets ++ rest)),
    length-append g.octets rest,
  )

  segment_rest : drop q b ≡ rest
  segment_rest =
      sym (drop-drop (p + length g.text + 2) (length g.octets) q b (omega arith))
      ∙ ap (drop (length g.octets)) (rest_at p b g.text (g.octets ++ rest) here v.one_line _ refl)
      ∙ drop-append_self g.octets rest

  extract_segment : (f : ℕ) → extract (suc (suc f)) (at p) b ≡ extract f (at q) b
  unfolding end_of_line
  extract_segment f =
      extract_go_on (suc f) (at p) b
        (round-at p b g.text (g.octets ++ rest) here v.one_line (some (length g.octets)) v.counts)
      ∙ extract_go_on f _ b (
          round_literal _ b refl
          ∙ literal_end p (p + length g.text + 2) (length g.octets) b (rw (← e) segment_fits))
      ∙ rw e

-- The last line, plain text, completes the response.
extract_last :
    (f p : ℕ) (b last rest : Bytes)
    → find_crlf last ≡ none
    → literal_trailer last ≡ none
    → drop p b ≡ last ++ crlf rest
    → extract (suc f) (at p) b
      ≡ extracted (take (p + length last) b) (record (at p) { response_end = p + length last + 2 })
unfolding end_of_line
extract_last f p b last rest o t here =
    extract-complete f (at p) b (round-at p b last rest here o none t)

length_wire : List Segment → Bytes → ℕ
length_wire [] last = length last
length_wire (g ∷ gs) last = length g.text + 2 + length g.octets + length_wire gs last

extract-wire :
    (f p n : ℕ) (gs : List Segment) (b last rest : Bytes)
    → length_wire gs last < f
    → n ≡ p + length_wire gs last
    → p ≤ length b
    → All IsSegment gs
    → find_crlf last ≡ none
    → literal_trailer last ≡ none
    → drop p b ≡ wire gs last ++ crlf rest
    → (s : Lexer) × (extract f (at p) b ≡ extracted (take n b) s) × (s.response_end ≡ n + 2)
unfolding length_wire
extract-wire zero p n gs b last rest h e le v o t here = elim h [ ]
extract-wire (suc f) p n [] b last rest h e le v o t here = (
  record (at p) { response_end = p + length last + 2 },
  rw e (extract_last f p b last rest o t here),
  omega arith,
)
extract-wire (suc zero) p n (g ∷ gs) b last rest h e le v o t here = absurd (omega arith)
extract-wire (suc (suc f)) p n (g ∷ gs) b last rest h e le v o t here =
    let q : ℕ = p + length g.text + 2 + length g.octets in
    let here' : drop p b ≡ g.text ++ crlf (g.octets ++ (wire gs last ++ crlf rest)) =
      here ∙ simp append_assoc in
    let (s, y, z) =
      extract-wire f q n gs b last rest (omega arith) (omega arith)
        (segment_fits p q b _ g v.0 le here' refl) v.1 o t
        (segment_rest p q b _ g v.0 le here' refl) in
    (s, extract_segment p q b _ g v.0 le here' refl f ∙ y, z)

length-wire : (gs : List Segment) (last : Bytes) → length (wire gs last) ≡ length_wire gs last
unfolding length_wire
length-wire [] last = refl
length-wire (g ∷ gs) last = omega (
  arith,
  length-append g.text (crlf (g.octets ++ wire gs last)),
  length-append g.octets (wire gs last),
  length-wire gs last,
)

-- The framer cuts out exactly one response: every line that announces octets is followed by those
-- octets, whatever they hold, CRLF included, and the first line that announces none is the last. Its
-- CRLF is dropped, and what follows stays in the buffer.
pub next_frame-wire :
    (gs : List Segment) (last rest : Bytes)
    → All IsSegment gs
    → find_crlf last ≡ none
    → literal_trailer last ≡ none
    → next_frame reset (wire gs last ++ crlf rest) ≡ framed (wire gs last) rest reset
unfolding next_frame next_complete_response frame_of
next_frame-wire gs last rest v o t =
    let text = wire gs last in
    let b = text ++ crlf rest in
    let size = length-wire gs last in
    let (s, x, r) =
      extract-wire (enough_fuel b) 0 (length text) gs b last rest
        (omega (arith, length-append text (crlf rest), size)) (omega (arith, size)) (omega arith) v
        o t refl in
    rw (
      x,
      r,
      take-append_self text (crlf rest),
      sym (drop-drop (length text) 2 (length text + 2) b refl),
      drop-append_self text (crlf rest),
    )
