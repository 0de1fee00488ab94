-- ===== src/Lexer.antt =====
-- include/bkmail/imap/detail/response_lexer.h: the two-mode framer. The committed bytes of the
-- read buffer are an argument of each call; the cursor fields are those of the class, as offsets.
pub mod Trailer
pub mod Scan
pub mod Rounds
pub mod Resume
pub mod Frames
pub mod Wire
pub mod Marker
use bkmail.Prelude.{
  ℕ, zero, suc, ◌+◌, ◌-◌, ◌*◌, Bool, true, false, ◌&&◌, [], ◌∷◌, Option, none, some, ltb, ◌==◌,
  if◌then◌else◌, Bytes, length, take, drop,
}
unfoldable pub use Trailer.{
  literal_trailer, reversed_trailer, literal_value, trailer_digits, open_brace, skip_plus,
}

pub data ScanMode : Type 0 where
  line literal : ScanMode

pub record Lexer : Type 0 where
  pub mode : ScanMode
  pub scan_pos : ℕ
  pub line_start : ℕ
  pub literal_remaining : ℕ
  pub response_end : ℕ

-- The constructor, and `reset`.
abbrev pub reset : Lexer
reset = record {
  mode = line;
  scan_pos = 0;
  line_start = 0;
  literal_remaining = 0;
  response_end = 0;
}

abbrev add_one : Option ℕ → Option ℕ
add_one none = none
add_one (some k) = some (suc k)

-- Where the first CRLF begins.
unfoldable pub find_crlf : Bytes → Option ℕ
find_crlf [] = none
find_crlf (a ∷ []) = none
find_crlf (a ∷ b ∷ rest) =
    let further = add_one (find_crlf (b ∷ rest)) in
    if a == b'\r' && b == b'\n' then some 0 else further

-- The scan for `eol` from `scan_pos`, as an offset into the buffer.
unfoldable pub find_eol : Lexer → Bytes → Option ℕ
unfolding find_crlf
find_eol s buffer = elim (find_crlf (drop s.scan_pos buffer)) [
  | none ↦ none
  | some k ↦ some (s.scan_pos + k)
]

-- One round of the loop: it goes on, waits for more bytes, or has the response's text.
pub data Round : Type 0 where
  go_on : Lexer → Round
  wait : Lexer → Round
  complete : Bytes → Lexer → Round

unfoldable pub literal_round : Lexer → Bytes → Round
literal_round s buffer =
    if ltb (length buffer - s.scan_pos) s.literal_remaining
    then wait s
    else go_on (record s {
      scan_pos = s.scan_pos + s.literal_remaining;
      literal_remaining = 0;
      mode = line;
      line_start = s.scan_pos + s.literal_remaining;
    })

unfoldable pub line_text : Lexer → Bytes → ℕ → Bytes
line_text s buffer eol = take (eol - s.line_start) (drop s.line_start buffer)

unfoldable pub end_of_line : Lexer → Bytes → ℕ → Option ℕ → Round
end_of_line s buffer eol (some size) =
    go_on (record s { literal_remaining = size; scan_pos = eol + 2; mode = literal })
end_of_line s buffer eol none = complete (take eol buffer) (record s { response_end = eol + 2 })

unfoldable pub line_round : Lexer → Bytes → Option ℕ → Round
unfolding line_text end_of_line
line_round s buffer none = wait (record s {
  scan_pos = if ltb s.line_start (length buffer) then length buffer - 1 else s.line_start;
})
line_round s buffer (some eol) = end_of_line s buffer eol (literal_trailer (line_text s buffer eol))

unfoldable pub round_in : ScanMode → Lexer → Bytes → Round
unfolding literal_round line_round
round_in literal s buffer = literal_round s buffer
round_in line s buffer = line_round s buffer (find_eol s buffer)

unfoldable pub round : Lexer → Bytes → Round
unfolding round_in
round s buffer = round_in s.mode s buffer

-- What the extraction leaves: `starved` is the end of the fuel, which `enough_fuel` never meets.
pub data Extraction : Type 0 where
  starved : Extraction
  waiting : Lexer → Extraction
  extracted : Bytes → Lexer → Extraction

unfoldable pub extract : ℕ → Lexer → Bytes → Extraction
extract zero s buffer = starved
extract (suc fuel) s buffer = elim (round s buffer) [
  | go_on s' ↦ extract fuel s' buffer
  | wait s' ↦ waiting s'
  | complete text s' ↦ extracted text s'
]

-- Two rounds for each literal of a buffer, whose marker takes at least two bytes.
abbrev pub enough_fuel : Bytes → ℕ
enough_fuel buffer = 2 * length buffer + 3

unfoldable pub next_complete_response : Lexer → Bytes → Extraction
unfolding extract
next_complete_response s buffer = extract (enough_fuel buffer) s buffer

-- The bytes that stay in the buffer, and the cursor.
unfoldable pub consume_response : Lexer → Bytes → Bytes × Lexer
consume_response s buffer = (drop s.response_end buffer, reset)

-- One turn of the read pump's loop: the extraction with the `consume_response` that follows it.
pub data Frame : Type 0 where
  starving : Frame
  unfinished : Lexer → Frame
  framed : Bytes → Bytes → Lexer → Frame

unfoldable pub frame_of : Bytes → Extraction → Frame
unfolding consume_response
frame_of buffer starved = starving
frame_of buffer (waiting s) = unfinished s
frame_of buffer (extracted text s) =
    let (rest, s') = consume_response s buffer in framed text rest s'

unfoldable pub next_frame : Lexer → Bytes → Frame
unfolding frame_of next_complete_response
next_frame s buffer = frame_of buffer (next_complete_response s buffer)
