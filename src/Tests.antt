-- ===== src/Tests.antt =====
-- Runs of the framer, the parsers and the renderers on concrete bytes, and the properties applied.
mod Session
mod Idling
mod Deep
mod Operations
mod Commands
use bkmail.Prelude.{
  ◌||◌, length, ◌<◌, inl, ℕ, ◌≡◌, refl, Bool, true, false, none, some, Option, Bytes, List, [], ◌∷◌,
  ◌++◌, codes, if◌then◌else◌, ◌≢◌, ◌==◌, arith,
}
use bkmail.Astring.{
  render_literal, render_quoted, synchronizing, non_synchronizing, LiteralMode, render_astring,
}
use bkmail.Astring.Decimal.{to_chars, from_chars}
use bkmail.Cursor.{read_literal, read_quoted, read_astring}
use bkmail.Cursor.Literal.{read_literal-render_literal}
use bkmail.Cursor.Rendered.{read_astring-render_astring}
use bkmail.Cursor.Progress.{read_astring_shorter}
use bkmail.Capability.{contains, insert, capability_name_equals}
use bkmail.Capability.Members.{contains-insert}
use bkmail.Parser.Code.{capabilities, charsets, flag_loop}
use bkmail.Parser.Code.Loops.{code_loops_fuel}
use bkmail.Cursor.RoundTrip.{read_quoted-render_quoted}
use bkmail.Flags.{FlagSet, empty_flags, seen, deleted, test, set}
use bkmail.Flags.Laws.{test-set, same_flag}
use bkmail.Lexer.{
  Lexer, Frame, framed, unfinished, next_frame, reset, line, literal_trailer, literal_value,
  next_complete_response, starved,
}
use bkmail.Lexer.Frames.{next_frame-append, next_frame_resume}
use bkmail.Lexer.Marker.{marker, literal_trailer-marker, literal_value-from_chars}
use bkmail.Lexer.Resume.{next_complete_response_total}
use bkmail.Lexer.Rounds.{IsCursor}
use bkmail.Lexer.Wire.{Segment, IsSegment, wire, crlf, next_frame-wire}
use bkmail.Parser.{parse, parse_resp_code, blank}
use bkmail.Parser.Tagged.{status_line, parse-status_line, parse-status_line_code}
use bkmail.Parser.Untagged.{untagged_line, numbered_line, parse-untagged_line, parse-numbered_line}
use bkmail.Response.{
  ResponseStatus, ServerResponse, tagged, untagged, UntaggedKind, uidnext_code, unknown_code,
}

abbrev reset_cursor : (b : Bytes) → IsCursor reset b
reset_cursor b = record { behind = omega arith; inside = omega arith; resumable = λ _. inl refl }

-- A body with a CRLF and a brace in it.
abbrev body : Bytes
body = codes "a}\r\n{9}\r\n"

abbrev fetch_segment : Segment
fetch_segment = record { text = codes "* 1 FETCH (BODY[] {9}"; octets = body }

next_frame-wire_example :
    next_frame reset (wire (fetch_segment ∷ []) (codes ")") ++ crlf (codes "* 2 EX"))
    ≡ framed (wire (fetch_segment ∷ []) (codes ")")) (codes "* 2 EX") reset
unfolding bkmail.Lexer.find_crlf literal_trailer bkmail.Astring.is_digit
next_frame-wire_example =
    next_frame-wire (fetch_segment ∷ []) (codes ")") (codes "* 2 EX")
      (record { one_line = refl; counts = refl }, tt) refl refl

abbrev half_line : Lexer
half_line = record {
  mode = line;
  scan_pos = 5;
  line_start = 0;
  literal_remaining = 0;
  response_end = 0;
}

next_frame_resume_example :
    IsCursor half_line (codes "* OK \r")
    × (next_frame half_line (codes "* OK \r" ++ codes "\nrest")
        ≡ next_frame reset (codes "* OK \r" ++ codes "\nrest"))
unfolding next_frame bkmail.Lexer.round bkmail.Lexer.find_eol
next_frame_resume_example =
    next_frame_resume reset (codes "* OK \r") (codes "\nrest") {s' = half_line}
      (reset_cursor (codes "* OK \r")) refl

next_frame-append_example :
    next_frame reset (codes "* OK\r\n* B" ++ codes "YE\r\n")
    ≡ framed (codes "* OK") (codes "* B" ++ codes "YE\r\n") reset
unfolding next_frame bkmail.Lexer.round bkmail.Lexer.find_eol literal_trailer
next_frame-append_example =
    next_frame-append reset (codes "* OK\r\n* B") (codes "YE\r\n")
      (reset_cursor (codes "* OK\r\n* B")) refl

literal_trailer-marker_example :
    literal_trailer (codes "(FLAGS" ++ b' ' ∷ marker 310 non_synchronizing) ≡ some 310
literal_trailer-marker_example =
    literal_trailer-marker (codes "(FLAGS") b' ' 310 non_synchronizing (omega arith)

-- An unknown code is kept, and so is a known one whose number is malformed.
unknown_code_test :
    parse_resp_code (codes "HIGHESTMODSEQ 9")
    ≡ unknown_code (record { atom = codes "HIGHESTMODSEQ"; arguments = codes "9" })
unfolding parse_resp_code bkmail.Astring.is_atom_char
unknown_code_test = refl

-- An atom that starts with `~` is rendered bare and not read back.
tilde_test : read_astring (render_astring (codes "~a")) ≡ (none, codes "~a")
unfolding read_astring render_astring bkmail.Astring.is_astring_char
tilde_test = refl
