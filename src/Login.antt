-- ===== src/Login.antt =====
-- include/bkmail/imap/command/login_command.h: the rendering of the line in segments, cut behind the
-- announcement of each literal. The array of segments has four places. How the segments are handed out
-- is Command/Segmented. `authzid` of the account is not read.
pub mod Wire
use bkmail.Prelude.{
  ℕ, ◌+◌, Bool, true, false, ◌||◌, not, List, [], ◌∷◌, ◌++◌, ltb, ◌==◌, if◌then◌else◌, Bytes, codes,
  length,
}
use bkmail.Astring.Decimal.{to_chars}
use bkmail.Select.{atom_safe, escaped_arg}
use bkmail.Command.Segmented.{SegmentedCommand}
use bkmail.Line.{wants_none}

-- What `render` has written: the closed segments, the open one, and the walls.
pub record Writer : Type 0 where
  pub closed : List Bytes
  pub current : Bytes
  pub walls : ℕ

abbrev pub write : Bytes → Writer → Writer
write text w = record w { current = w.current ++ text }

unfoldable pub close_segment : Writer → Writer
close_segment w = record w {
  closed = if ltb (length w.closed) 4 then w.closed ++ w.current ∷ [] else w.closed;
  current = [];
}

-- `find_first_of("\r\n")` finds something.
abbrev pub has_break : Bytes → Bool
has_break [] = false
has_break (c ∷ cs) = c == b'\r' || c == b'\n' || has_break cs

abbrev pub append_quoted : Bytes → Bytes
append_quoted v = b'"' ∷ escaped_arg v

abbrev pub plus : Bool → Bytes
plus literal_plus = if literal_plus then b'+' ∷ [] else []

abbrev pub raise_wall : Writer → Writer
raise_wall w = record w { walls = w.walls + 1 }

unfoldable pub append_arg : Bool → Bytes → Writer → Writer
unfolding atom_safe escaped_arg close_segment
append_arg literal_plus v w =
    if atom_safe v
    then write v w
    else if not (has_break v)
    then write (append_quoted v) w
    else write v (
        raise_wall (
          close_segment
            (write (b'{' ∷ (to_chars (length v) ++ (plus literal_plus ++ codes "}\r\n"))) w)))

abbrev pub new_writer : Bytes → Writer
new_writer tag = record { closed = []; current = tag ++ codes " LOGIN "; walls = 0 }

abbrev pub written : Bool → Bytes → Bytes → Bytes → Writer
written literal_plus user_name password tag = close_segment (
    write (codes "\r\n") (
      append_arg literal_plus password
        (write (b' ' ∷ []) (append_arg literal_plus user_name (new_writer tag)))))

-- `render`.
unfoldable pub login_command : Bool → Bytes → Bytes → Bytes → SegmentedCommand
unfolding append_arg close_segment
login_command literal_plus user_name password tag =
    let w = written literal_plus user_name password tag in
    record {
      segments = w.closed;
      emitted = 0;
      unlocked = if w.walls == 0 || literal_plus then length w.closed else 1;
      blocks = false;
      wants = wants_none;
    }
