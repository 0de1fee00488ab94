-- ===== src/Line.antt =====
-- The commands that send one line and nothing else, of include/bkmail/imap/command/: what the cell
-- and the write pump see of such a class. The classes keep the line and one flag. In some the flag
-- is `emitted_`, which `render` leaves alone; in the others it is `segment_pending_`, which
-- `render` sets again.
pub mod Connection
pub mod Mailbox
pub mod Message
pub mod Refines
pub mod Arguments
pub mod Wire
use bkmail.Prelude.{ℕ, Bool, true, false, [], Option, none, some, if◌then◌else◌, Bytes}
use bkmail.Response.{ResponseStatus, UntaggedKind}
use bkmail.Error.{ErrorCode, map_status_to_ec, is_error}

-- `line` is what `render` writes for a tag, `rearms` whether it sets the flag again, `reply` the
-- error code of `on_tagged`.
pub record LineCommand : Type 0 where
  pub line : Bytes → Bytes
  pub rearms : Bool
  pub blocks : Bool
  pub wants : UntaggedKind → Bool
  pub reply : ResponseStatus → ErrorCode

-- `spent` is `emitted_`, or the negation of `segment_pending_`.
pub record LineState : Type 0 where
  pub wire : Bytes
  pub spent : Bool

unfoldable pub new_line : LineCommand → LineState
new_line c = record { wire = []; spent = c.rearms }

unfoldable pub render : LineCommand → Bytes → LineState → LineState
render c tag s = record { wire = c.line tag; spent = if c.rearms then false else s.spent }

unfoldable pub next_segment : LineState → Bytes
next_segment s = if s.spent then [] else s.wire

abbrev pub awaits_continuation : LineState → Bool
awaits_continuation s = false

unfoldable pub on_segment_flushed : LineState → LineState
on_segment_flushed s = record s { spent = true }

-- No class owns an untagged kind unless it says so.
abbrev pub wants_none : UntaggedKind → Bool
wants_none kind = false

-- `on_tagged` of a command with a result: the error code, and the result unless it stays as the caller
-- made it.
abbrev pub deliver {ℓ} : {A : Type ℓ} → ResponseStatus → A → ErrorCode × Option A
deliver status collected =
    let ec = map_status_to_ec status in (ec, if is_error ec then none else some collected)
