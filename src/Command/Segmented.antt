-- ===== src/Command/Segmented.antt =====
-- The wire side that include/bkmail/imap/command/login_command.h and append_command.h share, and
-- of which a command with one segment (noop_command.h and its like) is the case of one: the rendered
-- segments, how many were handed to the pump, and how many lie before the next literal wall.
use bkmail.Prelude.{ℕ, ◌+◌, Bool, ◌||◌, List, [], ◌∷◌, Bytes, length, ltb, leb, if◌then◌else◌}
use bkmail.Response.{UntaggedKind}

pub record SegmentedCommand : Type 0 where
  pub segments : List Bytes
  pub emitted : ℕ
  pub unlocked : ℕ
  pub blocks : Bool
  pub wants : UntaggedKind → Bool

abbrev pub segment_at : List Bytes → ℕ → Bytes
segment_at [] i = []
segment_at (s ∷ ss) ℕ.zero = s
segment_at (s ∷ ss) (ℕ.suc i) = segment_at ss i

unfoldable pub next_segment : SegmentedCommand → Bytes
next_segment c =
    if leb c.unlocked c.emitted || leb (length c.segments) c.emitted
    then []
    else segment_at c.segments c.emitted

unfoldable pub awaits_continuation : SegmentedCommand → Bool
awaits_continuation c = ltb c.unlocked (length c.segments)

unfoldable pub on_segment_flushed : SegmentedCommand → SegmentedCommand
on_segment_flushed c =
    if ltb c.emitted (length c.segments) then record c { emitted = c.emitted + 1 } else c

unfoldable pub on_continuation : SegmentedCommand → SegmentedCommand
on_continuation c =
    if ltb c.unlocked (length c.segments) then record c { unlocked = c.unlocked + 1 } else c
