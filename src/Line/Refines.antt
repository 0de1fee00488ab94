-- ===== src/Line/Refines.antt =====
-- A one-line command and the segmented command of the cells: the same thing to the write pump.
use bkmail.Prelude.{◌≡◌, refl, List, [], ◌∷◌, if◌then◌else◌, Bytes, arith}
use bkmail.Command.Segmented.{SegmentedCommand}
use bkmail.Command.Segmented
use bkmail.Line.{
  LineCommand, LineState, new_line, render, next_segment, awaits_continuation, on_segment_flushed,
}

-- What the pumps do to a command once it is rendered.
pub data PumpEvent : Type 0 where
  flushed continued : PumpEvent

-- `on_continuation` is empty in these classes.
abbrev pub line_event : PumpEvent → LineState → LineState
line_event flushed s = on_segment_flushed s
line_event continued s = s

abbrev pub segmented_event : PumpEvent → SegmentedCommand → SegmentedCommand
segmented_event flushed g = Segmented.on_segment_flushed g
segmented_event continued g = Segmented.on_continuation g

abbrev pub line_after : List PumpEvent → LineState → LineState
line_after [] s = s
line_after (e ∷ es) s = line_after es (line_event e s)

abbrev pub segmented_after : List PumpEvent → SegmentedCommand → SegmentedCommand
segmented_after [] g = g
segmented_after (e ∷ es) g = segmented_after es (segmented_event e g)

-- The command of one segment.
unfoldable pub as_segmented : LineCommand → Bytes → SegmentedCommand
as_segmented c tag = record {
  segments = c.line tag ∷ [];
  emitted = 0;
  unlocked = 1;
  blocks = c.blocks;
  wants = c.wants;
}

record Mirrors (s : LineState) (g : SegmentedCommand) : Type 0 where
  one : g.segments ≡ s.wire ∷ []
  free : g.unlocked ≡ 1
  counted : g.emitted ≡ (if s.spent then 1 else 0)

event-Mirrors :
    (e : PumpEvent) (s : LineState) (g : SegmentedCommand)
    → Mirrors s g
    → Mirrors (line_event e s) (segmented_event e g)
unfolding on_segment_flushed Segmented.on_segment_flushed Segmented.on_continuation
event-Mirrors flushed s g m = ground (arith, m.one, m.free, m.counted)
event-Mirrors continued s g m = ground (arith, m.one, m.free, m.counted)

Mirrors-agree :
    (s : LineState) (g : SegmentedCommand)
    → Mirrors s g
    → (next_segment s ≡ Segmented.next_segment g)
      × (awaits_continuation s ≡ Segmented.awaits_continuation g)
unfolding next_segment Segmented.next_segment Segmented.awaits_continuation
Mirrors-agree s g m = ground (arith, m.one, m.free, m.counted)

agree_after :
    (es : List PumpEvent) (s : LineState) (g : SegmentedCommand)
    → Mirrors s g
    → (next_segment (line_after es s) ≡ Segmented.next_segment (segmented_after es g))
      × (awaits_continuation (line_after es s)
          ≡ Segmented.awaits_continuation (segmented_after es g))
agree_after [] s g m = Mirrors-agree s g m
agree_after (e ∷ es) s g m =
    agree_after es (line_event e s) (segmented_event e g) (event-Mirrors e s g m)

-- A one-line command that was rendered once gives the write pump, after any sequence of flushes and
-- continuations, the segment and the answer about waiting that the segmented command with this one
-- segment gives.
pub render-as_segmented :
    (c : LineCommand) (tag : Bytes) (es : List PumpEvent)
    → let s = line_after es (render c tag (new_line c)) in
      let g = segmented_after es (as_segmented c tag) in
      (next_segment s ≡ Segmented.next_segment g)
      × (awaits_continuation s ≡ Segmented.awaits_continuation g)
unfolding render new_line as_segmented
render-as_segmented c tag es =
    agree_after es (render c tag (new_line c)) (as_segmented c tag)
      (record { one = refl; free = refl; counted = ground arith })
