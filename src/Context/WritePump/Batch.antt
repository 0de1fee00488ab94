-- ===== src/Context/WritePump/Batch.antt =====
-- What the drain of the write pump sends, described apart from the loop.
use bkmail.Prelude.{Bool, not, ◌&&◌, ◌||◌, [], ◌∷◌, ◌++◌, if◌then◌else◌, Bytes, is_empty}
use bkmail.Operation.{Operation, is_written, awaits_continuation, blocks_pipeline, next_segment}
use bkmail.Context.Queue.{Queue}

-- A cell with bytes to send.
abbrev pub is_sendable : Operation → Bool
is_sendable op = not (is_written op) && not (is_empty (next_segment op))

-- Nothing behind such a cell may be sent in the same batch.
abbrev pub is_wall : Operation → Bool
is_wall op =
    not (is_written op) && (awaits_continuation op || (is_sendable op && blocks_pipeline op))

-- The queue up to its first wall, that cell included.
abbrev pub front : Queue → Queue
front [] = []
front (op ∷ ops) = if is_wall op then op ∷ [] else op ∷ front ops

abbrev pub joined : Queue → Bytes
joined [] = []
joined (op ∷ ops) = next_segment op ++ joined ops
