-- ===== src/Context/Queue.antt =====
-- The write queue and the tag registry of `context_core` in include/bkmail/imap/imap_context.h: the
-- queue owns the cells, the registry and the other fields name them by number.
use bkmail.Prelude.{
  ℕ, Bool, true, false, ◌&&◌, List, [], ◌∷◌, Option, none, some, ◌==◌, if◌then◌else◌, Bytes,
}
use bkmail.Operation.{Operation}

abbrev pub Queue : Type 0
Queue = List Operation

-- The cell that a pointer leads to, if the queue still owns it.
unfoldable pub find : ℕ → Queue → Option Operation
find i [] = none
find i (op ∷ ops) = if op.id == i then some op else find i ops

-- `extract_from_queue_locked` takes the cell that `find` shows and leaves this queue.
unfoldable pub remove : ℕ → Queue → Queue
remove i [] = []
remove i (op ∷ ops) = if op.id == i then ops else op ∷ remove i ops

-- A call on a cell through its pointer.
unfoldable pub update : ℕ → (Operation → Operation) → Queue → Queue
update i f [] = []
update i f (op ∷ ops) = if op.id == i then f op ∷ ops else op ∷ update i f ops

abbrev pub is_some {ℓ} : {A : Type ℓ} → Option A → Bool
is_some none = false
is_some (some a) = true

unfoldable pub queue_contains : ℕ → Queue → Bool
unfolding find
queue_contains i ops = is_some (find i ops)

-- `take_cells_locked`: what is spliced out, and what stays.
unfoldable pub taken : (Operation → Bool) → Queue → Queue
taken p [] = []
taken p (op ∷ ops) = if p op then op ∷ taken p ops else taken p ops

unfoldable pub kept : (Operation → Bool) → Queue → Queue
kept p [] = []
kept p (op ∷ ops) = if p op then kept p ops else op ∷ kept p ops

abbrev pub Registry : Type 0
Registry = List (Bytes × ℕ)

unfoldable pub same_bytes : Bytes → Bytes → Bool
same_bytes [] [] = true
same_bytes (x ∷ a) (y ∷ b) = x == y && same_bytes a b
same_bytes _ _ = false

unfoldable pub lookup : Bytes → Registry → Option ℕ
unfolding same_bytes
lookup tag [] = none
lookup tag ((t, i) ∷ reg) = if same_bytes t tag then some i else lookup tag reg

unfoldable pub erase : Bytes → Registry → Registry
unfolding same_bytes
erase tag [] = []
erase tag ((t, i) ∷ reg) = if same_bytes t tag then reg else (t, i) ∷ erase tag reg

-- The registry without the tags of some cells.
unfoldable pub erase_all : Queue → Registry → Registry
unfolding erase
erase_all [] reg = reg
erase_all (op ∷ ops) reg = erase_all ops (erase op.tag reg)
