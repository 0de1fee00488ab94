-- ===== src/Context/Count.antt =====
-- How often a cell occurs in a list of cells, and what the queue operations do to that number.
use bkmail.Prelude.{
  ℕ, ◌+◌, ◌≡◌, refl, Bool, true, false, List, [], ◌∷◌, ◌++◌, none, some, arith, ◌==◌, map,
}
use bkmail.Error.{ErrorCode}
use bkmail.Operation.{Operation, Completion}
use bkmail.Context.Queue.{Queue, find, remove, update, taken, kept}
use bkmail.Context.Teardown.{failed_with, id_of}

abbrev pub one_if : Bool → ℕ
one_if true = 1
one_if false = 0

abbrev pub count : ℕ → Queue → ℕ
count i [] = 0
count i (op ∷ ops) = one_if (op.id == i) + count i ops

abbrev pub count_ids : ℕ → List ℕ → ℕ
count_ids i [] = 0
count_ids i (j ∷ js) = one_if (j == i) + count_ids i js

abbrev pub count_told : ℕ → List (ℕ × Completion) → ℕ
count_told i [] = 0
count_told i ((j, _) ∷ ts) = one_if (j == i) + count_told i ts

pub count-append : (i : ℕ) (xs ys : Queue) → count i (xs ++ ys) ≡ count i xs + count i ys
count-append i [] ys = omega arith
count-append i (x ∷ xs) ys = omega (arith, count-append i xs ys)

pub count_ids-append :
    (i : ℕ) (xs ys : List ℕ) → count_ids i (xs ++ ys) ≡ count_ids i xs + count_ids i ys
count_ids-append i [] ys = omega arith
count_ids-append i (x ∷ xs) ys = omega (arith, count_ids-append i xs ys)

pub count_told-append :
    (i : ℕ) (xs ys : List (ℕ × Completion))
    → count_told i (xs ++ ys) ≡ count_told i xs + count_told i ys
count_told-append i [] ys = omega arith
count_told-append i ((j, t) ∷ xs) ys = omega (arith, count_told-append i xs ys)

pub count_told-failed :
    (i : ℕ) (ec : ErrorCode) (ops : Queue) → count_told i (map (failed_with ec) ops) ≡ count i ops
count_told-failed i ec [] = refl
count_told-failed i ec (op ∷ ops) = omega (arith, count_told-failed i ec ops)

pub count_ids-map : (i : ℕ) (ops : Queue) → count_ids i (map id_of ops) ≡ count i ops
count_ids-map i [] = refl
count_ids-map i (op ∷ ops) = omega (arith, count_ids-map i ops)

-- A splice keeps every cell on one side.
pub count-taken-kept :
    (i : ℕ) (p : Operation → Bool) (ops : Queue)
    → count i ops ≡ count i (taken p ops) + count i (kept p ops)
unfolding taken kept
count-taken-kept i p [] = refl
count-taken-kept i p (op ∷ ops) = ground (arith, count-taken-kept i p ops)

-- What is found under a number has that number, and `remove` takes it out once.
pub find_id : (j : ℕ) (ops : Queue) {op : Operation} → find j ops ≡ some op → op.id ≡ j
unfolding find
find_id j [] e = cc
find_id j (x ∷ ops) {op} e = ground (arith, find_id j ops {op = op})

pub count-remove :
    (i j : ℕ) (ops : Queue) {op : Operation}
    → find j ops ≡ some op
    → count i ops ≡ one_if (j == i) + count i (remove j ops)
unfolding find remove
count-remove i j [] e = cc
count-remove i j (x ∷ ops) {op} e =
    ground (arith, count-remove i j ops {op = op}, find_id j ops {op = op})

pub remove-none : (j : ℕ) (ops : Queue) → find j ops ≡ none → remove j ops ≡ ops
unfolding find remove
remove-none j [] e = refl
remove-none j (x ∷ ops) e = ground (arith, remove-none j ops)

-- A call on a cell keeps its number.
pub count-update :
    (i j : ℕ) (f : Operation → Operation) (ops : Queue)
    → ((op : Operation) → (f op).id ≡ op.id)
    → count i (update j f ops) ≡ count i ops
unfolding update
count-update i j f [] h = refl
count-update i j f (x ∷ ops) h = ground (arith, h x, count-update i j f ops)
