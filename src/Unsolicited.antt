-- ===== src/Unsolicited.antt =====
-- include/bkmail/imap/detail/unsolicited_table.h. An id stands for the cell that has it, and for the
-- handler in the cell. The store also names the cells that are disposed of, and a dispatch that calls one
-- of those is `none`. The lock is held for whole operations and is not modelled.
pub mod Entries
pub mod Registrations
pub mod Table
pub mod Dispatch
use bkmail.Prelude.{
  ℕ, zero, suc, ◌+◌, ◌%◌, ◌^◌, Bool, true, false, List, [], ◌∷◌, ◌++◌, map, Option, none, some,
  ◌==◌, if◌then◌else◌,
}

pub record Entry : Type 0 where
  pub id : ℕ
  pub active : Bool

-- `anchor`.
pub record Anchor : Type 0 where
  pub entries : List Entry
  pub next_id : ℕ
  pub disposed : List ℕ

abbrev pub new_anchor : Anchor
new_anchor = record { entries = []; next_id = 1; disposed = [] }

-- The first entry with the id is marked, the others are left.
unfoldable pub deactivate_in : ℕ → List Entry → List Entry
deactivate_in id [] = []
deactivate_in id (e ∷ es) =
    let others = deactivate_in id es in
    if e.id == id then record e { active = false } ∷ es else e ∷ others

unfoldable pub deactivate : ℕ → Anchor → Anchor
unfolding deactivate_in
deactivate id store = record store { entries = deactivate_in id store.entries }

unfoldable pub active_entries : List Entry → List Entry
active_entries [] = []
active_entries (e ∷ es) = let others = active_entries es in if e.active then e ∷ others else others

unfoldable pub inactive_entries : List Entry → List Entry
inactive_entries [] = []
inactive_entries (e ∷ es) =
    let others = inactive_entries es in if e.active then others else e ∷ others

unfoldable pub compact_locked : Anchor → Anchor
unfolding active_entries inactive_entries
compact_locked store = record store {
  entries = active_entries store.entries;
  disposed = store.disposed ++ map (λ e. e.id) (inactive_entries store.entries);
}

-- `registration`: whether it holds the anchor, and the id.
pub record Registration : Type 0 where
  pub attached : Bool
  pub id : ℕ

abbrev pub no_registration : Registration
no_registration = record { attached = false; id = 0 }

unfoldable pub reset : Registration → Anchor → Registration × Anchor
unfolding deactivate
reset token store =
    if token.attached then (no_registration, deactivate token.id store) else (token, store)

-- Move assignment of another registration: what was held is given up, and the other one left empty.
unfoldable pub assign :
    Registration → Registration → Anchor → Registration × (Registration × Anchor)
unfolding reset
assign token other store = let (_, after) = reset token store in (other, (no_registration, after))

unfoldable pub add : Anchor → Registration × Anchor
unfolding compact_locked
add store =
    let compacted = compact_locked store in
    (
      record { attached = true; id = store.next_id },
      record compacted {
        entries = compacted.entries ++ record { id = store.next_id; active = true } ∷ [];
        next_id = (store.next_id + 1) % 2 ^ 64;
      },
    )

unfoldable pub size_of : List Entry → ℕ
size_of [] = 0
size_of (e ∷ es) = if e.active then suc (size_of es) else size_of es

unfoldable pub size : Anchor → ℕ
unfolding size_of
size store = size_of store.entries

-- What a handler does with the table while it runs: it destroys the token of a handler, or registers one.
pub data Action : Type 0 where
  reset_token : ℕ → Action
  register : Action

unfoldable pub act : Action → Anchor → Anchor
unfolding deactivate add
act (reset_token id) store = deactivate id store
act register store = (add store).1

unfoldable pub run_actions : List Action → Anchor → Anchor
unfolding act
run_actions [] store = store
run_actions (a ∷ actions) store = run_actions actions (act a store)

unfoldable pub is_disposed : ℕ → List ℕ → Bool
is_disposed id [] = false
is_disposed id (d ∷ ds) = if d == id then true else is_disposed id ds

abbrev pub logged : ℕ → Option (List ℕ × Anchor) → Option (List ℕ × Anchor)
logged id none = none
logged id (some (calls, store)) = some (id ∷ calls, store)

-- The calls of a snapshot, in order; `behaviour` is what the handler of an id does.
unfoldable pub dispatch : (ℕ → List Action) → List ℕ → Anchor → Option (List ℕ × Anchor)
unfolding run_actions is_disposed
dispatch behaviour [] store = some ([], store)
dispatch behaviour (id ∷ snapshot) store =
    let later = dispatch behaviour snapshot (run_actions (behaviour id) store) in
    if is_disposed id store.disposed then none else logged id later

unfoldable pub active_ids : Anchor → List ℕ
unfolding active_entries
active_ids store = map (λ e. e.id) (active_entries store.entries)

-- The ids called, and the table behind the dispatch.
unfoldable pub notify : (ℕ → List Action) → Anchor → Option (List ℕ × Anchor)
unfolding dispatch active_ids
notify behaviour store = dispatch behaviour (active_ids store) store
