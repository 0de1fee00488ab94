-- ===== src/Unsolicited/Table.antt =====
-- The invariant of the table in unsolicited_table.h: the ids ascend, so they are distinct, and no entry of
-- the table is disposed of.
use bkmail.Prelude.{ℕ, suc, ◌+◌, ◌%◌, ◌^◌, ◌<◌, ◌≡◌, true, List, [], ◌∷◌, ◌++◌, map, arith, length}
use bkmail.Unsolicited.{
  Anchor, new_anchor, deactivate, active_entries, inactive_entries, compact_locked, add, Action,
  reset_token, register, act, run_actions,
}
use bkmail.Unsolicited.Entries.{
  IsAscending, IsLive, IsBelow, IsAscending-active, IsAscending-deactivate, IsAscending-last,
  IsLive-compacted, IsLive-active, IsLive-deactivate, IsLive-append, IsBelow-append, IsBelow-next,
  IsBelow-inactive, below_live, IsLive-last,
}

unfoldable pub IsTable : Anchor → Type 0
unfolding IsAscending IsLive IsBelow
IsTable store =
    IsAscending 0 store.entries store.next_id
    × IsLive store.disposed store.entries
    × IsBelow store.disposed store.next_id

deactivate-IsTable : (id : ℕ) (store : Anchor) → IsTable store → IsTable (deactivate id store)
unfolding IsTable deactivate
deactivate-IsTable id store (ascending, live, below) = (
  IsAscending-deactivate id 0 store.entries store.next_id ascending,
  IsLive-deactivate id store.disposed store.entries live,
  below,
)

add-IsTable : (store : Anchor) → store.next_id + 1 < 2 ^ 64 → IsTable store → IsTable (add store).1
unfolding IsTable add compact_locked
add-IsTable store bound (ascending, live, below) =
    let gone = map (λ e. e.id) (inactive_entries store.entries) in
    let all_below =
      IsBelow-append store.disposed gone store.next_id below
        (IsBelow-inactive 0 store.entries store.next_id ascending) in
    rw (mod_small store.next_id bound) (
      IsAscending-last 0 (active_entries store.entries) store.next_id true
          (IsAscending-active 0 store.entries store.next_id ascending),
      IsLive-last (store.disposed ++ gone) (active_entries store.entries)
          (record { id = store.next_id; active = true })
          (IsLive-append store.disposed gone (active_entries store.entries)
            (IsLive-active store.disposed store.entries live)
            (IsLive-compacted 0 store.entries store.next_id ascending))
          (below_live store.next_id (store.disposed ++ gone) store.next_id all_below (omega arith)),
      IsBelow-next (store.disposed ++ gone) store.next_id all_below,
    )
  where
    mod_small : (n : ℕ) → n + 1 < 2 ^ 64 → (n + 1) % 2 ^ 64 ≡ n + 1
    mod_small n h = omega arith

next_deactivate :
    (id : ℕ) (store : Anchor) (more : ℕ)
    → store.next_id + suc more < 2 ^ 64
    → (deactivate id store).next_id + more < 2 ^ 64
unfolding deactivate
next_deactivate id store more h = omega arith

next_add :
    (store : Anchor) (more : ℕ)
    → store.next_id + suc more < 2 ^ 64
    → (add store).1.next_id + more < 2 ^ 64
unfolding add
next_add store more h = omega arith

-- The invariant holds behind every sequence of registrations and destroyed tokens, until 2^64 ids are used.
pub run_actions-IsTable :
    (actions : List Action) (store : Anchor)
    → store.next_id + length actions < 2 ^ 64
    → IsTable store
    → IsTable (run_actions actions store)
unfolding run_actions act
run_actions-IsTable [] store bound h = h
run_actions-IsTable (reset_token id ∷ actions) store bound h =
    run_actions-IsTable actions (deactivate id store)
      (next_deactivate id store (length actions) bound) (deactivate-IsTable id store h)
run_actions-IsTable (register ∷ actions) store bound h =
    run_actions-IsTable actions (add store).1 (next_add store (length actions) bound)
      (add-IsTable store (omega arith) h)

pub new_anchor-IsTable : IsTable new_anchor
unfolding IsTable IsAscending IsLive IsBelow
new_anchor-IsTable = (omega arith, tt, tt)
