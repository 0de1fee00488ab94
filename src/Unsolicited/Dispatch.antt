-- ===== src/Unsolicited/Dispatch.antt =====
-- What unsolicited_table.h keeps true of its entries, and whom a dispatch calls.
use bkmail.Prelude.{
  ℕ, ◌≡◌, refl, sym, ◌∙◌, Bool, true, false, ◌&&◌, List, [], ◌∷◌, map, some, arith, subst,
}
use bkmail.Unsolicited.{
  Entry, Anchor, deactivate_in, deactivate, active_entries, Action, reset_token, register, act,
  run_actions, is_disposed, dispatch, active_ids, notify,
}
use bkmail.Unsolicited.Entries.{IsLive, IsLive-active}
use bkmail.Unsolicited.Table.{IsTable}

abbrev pub is_reset : Action → Bool
is_reset (reset_token id) = true
is_reset register = false

abbrev pub all_resets : List Action → Bool
all_resets [] = true
all_resets (a ∷ actions) = is_reset a && all_resets actions

-- A destroyed token marks an entry, and frees none.
ids_deactivate :
    (id : ℕ) (es : List Entry) → map (λ e. e.id) (deactivate_in id es) ≡ map (λ e. e.id) es
unfolding deactivate_in
ids_deactivate id [] = refl
ids_deactivate id (e ∷ es) = ground (arith, ids_deactivate id es)

run_resets :
    (actions : List Action) (store : Anchor)
    → all_resets actions ≡ true
    → ((run_actions actions store).disposed ≡ store.disposed)
      × (map (λ e. e.id) (run_actions actions store).entries ≡ map (λ e. e.id) store.entries)
      × ((run_actions actions store).next_id ≡ store.next_id)
unfolding run_actions act deactivate
run_resets [] store h = (refl, refl, refl)
run_resets (reset_token id ∷ actions) store h =
    let (p, q, r) = run_resets actions (deactivate id store) h in
    (p, q ∙ ids_deactivate id store.entries, r)
run_resets (register ∷ actions) store h = ground arith

unfoldable AllLive : List ℕ → List ℕ → Type 0
AllLive disposed [] = Unit {0}
AllLive disposed (id ∷ ids) = (is_disposed id disposed ≡ false) × AllLive disposed ids

all_live :
    (disposed : List ℕ) (es : List Entry)
    → IsLive disposed es
    → AllLive disposed (map (λ e. e.id) es)
unfolding IsLive AllLive
all_live disposed [] live = live
all_live disposed (e ∷ es) (here, later) = (here, all_live disposed es later)

dispatch_resets :
    (behaviour : ℕ → List Action) (snapshot : List ℕ) (store : Anchor)
    → ((id : ℕ) → all_resets (behaviour id) ≡ true)
    → AllLive store.disposed snapshot
    → (after : Anchor) × (dispatch behaviour snapshot store ≡ some (snapshot, after))
      × (after.disposed ≡ store.disposed)
      × (map (λ e. e.id) after.entries ≡ map (λ e. e.id) store.entries)
unfolding dispatch AllLive
dispatch_resets behaviour [] store only live = (store, refl, refl, refl)
dispatch_resets behaviour (id ∷ snapshot) store only (here, later) =
    let next = run_actions (behaviour id) store in
    let (kept, same, _) = run_resets (behaviour id) store (only id) in
    let (after, calls, p, q) =
      dispatch_resets behaviour snapshot next only
        (subst (λ d. AllLive d snapshot) (sym kept) later) in
    (after, rw (here, calls) refl, p ∙ kept, q ∙ same)

-- In a table with the invariant, a dispatch whose handlers destroy tokens and register nothing calls the
-- handlers that were active when it started, each once and in the order of registration, also those whose
-- token is destroyed by an earlier one of them; no cell is disposed of, and all entries stay.
pub notify_resets :
    (behaviour : ℕ → List Action) (store : Anchor)
    → IsTable store
    → ((id : ℕ) → all_resets (behaviour id) ≡ true)
    → (after : Anchor) × (notify behaviour store ≡ some (active_ids store, after))
      × (after.disposed ≡ store.disposed)
      × (map (λ e. e.id) after.entries ≡ map (λ e. e.id) store.entries)
unfolding notify active_ids IsTable
notify_resets behaviour store (_, live, _) only =
    dispatch_resets behaviour (active_ids store) store only (
      all_live store.disposed (active_entries store.entries)
        (IsLive-active store.disposed store.entries live))
