-- ===== src/Unsolicited/Registrations.antt =====
-- What registering and destroying a token in unsolicited_table.h do to the active handlers.
use bkmail.Prelude.{
  ℕ, suc, ◌<◌, ◌≡◌, refl, inl, inr, List, [], ◌∷◌, map, ◌==◌, if◌then◌else◌, arith, Bool-cases,
}
use bkmail.Unsolicited.{Entry, Anchor, deactivate_in, deactivate, active_entries, active_ids}
use bkmail.Unsolicited.Entries.{IsAscending}
use bkmail.Unsolicited.Table.{IsTable}

-- The list less an id.
unfoldable pub without_id : ℕ → List ℕ → List ℕ
without_id id [] = []
without_id id (x ∷ xs) = if x == id then without_id id xs else x ∷ without_id id xs

-- An id below all is not there.
without_below :
    (id low : ℕ) (es : List Entry) (high : ℕ)
    → id < low
    → IsAscending low es high
    → without_id id (map (λ e. e.id) (active_entries es)) ≡ map (λ e. e.id) (active_entries es)
unfolding without_id IsAscending active_entries
without_below id low [] high p h = refl
without_below id low (e ∷ es) high p (q, h) = elim (Bool-cases e.active) [
  | inl active ↦ rw active (ground (arith, without_below id (suc e.id) es high))
  | inr marked ↦ rw marked (without_below id (suc e.id) es high (omega arith) h)
]

ids_deactivate :
    (id low : ℕ) (es : List Entry) (high : ℕ)
    → IsAscending low es high
    → map (λ e. e.id) (active_entries (deactivate_in id es))
      ≡ without_id id (map (λ e. e.id) (active_entries es))
unfolding without_id IsAscending active_entries deactivate_in
ids_deactivate id low [] high h = refl
ids_deactivate id low (e ∷ es) high (p, h) = ground (
  arith,
  ids_deactivate id (suc e.id) es high h,
  without_below e.id (suc e.id) es high (omega arith) h,
)

-- In a table with the invariant, a destroyed token takes its handler out of the active ones, and leaves
-- the others in their order.
pub active_ids-deactivate :
    (id : ℕ) (store : Anchor)
    → IsTable store
    → active_ids (deactivate id store) ≡ without_id id (active_ids store)
unfolding active_ids deactivate IsTable
active_ids-deactivate id store (ascending, _, _) =
    ids_deactivate id 0 store.entries store.next_id ascending
