-- ===== src/Unsolicited/Entries.antt =====
-- Lists of entries of unsolicited_table.h: ascending ids, and what marking and compacting leave of them.
use bkmail.Prelude.{
  ℕ, suc, ◌+◌, ◌<◌, ◌≤◌, ◌≡◌, refl, inl, inr, Bool, false, List, [], ◌∷◌, ◌++◌, map, ◌==◌, arith,
  Bool-cases,
}
use bkmail.Unsolicited.{Entry, deactivate_in, active_entries, inactive_entries, is_disposed}

-- Strictly ascending ids from one bound up to another.
unfoldable pub IsAscending : ℕ → List Entry → ℕ → Type 0
IsAscending low [] high = low ≤ high
IsAscending low (e ∷ es) high = (low ≤ e.id) × IsAscending (suc e.id) es high

-- No entry is disposed of.
unfoldable pub IsLive : List ℕ → List Entry → Type 0
IsLive disposed [] = Unit {0}
IsLive disposed (e ∷ es) = (is_disposed e.id disposed ≡ false) × IsLive disposed es

-- Every id is below a bound.
unfoldable pub IsBelow : List ℕ → ℕ → Type 0
IsBelow [] high = Unit {0}
IsBelow (id ∷ ids) high = (id < high) × IsBelow ids high

pub IsAscending-from :
    (low further : ℕ) (es : List Entry) (high : ℕ)
    → low ≤ further
    → IsAscending further es high
    → IsAscending low es high
unfolding IsAscending
IsAscending-from low further [] high p h = omega arith
IsAscending-from low further (e ∷ es) high p (q, h) = (omega arith, h)

pub IsAscending-active :
    (low : ℕ) (es : List Entry) (high : ℕ)
    → IsAscending low es high
    → IsAscending low (active_entries es) high
unfolding IsAscending active_entries
IsAscending-active low [] high h = h
IsAscending-active low (e ∷ es) high (p, h) = elim (Bool-cases e.active) [
  | inl active ↦ rw active (p, IsAscending-active (suc e.id) es high h)
  | inr marked ↦ rw marked (
      IsAscending-from low (suc e.id) (active_entries es) high (omega arith)
        (IsAscending-active (suc e.id) es high h))
]

pub IsAscending-deactivate :
    (id low : ℕ) (es : List Entry) (high : ℕ)
    → IsAscending low es high
    → IsAscending low (deactivate_in id es) high
unfolding IsAscending deactivate_in
IsAscending-deactivate id low [] high h = h
IsAscending-deactivate id low (e ∷ es) high (p, h) = elim (Bool-cases (e.id == id)) [
  | inl found ↦ rw found (p, h)
  | inr other ↦ rw other (p, IsAscending-deactivate id (suc e.id) es high h)
]

pub IsAscending-last :
    (low : ℕ) (es : List Entry) (high : ℕ) (active : Bool)
    → IsAscending low es high
    → IsAscending low (es ++ record { id = high; active = active } ∷ []) (high + 1)
unfolding IsAscending
IsAscending-last low [] high active h = (h, omega arith)
IsAscending-last low (e ∷ es) high active (p, h) = (p, IsAscending-last (suc e.id) es high active h)

-- An id below the entries is none of theirs.
pub not_below :
    (id low : ℕ) (es : List Entry) (high : ℕ)
    → IsAscending low es high
    → id < low
    → is_disposed id (map (λ e. e.id) (inactive_entries es)) ≡ false
unfolding IsAscending inactive_entries is_disposed
not_below id low [] high h p = refl
not_below id low (e ∷ es) high (q, h) p = elim (Bool-cases e.active) [
  | inl active ↦ rw active (not_below id (suc e.id) es high h (omega arith))
  | inr marked ↦ rw marked (ground (arith, not_below id (suc e.id) es high h (omega arith)))
]

pub IsLive-disposing :
    (id low : ℕ) (disposed : List ℕ) (es : List Entry) (high : ℕ)
    → id < low
    → IsAscending low es high
    → IsLive disposed es
    → IsLive (id ∷ disposed) es
unfolding IsAscending IsLive is_disposed
IsLive-disposing id low disposed [] high p h live = live
IsLive-disposing id low disposed (e ∷ es) high p (q, h) (here, later) =
    (ground arith, IsLive-disposing id (suc e.id) disposed es high (omega arith) h later)

-- The ids that a compaction disposes of are none of those that it keeps.
pub IsLive-compacted :
    (low : ℕ) (es : List Entry) (high : ℕ)
    → IsAscending low es high
    → IsLive (map (λ e. e.id) (inactive_entries es)) (active_entries es)
unfolding IsAscending IsLive active_entries inactive_entries
IsLive-compacted low [] high h = tt
IsLive-compacted low (e ∷ es) high (p, h) = elim (Bool-cases e.active) [
  | inl active ↦
      rw active
        (not_below e.id (suc e.id) es high h (omega arith), IsLive-compacted (suc e.id) es high h)
  | inr marked ↦ rw marked (
      IsLive-disposing e.id (suc e.id) (map (λ x. x.id) (inactive_entries es)) (active_entries es)
        high (omega arith) (IsAscending-active (suc e.id) es high h)
        (IsLive-compacted (suc e.id) es high h))
]

pub IsLive-active :
    (disposed : List ℕ) (es : List Entry) → IsLive disposed es → IsLive disposed (active_entries es)
unfolding IsLive active_entries
IsLive-active disposed [] live = live
IsLive-active disposed (e ∷ es) (here, later) = elim (Bool-cases e.active) [
  | inl active ↦ rw active (here, IsLive-active disposed es later)
  | inr marked ↦ rw marked (IsLive-active disposed es later)
]

pub IsLive-deactivate :
    (id : ℕ) (disposed : List ℕ) (es : List Entry)
    → IsLive disposed es
    → IsLive disposed (deactivate_in id es)
unfolding IsLive deactivate_in
IsLive-deactivate id disposed [] live = live
IsLive-deactivate id disposed (e ∷ es) (here, later) = elim (Bool-cases (e.id == id)) [
  | inl found ↦ rw found (here, later)
  | inr other ↦ rw other (here, IsLive-deactivate id disposed es later)
]

pub is_disposed-append :
    (id : ℕ) (xs ys : List ℕ)
    → is_disposed id xs ≡ false
    → is_disposed id ys ≡ false
    → is_disposed id (xs ++ ys) ≡ false
unfolding is_disposed
is_disposed-append id [] ys p q = q
is_disposed-append id (x ∷ xs) ys p q = ground (arith, is_disposed-append id xs ys)

pub IsLive-append :
    (xs ys : List ℕ) (es : List Entry) → IsLive xs es → IsLive ys es → IsLive (xs ++ ys) es
unfolding IsLive
IsLive-append xs ys [] p q = p
IsLive-append xs ys (e ∷ es) (p, later) (q, others) =
    (is_disposed-append e.id xs ys p q, IsLive-append xs ys es later others)

pub IsBelow-append :
    (xs ys : List ℕ) (high : ℕ) → IsBelow xs high → IsBelow ys high → IsBelow (xs ++ ys) high
unfolding IsBelow
IsBelow-append [] ys high p q = q
IsBelow-append (x ∷ xs) ys high (p, later) q = (p, IsBelow-append xs ys high later q)

pub IsBelow-next : (xs : List ℕ) (high : ℕ) → IsBelow xs high → IsBelow xs (high + 1)
unfolding IsBelow
IsBelow-next [] high p = p
IsBelow-next (x ∷ xs) high (p, later) = (omega arith, IsBelow-next xs high later)

pub ascending_bound : (low : ℕ) (es : List Entry) (high : ℕ) → IsAscending low es high → low ≤ high
unfolding IsAscending
ascending_bound low [] high h = h
ascending_bound low (e ∷ es) high (p, h) = omega (arith, ascending_bound (suc e.id) es high h)

pub IsBelow-inactive :
    (low : ℕ) (es : List Entry) (high : ℕ)
    → IsAscending low es high
    → IsBelow (map (λ e. e.id) (inactive_entries es)) high
unfolding IsAscending IsBelow inactive_entries
IsBelow-inactive low [] high h = tt
IsBelow-inactive low (e ∷ es) high (p, h) = elim (Bool-cases e.active) [
  | inl active ↦ rw active (IsBelow-inactive (suc e.id) es high h)
  | inr marked ↦
      rw marked (ascending_bound (suc e.id) es high h, IsBelow-inactive (suc e.id) es high h)
]

pub below_live :
    (id : ℕ) (xs : List ℕ) (high : ℕ) → IsBelow xs high → high ≤ id → is_disposed id xs ≡ false
unfolding IsBelow is_disposed
below_live id [] high h p = refl
below_live id (x ∷ xs) high (q, h) p = ground (arith, below_live id xs high h p)

pub IsLive-last :
    (disposed : List ℕ) (es : List Entry) (last : Entry)
    → IsLive disposed es
    → is_disposed last.id disposed ≡ false
    → IsLive disposed (es ++ last ∷ [])
unfolding IsLive
IsLive-last disposed [] last live p = (p, live)
IsLive-last disposed (e ∷ es) last (here, later) p = (here, IsLive-last disposed es last later p)
