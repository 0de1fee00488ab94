-- ===== src/Context/Ownership/Once.antt =====
-- Where the cells of a context are after a history of steps (Context/Run).
use bkmail.Prelude.{ℕ, ◌+◌, ◌≡◌, List, [], ◌∷◌, arith, ◌==◌, ltb}
use bkmail.Context.Defs.{Context}
use bkmail.Context.Run.{
  Event, submits, cancels, flushes, closes, abandons, kicks, arms, stops, writes_done, reads_done,
  step, run, initial,
}
use bkmail.Context.Teardown.{close, abandon}
use bkmail.Context.Submit.{cancel, post_kick, run_posted_stop}
use bkmail.Context.WritePump.{run_kick, arm, on_write_done}
use bkmail.Context.Read.{read_done}
use bkmail.Context.Count.{one_if}
use bkmail.Context.Ownership.{
  owned, Keeps, submit-count, cancel-Keeps, post_kick-Keeps, close-Keeps, abandon-Keeps,
  run_posted_stop-Keeps,
}
use bkmail.Context.Ownership.Writes.{run_kick-Keeps, arm-Keeps, on_write_done-Keeps}
use bkmail.Context.Ownership.Reads.{read_done-Keeps}

-- The numbers that were given out are owned once, and no other.
abbrev pub IsOnce : ℕ → Context → Type 0
IsOnce i c = owned i c ≡ one_if (ltb i c.next_id)

Keeps-IsOnce : (i : ℕ) (c c' : Context) → Keeps i c c' → IsOnce i c → IsOnce i c'
Keeps-IsOnce i c c' (p, q) h = ground (arith, p, q, h)

one_more : (i n : ℕ) → one_if (n == i) + one_if (ltb i n) ≡ one_if (ltb i (n + 1))
one_more i n = ground arith

-- Every step of a context, whatever its state, keeps every number owned as often as it should be.
pub step-IsOnce : (e : Event) (i : ℕ) (c : Context) → IsOnce i c → IsOnce i (step e c)
unfolding step
step-IsOnce (submits render callback_path stop_seen kick) i c h =
    ground (arith, submit-count i render callback_path stop_seen kick c, one_more i c.next_id, h)
step-IsOnce (cancels tag) i c h = Keeps-IsOnce i c (cancel tag c) (cancel-Keeps i tag c) h
step-IsOnce flushes i c h = Keeps-IsOnce i c (post_kick c) (post_kick-Keeps i c) h
step-IsOnce closes i c h = Keeps-IsOnce i c (close c) (close-Keeps i c) h
step-IsOnce abandons i c h = Keeps-IsOnce i c (abandon c) (abandon-Keeps i c) h
step-IsOnce (kicks ec) i c h = Keeps-IsOnce i c (run_kick ec c) (run_kick-Keeps i ec c) h
step-IsOnce arms i c h = Keeps-IsOnce i c (arm c) (arm-Keeps i c) h
step-IsOnce stops i c h = Keeps-IsOnce i c (run_posted_stop c) (run_posted_stop-Keeps i c) h
step-IsOnce (writes_done ec) i c h =
    Keeps-IsOnce i c (on_write_done ec c) (on_write_done-Keeps i ec c) h
step-IsOnce (reads_done ec bytes) i c h =
    Keeps-IsOnce i c (read_done ec bytes c) (read_done-Keeps i ec bytes c) h

run_from : (es : List Event) (i : ℕ) (c : Context) → IsOnce i c → IsOnce i (run es c)
unfolding run
run_from [] i c h = h
run_from (e ∷ es) i c h = run_from es i (step e c) (step-IsOnce e i c h)

-- After any history of a new context, each operation that was submitted is in exactly one place, and
-- there once: in the write queue, posted as stopped, told to its target, or dropped with the shell.
-- No operation is lost, and none is told or queued twice.
pub run-IsOnce : (es : List Event) (i : ℕ) → IsOnce i (run es initial)
run-IsOnce es i = run_from es i initial (ground arith)
