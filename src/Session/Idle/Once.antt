-- ===== src/Session/Idle/Once.antt =====
-- How often an IDLE cycle of state_op_sender.h completes.
use bkmail.Prelude.{
  ℕ, ◌+◌, ◌-◌, ◌≤◌, ◌≡◌, refl, Bool, true, false, ◌&&◌, ◌||◌, not, List, [], ◌∷◌, arith, length,
  codes,
}
use bkmail.Capability.{contains}
use bkmail.Context.Defs.{
  UnsolicitedEvent, exists_event, recent_event, expunge_event, flags_update_event, capability_event,
  bye_event, greeting_event,
}
use bkmail.Session.{Connection, MailboxInfo}
use bkmail.Session.Idle.{
  IdleOp, unsent, start, cleanup, complete, wake, on_pushed, on_unsolicited, on_tagged,
  stop_requested, stop_forwarded, Event, pushed, tagged, heartbeat, stop_first, stop_second,
  delivered, step, run,
}

abbrev bit : Bool → ℕ
bit true = 1
bit false = 0

-- Exactly one party holds the completion or it was delivered, and DONE is asked for only by who claimed
-- the completion.
unfoldable pub IsCycle : IdleOp → Type 0
IsCycle s =
    (bit (not s.completed) + (bit s.forwarding + (bit s.posted + length s.outcomes)) ≡ 1)
    × ((s.completed || (s.registered && s.armed)) ≡ true)
    × ((s.armed && s.completed) ≡ false)
    × (s.woken + (bit (not s.completed) + bit s.forwarding) ≤ 1)

wake-IsCycle : (s : IdleOp) → IsCycle s → IsCycle (wake s)
unfolding IsCycle wake complete cleanup
wake-IsCycle s h = ground arith

on_pushed-IsCycle :
    (event : UnsolicitedEvent) (s : IdleOp) → IsCycle s → IsCycle (on_pushed event s)
unfolding on_pushed IsCycle
on_pushed-IsCycle (exists_event count) s h =
    wake-IsCycle (record s { snapshot = record s.snapshot { exists = count } }) h
on_pushed-IsCycle (expunge_event number) s h =
    wake-IsCycle (record s { snapshot = record s.snapshot { exists = s.snapshot.exists - 1 } }) h
on_pushed-IsCycle (recent_event count) s h = h
on_pushed-IsCycle (flags_update_event number) s h = h
on_pushed-IsCycle (capability_event names) s h = h
on_pushed-IsCycle (bye_event message code) s h = h
on_pushed-IsCycle (greeting_event status message code) s h = h

step-IsCycle : (e : Event) (s : IdleOp) → IsCycle s → IsCycle (step e s)
unfolding step IsCycle on_unsolicited on_tagged complete cleanup stop_requested stop_forwarded
step-IsCycle (pushed event) s h = ground (arith, on_pushed-IsCycle event s h)
step-IsCycle (tagged ec) s h = ground arith
step-IsCycle heartbeat s h = ground (arith, wake-IsCycle s h)
step-IsCycle stop_first s h = ground arith
step-IsCycle stop_second s h = ground arith
step-IsCycle delivered s h = ground arith

run-IsCycle : (events : List Event) (s : IdleOp) → IsCycle s → IsCycle (run events s)
unfolding run
run-IsCycle [] s h = h
run-IsCycle (e ∷ events) s h = run-IsCycle events (step e s) (step-IsCycle e s h)

unfoldable pub begun : MailboxInfo → Connection → IdleOp
begun snapshot connection = record (unsent snapshot (record connection { busy = true }) []) {
  registered = true;
  listening = true;
  armed = true;
}

pub start-begun :
    (snapshot : MailboxInfo) (connection : Connection)
    → contains (codes "IDLE") connection.capabilities ≡ true
    → start false snapshot connection ≡ begun snapshot connection
unfolding start begun
start-begun snapshot connection h = rw h refl

begun-IsCycle :
    (snapshot : MailboxInfo) (connection : Connection) → IsCycle (begun snapshot connection)
unfolding IsCycle begun
begun-IsCycle snapshot connection = (refl, refl, refl, omega arith)

at_most_one : (s : IdleOp) → IsCycle s → (length s.outcomes ≤ 1) × (s.woken ≤ 1)
unfolding IsCycle
at_most_one s h = (ground arith, ground arith)

stopped_one :
    (s : IdleOp)
    → IsCycle s
    → length (run (stop_first ∷ stop_second ∷ delivered ∷ []) s).outcomes ≡ 1
unfolding IsCycle run step stop_requested stop_forwarded cleanup
stopped_one s h = ground arith

-- With IDLE among the capabilities, a cycle completes at most once and asks for DONE at most once, for
-- every order of pushes, tagged replies, heartbeats and a stop with its forwarder overtaken; and behind a
-- stop, its forwarder and the posted delivery it has completed.
pub run_cycle_once :
    (snapshot : MailboxInfo) (connection : Connection) (events : List Event)
    → contains (codes "IDLE") connection.capabilities ≡ true
    → (length (run events (start false snapshot connection)).outcomes ≤ 1)
      × ((run events (start false snapshot connection)).woken ≤ 1)
      × (length
            (run
              (stop_first ∷ stop_second ∷ delivered ∷ [])
              (run events (start false snapshot connection))).outcomes
          ≡ 1)
run_cycle_once snapshot connection events h = rw (start-begun snapshot connection h) (
  (at_most_one (run events (begun snapshot connection)) kept).0,
  (at_most_one (run events (begun snapshot connection)) kept).1,
  stopped_one (run events (begun snapshot connection)) kept,
)
  where
    kept : IsCycle (run events (begun snapshot connection))
    kept = run-IsCycle events (begun snapshot connection) (begun-IsCycle snapshot connection)
