-- ===== src/Session/Idle.antt =====
-- `idle_op_operation` of include/bkmail/imap/state/detail/state_op_sender.h: one IDLE cycle, behind the start
-- that found IDLE among the capabilities. `woken` counts the cancels of the pending command, which end it
-- with DONE. A cancel leaves no handler registered here: one that stays, since the context is not open, finds
-- `completed` set and does nothing. The forwarder of a stop may be overtaken by what runs on the io thread.
pub mod Once
pub mod Woken
use bkmail.Prelude.{
  ℕ, zero, suc, ◌+◌, ◌-◌, Bool, true, false, not, List, [], ◌∷◌, if◌then◌else◌, codes,
}
use bkmail.Error.{ErrorCode, success, capability_required}
use bkmail.Capability.{contains}
use bkmail.Context.Defs.{UnsolicitedEvent, exists_event, recent_event, expunge_event}
use bkmail.Session.{
  Connection, MailboxInfo, Outcome, set_value, set_stopped, SessionState, selected_state,
  finish_operation,
}

pub record IdleOp : Type 0 where
  pub connection : Connection
  pub snapshot : MailboxInfo
  -- the context holds the handler of the IDLE command
  pub registered : Bool
  pub woken : ℕ
  -- the unsolicited hook and the heartbeat are in place; they stay until the operation is destroyed
  pub listening : Bool
  pub completed : Bool
  -- the stop callback is in place and did not fire yet
  pub armed : Bool
  pub forwarding : Bool
  pub posted : Bool
  pub outcomes : List (Outcome SessionState)

-- An operation over its connection, that has not sent anything.
abbrev pub unsent : MailboxInfo → Connection → List (Outcome SessionState) → IdleOp
unsent snapshot connection outcomes = record {
  connection = connection;
  snapshot = snapshot;
  registered = false;
  woken = 0;
  listening = false;
  completed = false;
  armed = false;
  forwarding = false;
  posted = false;
  outcomes = outcomes;
}

-- `start`, with whether a stop was requested before.
unfoldable pub start : Bool → MailboxInfo → Connection → IdleOp
unfolding contains finish_operation
start stop_requested snapshot connection =
    let finished = finish_operation connection in
    if stop_requested
    then unsent snapshot finished (set_stopped ∷ [])
    else if not (contains (codes "IDLE") connection.capabilities)
    then unsent snapshot finished
        (set_value capability_required (selected_state finished snapshot) ∷ [])
    else record (unsent snapshot (record connection { busy = true }) []) {
      registered = true;
      listening = true;
      armed = true;
    }

unfoldable pub cleanup : IdleOp → IdleOp
unfolding finish_operation
cleanup s = record s { armed = false; connection = finish_operation s.connection }

unfoldable pub complete : ErrorCode → IdleOp → IdleOp
complete ec s = record s {
  outcomes = set_value ec (selected_state s.connection s.snapshot) ∷ s.outcomes;
}

-- An unsolicited EXISTS or EXPUNGE, or the heartbeat.
unfoldable pub wake : IdleOp → IdleOp
unfolding cleanup complete
wake s =
    let claimed = record s { completed = true; registered = false; woken = s.woken + 1 } in
    let after = complete success (cleanup claimed) in if s.completed then s else after

unfoldable pub on_pushed : UnsolicitedEvent → IdleOp → IdleOp
unfolding wake
on_pushed (exists_event count) s =
    wake (record s { snapshot = record s.snapshot { exists = count } })
on_pushed (expunge_event number) s =
    wake (record s { snapshot = record s.snapshot { exists = s.snapshot.exists - 1 } })
on_pushed (recent_event count) s = record s { snapshot = record s.snapshot { recent = count } }
on_pushed _ s = s

-- Pushes behind the completion are dropped before the snapshot is touched.
unfoldable pub on_unsolicited : UnsolicitedEvent → IdleOp → IdleOp
unfolding on_pushed
on_unsolicited event s = let after = on_pushed event s in if s.completed then s else after

unfoldable pub on_tagged : ErrorCode → IdleOp → IdleOp
unfolding cleanup complete
on_tagged ec s =
    let after = complete ec (cleanup (record s { completed = true })) in
    if s.completed then s else after

unfoldable pub stop_requested : IdleOp → IdleOp
stop_requested s =
    if s.armed
    then record s { armed = false; completed = true; forwarding = not s.completed }
    else s

unfoldable pub stop_forwarded : IdleOp → IdleOp
unfolding cleanup
stop_forwarded s =
    let after =
      cleanup (record s { forwarding = false; registered = false; woken = s.woken + 1 }) in
    if s.forwarding then record after { posted = true } else s

pub data Event : Type 0 where
  pushed : UnsolicitedEvent → Event
  tagged : ErrorCode → Event
  heartbeat stop_first stop_second delivered : Event

unfoldable pub step : Event → IdleOp → IdleOp
unfolding on_unsolicited on_tagged wake stop_requested stop_forwarded
step (pushed event) s = let after = on_unsolicited event s in if s.listening then after else s
step (tagged ec) s =
    let after = on_tagged ec (record s { registered = false }) in if s.registered then after else s
step heartbeat s = let after = wake s in if s.listening then after else s
step stop_first s = stop_requested s
step stop_second s = stop_forwarded s
step delivered s =
    if s.posted then record s { posted = false; outcomes = set_stopped ∷ s.outcomes } else s

unfoldable pub run : List Event → IdleOp → IdleOp
unfolding step
run [] s = s
run (e ∷ events) s = run events (step e s)
