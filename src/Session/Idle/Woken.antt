-- ===== src/Session/Idle/Woken.antt =====
-- The view of the mailbox that an IDLE cycle of state_op_sender.h hands on.
use bkmail.Prelude.{◌≡◌, refl, ap, ◌∙◌, Bool, true, false, ◌&&◌, not, List, [], ◌∷◌, arith, codes}
use bkmail.Error.{success}
use bkmail.Capability.{contains}
use bkmail.Context.Defs.{
  UnsolicitedEvent, exists_event, recent_event, expunge_event, flags_update_event, capability_event,
  bye_event, greeting_event,
}
use bkmail.Session.{
  Connection, MailboxInfo, set_value, selected_state, update_snapshot, finish_operation,
}
use bkmail.Session.Idle.{
  IdleOp, unsent, start, cleanup, complete, wake, on_pushed, on_unsolicited, stop_requested,
  stop_forwarded, Event, pushed, tagged, heartbeat, stop_first, stop_second, delivered, step, run,
}
use bkmail.Session.Idle.Once.{begun, start-begun}

-- Whether a push ends the cycle.
unfoldable pub wakes : UnsolicitedEvent → Bool
wakes (exists_event count) = true
wakes (expunge_event number) = true
wakes _ = false

-- The pushes as events, in front of others.
unfoldable pub pushes : List UnsolicitedEvent → List Event → List Event
pushes [] events = events
pushes (p ∷ ps) events = pushed p ∷ pushes ps events

unfoldable pub none_wakes : List UnsolicitedEvent → Bool
unfolding wakes
none_wakes [] = true
none_wakes (p ∷ ps) = not (wakes p) && none_wakes ps

unfoldable pub follow : List UnsolicitedEvent → MailboxInfo → MailboxInfo
unfolding update_snapshot
follow [] snapshot = snapshot
follow (p ∷ ps) snapshot = follow ps (update_snapshot p snapshot)

quiet_push :
    (p : UnsolicitedEvent) (snapshot : MailboxInfo) (connection : Connection)
    → wakes p ≡ false
    → step (pushed p) (begun snapshot connection) ≡ begun (update_snapshot p snapshot) connection
unfolding step begun on_unsolicited on_pushed update_snapshot wakes
quiet_push (exists_event count) snapshot connection h = ground arith
quiet_push (expunge_event number) snapshot connection h = ground arith
quiet_push (recent_event count) snapshot connection h = refl
quiet_push (flags_update_event number) snapshot connection h = refl
quiet_push (capability_event names) snapshot connection h = refl
quiet_push (bye_event message code) snapshot connection h = refl
quiet_push (greeting_event status message code) snapshot connection h = refl

quiet_pushes :
    (ps : List UnsolicitedEvent) (events : List Event) (snapshot : MailboxInfo)
    (connection : Connection)
    → none_wakes ps ≡ true
    → run (pushes ps events) (begun snapshot connection)
      ≡ run events (begun (follow ps snapshot) connection)
unfolding run pushes none_wakes follow
quiet_pushes [] events snapshot connection h = refl
quiet_pushes (p ∷ ps) events snapshot connection h =
    ap (run (pushes ps events)) (quiet_push p snapshot connection (ground arith))
    ∙ quiet_pushes ps events (update_snapshot p snapshot) connection (ground arith)

-- Nobody completes the cycle any more.
abbrev is_over : IdleOp → Bool
is_over s = s.completed && (not s.registered && (not s.armed && (not s.forwarding && not s.posted)))

step_over : (e : Event) (s : IdleOp) → is_over s ≡ true → step e s ≡ s
unfolding step on_unsolicited wake stop_requested stop_forwarded
step_over (pushed event) s h = ground arith
step_over (tagged ec) s h = ground arith
step_over heartbeat s h = ground arith
step_over stop_first s h = ground arith
step_over stop_second s h = ground arith
step_over delivered s h = ground arith

run_over : (events : List Event) (s : IdleOp) → is_over s ≡ true → run events s ≡ s
unfolding run
run_over [] s h = refl
run_over (e ∷ events) s h = ap (run events) (step_over e s h) ∙ run_over events s h

-- The cycle behind a wake.
woken_with : MailboxInfo → Connection → IdleOp
unfolding finish_operation
woken_with snapshot connection =
    record (unsent snapshot (finish_operation connection)
      (set_value success (selected_state (finish_operation connection) snapshot) ∷ [])) {
        woken = 1;
        completed = true;
        listening = true;
      }

push_waking :
    (p : UnsolicitedEvent) (snapshot : MailboxInfo) (connection : Connection)
    → wakes p ≡ true
    → step (pushed p) (begun snapshot connection)
      ≡ woken_with (update_snapshot p snapshot) connection
unfolding step begun on_unsolicited on_pushed wake cleanup complete finish_operation update_snapshot
    wakes woken_with
push_waking (exists_event count) snapshot connection h = refl
push_waking (expunge_event number) snapshot connection h = refl
push_waking (recent_event count) snapshot connection h = ground arith
push_waking (flags_update_event number) snapshot connection h = ground arith
push_waking (capability_event names) snapshot connection h = ground arith
push_waking (bye_event message code) snapshot connection h = ground arith
push_waking (greeting_event status message code) snapshot connection h = ground arith

heartbeat_waking :
    (snapshot : MailboxInfo) (connection : Connection)
    → step heartbeat (begun snapshot connection) ≡ woken_with snapshot connection
unfolding step begun wake cleanup complete finish_operation woken_with
heartbeat_waking snapshot connection = refl

woken_over :
    (snapshot : MailboxInfo) (connection : Connection)
    → is_over (woken_with snapshot connection) ≡ true
unfolding woken_with
woken_over snapshot connection = refl

run_waking :
    (e : Event) (after snapshot : MailboxInfo) (connection : Connection) (later : List Event)
    → step e (begun snapshot connection) ≡ woken_with after connection
    → run (e ∷ later) (begun snapshot connection) ≡ woken_with after connection
unfolding run
run_waking e after snapshot connection later h =
    ap (run later) h ∙ run_over later (woken_with after connection) (woken_over after connection)

-- With IDLE among the capabilities, the first EXISTS, EXPUNGE or heartbeat completes the cycle without an
-- error and asks for DONE once; the successor has the snapshot as the handler of the selected state keeps it over
-- the pushes up to there, and nothing that follows changes it.
pub run_woken :
    (ps : List UnsolicitedEvent) (waking : UnsolicitedEvent) (later : List Event)
    (snapshot : MailboxInfo) (connection : Connection)
    → contains (codes "IDLE") connection.capabilities ≡ true
    → none_wakes ps ≡ true
    → wakes waking ≡ true
    → ((run (pushes ps (pushed waking ∷ later)) (start false snapshot connection)).outcomes
        ≡ set_value success (
            selected_state
              (finish_operation connection)
              (update_snapshot waking (follow ps snapshot)))
          ∷ [])
      × ((run (pushes ps (heartbeat ∷ later)) (start false snapshot connection)).outcomes
          ≡ set_value success (selected_state (finish_operation connection) (follow ps snapshot))
            ∷ [])
      × ((run (pushes ps (pushed waking ∷ later)) (start false snapshot connection)).woken ≡ 1)
      × ((run (pushes ps (heartbeat ∷ later)) (start false snapshot connection)).woken ≡ 1)
run_woken ps waking later snapshot connection h q w =
    let view = follow ps snapshot in
    rw
      (
        start-begun snapshot connection h,
        quiet_pushes ps (pushed waking ∷ later) snapshot connection q,
        quiet_pushes ps (heartbeat ∷ later) snapshot connection q,
        run_waking (pushed waking) (update_snapshot waking view) view connection later
            (push_waking waking view connection w),
        run_waking heartbeat view view connection later (heartbeat_waking view connection),
      )
      (unfold woken_with in (refl, refl, refl, refl))
