-- ===== src/Tests/Operations.antt =====
-- Runs of the session operations, and their properties applied.
use bkmail.Prelude.{◌≡◌, ◌≤◌, refl, true, false, List, [], ◌∷◌, codes, none, length, ◌++◌, some, ℕ}
use bkmail.Error.{ErrorCode, success, bad_command}
use bkmail.Flags.{empty_flags}
use bkmail.Capability.{contains}
use bkmail.Context.Defs.{exists_event, recent_event, expunge_event}
use bkmail.Session.{
  Connection, MailboxInfo, Outcome, set_value, set_stopped, SessionState, not_authenticated_state,
  authenticated_state, selected_state, update_snapshot, finish_operation, auth_branches,
}
use bkmail.Response.{ResponseStatus, UntaggedKind, UntaggedResponse, uidvalidity_code}
use bkmail.Select
use bkmail.Select.Snapshot.{absorb_all}
use bkmail.Select.Wire.{keyword, render_line_end}
use bkmail.Session.Operation
use bkmail.Session.Operation.Once.{run_once}
use bkmail.Session.Idle
use bkmail.Session.Idle.Once.{run_cycle_once}
use bkmail.Session.Idle.Woken.{pushes, follow, run_woken}
use bkmail.Session.StartTls
use bkmail.Session.StartTls.Completes.{run_completes_once, run_stop_in_probe}

abbrev plain : Connection
plain = record { secure = false; capabilities = codes "IDLE" ∷ codes "STARTTLS" ∷ []; busy = false }

-- LOGIN: no result, and the successor by the error code.
abbrev login : ErrorCode → Connection → Unit {0} → SessionState
login ec connection result = auth_branches ec connection

abbrev stop_between : List (Operation.Event (Unit {0}))
stop_between = Operation.stop_first ∷ Operation.replied success tt ∷ []

run_once_example :
    (length
        (Operation.run login stop_between
          (Operation.start false (codes "IDLE") login tt plain)).outcomes
      ≤ 1)
    × (length
          (Operation.run login
            (Operation.stop_first ∷ Operation.stop_second false ∷ Operation.delivered ∷ [])
            (Operation.run login stop_between
              (Operation.start false (codes "IDLE") login tt plain))).outcomes
        ≡ 1)
run_once_example = run_once login false (codes "IDLE") tt plain stop_between false

abbrev mailbox : MailboxInfo
mailbox = record {
  name = codes "INBOX";
  exists = 3;
  recent = 0;
  unseen = none;
  uid_validity = 1;
  uid_next = 4;
  flags = empty_flags;
  permanent_flags = empty_flags;
  read_only = false;
}

run_cycle_once_example :
    (length
        (Idle.run (Idle.heartbeat ∷ Idle.stop_first ∷ []) (Idle.start false mailbox plain)).outcomes
      ≤ 1)
    × ((Idle.run (Idle.heartbeat ∷ Idle.stop_first ∷ []) (Idle.start false mailbox plain)).woken
        ≤ 1)
    × (length
          (Idle.run (Idle.stop_first ∷ Idle.stop_second ∷ Idle.delivered ∷ []) (
            Idle.run
              (Idle.heartbeat ∷ Idle.stop_first ∷ [])
              (Idle.start false mailbox plain))).outcomes
        ≡ 1)
unfolding contains
run_cycle_once_example = run_cycle_once mailbox plain (Idle.heartbeat ∷ Idle.stop_first ∷ []) refl

run_woken_example :
    ((Idle.run
        (pushes
          (recent_event 1 ∷ [])
          (Idle.pushed (expunge_event 2) ∷ Idle.pushed (exists_event 9) ∷ []))
        (Idle.start false mailbox plain)).outcomes
      ≡ set_value success (
          selected_state
            (finish_operation plain)
            (update_snapshot (expunge_event 2) (follow (recent_event 1 ∷ []) mailbox)))
        ∷ [])
    × ((Idle.run
          (pushes (recent_event 1 ∷ []) (Idle.heartbeat ∷ Idle.pushed (exists_event 9) ∷ []))
          (Idle.start false mailbox plain)).outcomes
        ≡ set_value success
            (selected_state (finish_operation plain) (follow (recent_event 1 ∷ []) mailbox))
          ∷ [])
    × ((Idle.run
          (pushes
            (recent_event 1 ∷ [])
            (Idle.pushed (expunge_event 2) ∷ Idle.pushed (exists_event 9) ∷ []))
          (Idle.start false mailbox plain)).woken
        ≡ 1)
    × ((Idle.run
          (pushes (recent_event 1 ∷ []) (Idle.heartbeat ∷ Idle.pushed (exists_event 9) ∷ []))
          (Idle.start false mailbox plain)).woken
        ≡ 1)
unfolding contains bkmail.Session.Idle.Woken.none_wakes
run_woken_example =
    run_woken (recent_event 1 ∷ []) (expunge_event 2) (Idle.pushed (exists_event 9) ∷ []) mailbox
      plain refl refl refl

run_completes_once_example :
    length
      (StartTls.run
        (StartTls.stop_first ∷ StartTls.replied success [] ∷ StartTls.stop_second false ∷ [])
        (StartTls.start false plain)).outcomes
    ≤ 1
run_completes_once_example =
    run_completes_once false plain
      (StartTls.stop_first ∷ StartTls.replied success [] ∷ StartTls.stop_second false ∷ [])

run_stop_in_probe_example :
    ((StartTls.run
        (StartTls.replied success []
          ∷ StartTls.handshaken success
          ∷ StartTls.stop_first
          ∷ StartTls.stop_second true
          ∷ StartTls.replied success []
          ∷ StartTls.delivered
          ∷ [])
        (StartTls.start false plain)).outcomes
      ≡ [])
    × ((StartTls.run
          (StartTls.replied success []
            ∷ StartTls.handshaken success
            ∷ StartTls.stop_first
            ∷ StartTls.stop_second false
            ∷ StartTls.replied bad_command []
            ∷ StartTls.replied success []
            ∷ StartTls.delivered
            ∷ [])
          (StartTls.start false plain)).outcomes
        ≡ set_stopped ∷ [])
run_stop_in_probe_example =
    run_stop_in_probe plain [] (StartTls.replied success [] ∷ StartTls.delivered ∷ []) bad_command
      []

abbrev line : UntaggedKind → ℕ → UntaggedResponse
line kind number = record {
  kind = kind;
  number = number;
  status = ResponseStatus.ok;
  code = none;
  text = [];
  payload = codes "FLAGS (\\Seen \\Draft)";
}

abbrev numbered : UntaggedResponse
numbered = record (line UntaggedKind.ok 0) { code = some (uidvalidity_code 3857) }

abbrev lines : List UntaggedResponse
lines =
    (line UntaggedKind.exists 1 ∷ numbered ∷ [])
    ++ line UntaggedKind.exists 7 ∷ line UntaggedKind.flags 0 ∷ []

abbrev select_state : Select.SelectCommand
select_state = absorb_all lines (Select.new_select true (codes "INBOX"))

select_flags :
    (Select.on_untagged (line UntaggedKind.flags 0) (Select.new_select false [])).flags.bits ≡ 17
unfolding Select.on_untagged
select_flags = refl

render_line_end_example :
    (Select.render
      (codes "a1")
      (Select.new_select false (codes "x" ++ b'\r' ∷ b'\n' ∷ codes "a2 LOGOUT"))).wire
    ≡ (codes "a1" ++ (keyword false ++ b'"' ∷ codes "x"))
      ++ b'\r' ∷ b'\n' ∷ (codes "a2 LOGOUT" ++ b'"' ∷ codes "\r\n")
render_line_end_example =
    render_line_end false (codes "a1") (codes "x") (codes "a2 LOGOUT") refl refl
