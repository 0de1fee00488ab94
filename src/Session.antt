-- ===== src/Session.antt =====
-- The session layer: include/bkmail/imap/imap_connection.h as far as its members go, the session states of
-- include/bkmail/imap/state/ with the successors of detail/state_op_sender.h, and the mailbox snapshot.
pub mod Operation
pub mod Idle
pub mod StartTls
pub mod Issued
pub mod Calls
use bkmail.Prelude.{
  ℕ, zero, suc, ◌+◌, ◌-◌, Bool, true, false, List, [], ◌∷◌, Option, none, some, ◌==◌, if◌then◌else◌,
  Bytes,
}
use bkmail.Flags.{FlagSet}
use bkmail.Error.{ErrorCode, is_error}
use bkmail.Capability.{CapabilitySet}
use bkmail.Context.Defs.{UnsolicitedEvent, exists_event, recent_event, expunge_event}

-- `imap_connection`: whether the context is the one over TLS, the cache, and the seriality guard.
pub record Connection : Type 0 where
  pub secure : Bool
  pub capabilities : CapabilitySet
  pub busy : Bool

-- `mailbox_info`.
pub record MailboxInfo : Type 0 where
  pub name : Bytes
  pub exists : ℕ
  pub recent : ℕ
  pub unseen : Option ℕ
  pub uid_validity : ℕ
  pub uid_next : ℕ
  pub flags : FlagSet
  pub permanent_flags : FlagSet
  pub read_only : Bool

pub data SessionState : Type 0 where
  not_authenticated_state authenticated_state : Connection → SessionState
  selected_state : Connection → MailboxInfo → SessionState
  logout_state : SessionState

-- What the receiver of an operation gets: the error code with a value, or the stop.
pub data Outcome (S : Type 0) : Type 0 where
  set_value : ErrorCode → S → Outcome S
  set_stopped : Outcome S

-- The snapshot handler of `selected_state`.
unfoldable pub update_snapshot : UnsolicitedEvent → MailboxInfo → MailboxInfo
update_snapshot (exists_event count) snapshot = record snapshot { exists = count }
update_snapshot (recent_event count) snapshot = record snapshot { recent = count }
update_snapshot (expunge_event number) snapshot = record snapshot { exists = snapshot.exists - 1 }
update_snapshot _ snapshot = snapshot

unfoldable pub set_capabilities : CapabilitySet → Connection → Connection
set_capabilities caps connection = record connection { capabilities = caps }

unfoldable pub finish_operation : Connection → Connection
finish_operation connection = record connection { busy = false }

-- What the successor factories make of the outcome of their command.
unfoldable pub auth_branches : ErrorCode → Connection → SessionState
auth_branches ec connection =
    if is_error ec then not_authenticated_state connection else authenticated_state connection

unfoldable pub select_branches : ErrorCode → Connection → MailboxInfo → SessionState
select_branches ec connection info =
    if is_error ec then authenticated_state connection else selected_state connection info

unfoldable pub close_successor : ErrorCode → Connection → SessionState
close_successor ec connection = authenticated_state connection

unfoldable pub logout_successor : ErrorCode → Connection → SessionState
logout_successor ec connection = logout_state

-- The cache takes the capabilities on success, and the result goes on beside the inner successor.
unfoldable pub capability_successor :
    {S : Type 0}
    → (ErrorCode → Connection → S)
    → ErrorCode
    → Connection
    → CapabilitySet
    → CapabilitySet × S
unfolding set_capabilities
capability_successor inner ec connection caps =
    (caps, inner ec (if is_error ec then connection else set_capabilities caps connection))
