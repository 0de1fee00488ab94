-- ===== src/Session/Calls.antt =====
-- The member functions of the session states: include/bkmail/imap/state/not_authenticated.h,
-- authenticated.h and selected.h. Each passes a command, a required capability and a successor to
-- `state_op_sender`; `start_tls` and `idle` have operations of their own, which StartTls and Idle follow step by
-- step, and are here what they send and end with.
pub mod Order
pub mod Diagram
pub mod Upgraded
pub mod Permitted
use bkmail.Prelude.{
  ℕ, Bool, true, false, List, [], ◌∷◌, Option, none, some, if◌then◌else◌, Bytes, codes,
}
use bkmail.Flags.{FlagSet}
use bkmail.Command.Segmented.{SegmentedCommand}
use bkmail.Line.{LineCommand}
use bkmail.Line.Connection.{noop_command, logout_command, starttls_command}
use bkmail.Command.Idle
use bkmail.Line.Mailbox.{
  create_command, delete_command, rename_command, subscribe_command, unsubscribe_command,
}
use bkmail.Line.Message.{
  copy_command, move_command, uid_copy_command, uid_move_command, close_command, expunge_command,
}
use bkmail.Select
use bkmail.Listing.{list_line}
use bkmail.Status.{status_line}
use bkmail.Search.{search_line, uid_search_line}
use bkmail.Store.{StoreMode, store_command, uid_store_command}
use bkmail.FetchItems.{FetchItems}
use bkmail.FetchCommand.{
  fetch_line, uid_fetch_line, envelopes_line, uid_envelopes_line, headers_line, uid_headers_line,
}
use bkmail.FetchCommand.Message.{message_line, uid_message_line}
use bkmail.CapabilityCommand.{capability_line}
use bkmail.Authenticate.{authenticate, authenticate_oauth2}
use bkmail.Authenticate
use bkmail.Login.{login_command}
use bkmail.Append.{AppendArguments, append_command}
use bkmail.Session.Issued.{
  Completion, Issued, one_line, selecting, authenticating, authorized, same_state,
  asking_capability, leaving, upgrading, idling, settled,
}
use bkmail.Session.{
  Connection, MailboxInfo, SessionState, not_authenticated_state, authenticated_state,
  selected_state, logout_state, auth_branches, select_branches, close_successor, logout_successor,
  capability_successor, set_capabilities,
}
use bkmail.Session.StartTls.{emplace_tls_context}

pub data NotAuthenticatedCall : Type 0 where
  login_call : Bytes → Bytes → NotAuthenticatedCall
  authenticate_call : Bytes → Bytes → NotAuthenticatedCall
  oauth2_call : Bytes → Bytes → NotAuthenticatedCall
  start_tls_call capability_call noop_call logout_call : NotAuthenticatedCall

pub data AuthenticatedCall : Type 0 where
  select_call examine_call create_call delete_mailbox_call : Bytes → AuthenticatedCall
  subscribe_call unsubscribe_call : Bytes → AuthenticatedCall
  list_call rename_call : Bytes → Bytes → AuthenticatedCall
  status_call : Bytes → ℕ → AuthenticatedCall
  append_call : AppendArguments → AuthenticatedCall
  capability_call noop_call logout_call : AuthenticatedCall

-- A call with `true` is the one for UIDs.
pub data SelectedCall : Type 0 where
  fetch_envelopes_call fetch_message_call search_call : Bool → Bytes → SelectedCall
  fetch_headers_call : Bool → Bytes → List Bytes → SelectedCall
  fetch_call : Bool → Bytes → FetchItems → SelectedCall
  store_call : Bool → Bytes → FlagSet → StoreMode → SelectedCall
  copy_call move_call : Bool → Bytes → Bytes → SelectedCall
  expunge_call close_call idle_call capability_call noop_call logout_call : SelectedCall

abbrev not_authenticated : Connection → MailboxInfo → SessionState
not_authenticated connection info = not_authenticated_state connection

abbrev authenticated : Connection → MailboxInfo → SessionState
authenticated connection info = authenticated_state connection

-- `not_authenticated_state`.
unfoldable pub not_authenticated_op : NotAuthenticatedCall → Issued
unfolding login_command authenticate authenticate_oauth2 Authenticate.render auth_branches
    capability_successor capability_line noop_command logout_command logout_successor
    starttls_command emplace_tls_context set_capabilities
not_authenticated_op (login_call user_name password) =
    authorized (λ tag. (login_command false user_name password tag).segments)
not_authenticated_op (authenticate_call mechanism initial_response) =
    authorized (authenticating (authenticate mechanism initial_response))
not_authenticated_op (oauth2_call user token) =
    authorized (authenticating (authenticate_oauth2 user token))
not_authenticated_op start_tls_call = upgrading
not_authenticated_op capability_call = asking_capability not_authenticated
not_authenticated_op noop_call = same_state not_authenticated (one_line noop_command)
not_authenticated_op logout_call = leaving

abbrev selection : Bool → Bytes → Issued
selection examine mailbox = record {
  sent = selecting examine mailbox;
  required = [];
  conclude = λ c connection. select_branches c.ec connection c.info;
}

-- `authenticated_state`.
unfoldable pub authenticated_op : AuthenticatedCall → Issued
unfolding Select.render select_branches list_line status_line create_command delete_command
    rename_command subscribe_command unsubscribe_command append_command capability_successor
    capability_line noop_command logout_command logout_successor
authenticated_op (select_call mailbox) = selection false mailbox
authenticated_op (examine_call mailbox) = selection true mailbox
authenticated_op (list_call reference pattern) =
    same_state authenticated (one_line (list_line reference pattern))
authenticated_op (status_call mailbox items) =
    same_state authenticated (one_line (status_line mailbox items))
authenticated_op (create_call mailbox) =
    same_state authenticated (one_line (create_command mailbox))
authenticated_op (delete_mailbox_call mailbox) =
    same_state authenticated (one_line (delete_command mailbox))
authenticated_op (rename_call old_name new_name) =
    same_state authenticated (one_line (rename_command old_name new_name))
authenticated_op (subscribe_call mailbox) =
    same_state authenticated (one_line (subscribe_command mailbox))
authenticated_op (unsubscribe_call mailbox) =
    same_state authenticated (one_line (unsubscribe_command mailbox))
authenticated_op (append_call a) = same_state authenticated (λ tag. (append_command a tag).segments)
authenticated_op capability_call = asking_capability authenticated
authenticated_op noop_call = same_state authenticated (one_line noop_command)
authenticated_op logout_call = leaving

abbrev closing : Issued
closing = record {
  sent = one_line close_command;
  required = [];
  conclude = λ c connection. close_successor c.ec connection;
}

abbrev moving : LineCommand → Issued
moving c = record (same_state selected_state (one_line c)) { required = codes "MOVE" }

-- `selected_state`, whose queries and other operations keep the snapshot.
unfoldable pub selected_op : SelectedCall → Issued
unfolding fetch_line uid_fetch_line envelopes_line uid_envelopes_line headers_line uid_headers_line
    message_line uid_message_line search_line uid_search_line store_command uid_store_command
    copy_command uid_copy_command move_command uid_move_command expunge_command close_command
    close_successor capability_successor capability_line noop_command logout_command
    logout_successor Idle.render
selected_op (fetch_envelopes_call by_uid set) =
    same_state selected_state
      (one_line (if by_uid then uid_envelopes_line set else envelopes_line set))
selected_op (fetch_headers_call by_uid set fields) =
    same_state selected_state
      (one_line (if by_uid then uid_headers_line set fields else headers_line set fields))
selected_op (fetch_message_call by_uid set) =
    same_state selected_state (one_line (if by_uid then uid_message_line set else message_line set))
selected_op (fetch_call by_uid set items) =
    same_state selected_state
      (one_line (if by_uid then uid_fetch_line set items else fetch_line set items))
selected_op (search_call by_uid criteria) =
    same_state selected_state
      (one_line (if by_uid then uid_search_line criteria else search_line criteria))
selected_op (store_call by_uid set flags mode) =
    same_state selected_state
      (one_line (if by_uid then uid_store_command set flags mode else store_command set flags mode))
selected_op (copy_call by_uid set mailbox) =
    same_state selected_state
      (one_line (if by_uid then uid_copy_command set mailbox else copy_command set mailbox))
selected_op (move_call by_uid set mailbox) =
    moving (if by_uid then uid_move_command set mailbox else move_command set mailbox)
selected_op expunge_call = same_state selected_state (one_line expunge_command)
selected_op close_call = closing
selected_op idle_call = idling
selected_op capability_call = asking_capability selected_state
selected_op noop_call = same_state selected_state (one_line noop_command)
selected_op logout_call = leaving

pub data Call : Type 0 where
  when_not_authenticated : NotAuthenticatedCall → Call
  when_authenticated : AuthenticatedCall → Call
  when_selected : SelectedCall → Call

-- `none` is a call that the class of the state does not have.
unfoldable pub perform : Call → Completion → SessionState → Option SessionState
unfolding not_authenticated_op authenticated_op selected_op settled
perform (when_not_authenticated call) c (not_authenticated_state connection) =
    some (settled (not_authenticated_op call) connection c)
perform (when_authenticated call) c (authenticated_state connection) =
    some (settled (authenticated_op call) connection c)
perform (when_selected call) c (selected_state connection info) =
    some (settled (selected_op call) connection c)
perform _ _ _ = none
