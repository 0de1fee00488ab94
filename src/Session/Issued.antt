-- ===== src/Session/Issued.antt =====
-- What a member function of a session state passes to `state_op_sender`, and the state that it ends with:
-- `state_op_operation` of include/bkmail/imap/state/detail/state_op_sender.h.
use bkmail.Prelude.{Bool, ◌||◌, not, List, [], ◌∷◌, if◌then◌else◌, Bytes, codes, is_empty}
use bkmail.Error.{ErrorCode, is_error, capability_required}
use bkmail.Capability.{CapabilitySet, contains}
use bkmail.Line.{LineCommand}
use bkmail.Line.Connection.{logout_command, starttls_command}
use bkmail.Command.Idle
use bkmail.Command.Idle.{new_idle, done_line}
use bkmail.Select
use bkmail.Select.{new_select}
use bkmail.CapabilityCommand.{capability_line}
use bkmail.Authenticate.{AuthenticateCommand}
use bkmail.Authenticate
use bkmail.Session.{
  Connection, MailboxInfo, SessionState, not_authenticated_state, selected_state, set_capabilities,
  auth_branches, logout_successor, capability_successor,
}
use bkmail.Session.StartTls.{emplace_tls_context}

-- What the operation ends with: the error code, the result of CAPABILITY, and the mailbox: the result of
-- SELECT or EXAMINE, or the snapshot that the selected state carried along, or that an IDLE cycle brought up to
-- date. `upgraded` tells whether the server accepted STARTTLS.
pub record Completion : Type 0 where
  pub ec : ErrorCode
  pub capabilities : CapabilitySet
  pub info : MailboxInfo
  pub upgraded : Bool

-- The arguments of `state_op_sender`: the segments that the command renders, the capability, and the state
-- that the successor makes.
pub record Issued : Type 0 where
  pub sent : Bytes → List Bytes
  pub required : Bytes
  pub conclude : Completion → Connection → SessionState

abbrev pub one_line : LineCommand → Bytes → List Bytes
one_line c tag = c.line tag ∷ []

abbrev pub selecting : Bool → Bytes → Bytes → List Bytes
selecting examine mailbox tag = (Select.render tag (new_select examine mailbox)).wire ∷ []

abbrev pub authenticating : AuthenticateCommand → Bytes → List Bytes
authenticating c tag = (Authenticate.render tag c).segments

abbrev pub authorized : (Bytes → List Bytes) → Issued
authorized sent = record {
  sent = sent;
  required = [];
  conclude = λ c connection. auth_branches c.ec connection;
}

-- `same_state_op`, for a state that is made from the connection and the mailbox.
abbrev pub same_state : (Connection → MailboxInfo → SessionState) → (Bytes → List Bytes) → Issued
same_state state sent = record {
  sent = sent;
  required = [];
  conclude = λ c connection. state connection c.info;
}

abbrev pub asking_capability : (Connection → MailboxInfo → SessionState) → Issued
asking_capability state = record {
  sent = one_line capability_line;
  required = [];
  conclude = λ c connection.
      (capability_successor (λ ec conn. state conn c.info) c.ec connection c.capabilities).1;
}

abbrev pub leaving : Issued
leaving = record {
  sent = one_line logout_command;
  required = [];
  conclude = λ c connection. logout_successor c.ec connection;
}

-- What the upgrade leaves: the plain connection if STARTTLS was refused, and else one over TLS, with the
-- capabilities of the probe if that succeeded.
abbrev pub upgrade : Completion → Connection → Connection
upgrade c connection =
    if not c.upgraded
    then connection
    else if is_error c.ec
    then emplace_tls_context connection
    else set_capabilities c.capabilities (emplace_tls_context connection)

-- `start_tls`, up to the end of its operation. The probe that it sends over TLS is a command of its own.
abbrev pub upgrading : Issued
upgrading = record {
  sent = one_line starttls_command;
  required = [];
  conclude = λ c connection. not_authenticated_state (upgrade c connection);
}

-- `idle`, whose second segment is DONE.
abbrev pub idling : Issued
idling =
    record (same_state selected_state
      (λ tag. (Idle.render tag new_idle).segment ∷ done_line ∷ [])) { required = codes "IDLE" }

-- Without the capability nothing is sent, and the successor gets the error.
unfoldable pub settled : Issued → Connection → Completion → SessionState
unfolding contains
settled o connection c =
    if is_empty o.required || contains o.required connection.capabilities
    then o.conclude c connection
    else o.conclude (record c { ec = capability_required }) connection
