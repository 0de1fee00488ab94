-- ===== src/Session/StartTls.antt =====
-- `start_tls_operation` of include/bkmail/imap/state/not_authenticated.h. The handlers of the reply and of
-- the handshake run as a whole on the io thread; the stop forwarder may be in between its two parts
-- while they do, and resetting the stop callback waits for it. `registered` tells whether the context still
-- may still call the handler of the command with the current tag. `cancel` of imap_context.h withdraws it if it
-- takes the cell out of the queue or the reply finds no entry any more; it does nothing when the context is
-- not open, and a cell that it only marks as detached can still fail. So the forwarder has an argument
-- for whether the handler is withdrawn.
pub mod Upgrade
pub mod Completes
use bkmail.Prelude.{
  ℕ, zero, suc, ◌+◌, Bool, true, false, ◌&&◌, ◌||◌, not, List, [], ◌∷◌, ◌++◌, Option, none, some,
  if◌then◌else◌,
}
use bkmail.Error.{ErrorCode, success, is_error}
use bkmail.Capability.{CapabilitySet}
use bkmail.Session.{
  Connection, Outcome, set_value, set_stopped, SessionState, not_authenticated_state,
  set_capabilities, finish_operation,
}

pub data Phase : Type 0 where
  starttls handshake capability : Phase

pub record StartTls : Type 0 where
  pub connection : Connection
  pub phase : Phase
  pub registered : Bool
  pub handshaking : Bool
  pub stop_latch : Bool
  pub completed : Bool
  -- the stop callback is in place and did not fire yet
  pub armed : Bool
  -- the forwarder is in between its two parts
  pub forwarding : Bool
  -- the stopped delivery is posted
  pub posted : Bool
  pub outcomes : List (Outcome SessionState)

-- `start`, with whether a stop was requested before.
unfoldable pub start : Bool → Connection → StartTls
unfolding finish_operation
start stop_requested connection = record {
  connection =
      (if stop_requested then finish_operation connection else record connection { busy = true });
  phase = starttls;
  registered = not stop_requested;
  handshaking = false;
  stop_latch = false;
  completed = false;
  armed = not stop_requested;
  forwarding = false;
  posted = false;
  outcomes = (if stop_requested then set_stopped ∷ [] else []);
}

abbrev is_handshake : Phase → Bool
is_handshake handshake = true
is_handshake _ = false

-- The forwarder up to the load of the phase.
unfoldable pub stop_requested : StartTls → StartTls
stop_requested s =
    if s.armed
    then record s { armed = false; stop_latch = true; forwarding = not (is_handshake s.phase) }
    else s

-- The rest of it, with whether its cancel withdraws the handler.
unfoldable pub stop_forwarded : Bool → StartTls → StartTls
unfolding finish_operation
stop_forwarded withdrawn s =
    if not s.forwarding
    then s
    else if s.completed
    then record s { forwarding = false; registered = s.registered && not withdrawn }
    else record s {
      forwarding = false;
      registered = s.registered && not withdrawn;
      completed = true;
      connection = finish_operation s.connection;
      posted = true;
    }

-- Called by a handler, so none is registered then.
unfoldable pub reset_stop_callback : StartTls → StartTls
unfolding stop_forwarded
reset_stop_callback s = let after = stop_forwarded true s in record after { armed = false }

unfoldable pub deliver : Outcome SessionState → StartTls → StartTls
deliver outcome s = record s { outcomes = outcome ∷ s.outcomes }

unfoldable pub finish_stopped : StartTls → StartTls
unfolding reset_stop_callback finish_operation deliver
finish_stopped s =
    let quiet = reset_stop_callback s in
    deliver set_stopped (record quiet { connection = finish_operation quiet.connection })

unfoldable pub complete : ErrorCode → StartTls → StartTls
unfolding reset_stop_callback finish_operation deliver
complete ec s =
    let quiet = reset_stop_callback s in
    let connection = finish_operation quiet.connection in
    deliver (set_value ec (not_authenticated_state connection))
      (record quiet { connection = connection })

unfoldable pub on_starttls : ErrorCode → StartTls → StartTls
unfolding finish_stopped complete
on_starttls ec s =
    let claimed = record s { completed = true } in
    let stopped = finish_stopped claimed in
    let failed = complete ec claimed in
    let upgrading = record claimed { phase = handshake; handshaking = true } in
    if s.completed
    then s
    else if s.stop_latch
    then stopped
    else if is_error ec
    then failed
    else upgrading

-- `emplace_tls_context`, which also clears the cache.
unfoldable pub emplace_tls_context : Connection → Connection
emplace_tls_context connection = record connection { secure = true; capabilities = [] }

unfoldable pub on_handshake : ErrorCode → StartTls → StartTls
unfolding finish_stopped complete emplace_tls_context
on_handshake ec s =
    let stopped = finish_stopped s in
    let over_tls = record s { connection = emplace_tls_context s.connection } in
    let failed = complete ec over_tls in
    if s.stop_latch
    then stopped
    else if is_error ec
    then failed
    else record over_tls { phase = capability; registered = true }

unfoldable pub on_capability : ErrorCode → CapabilitySet → StartTls → StartTls
unfolding finish_stopped complete set_capabilities
on_capability ec caps s =
    let stopped = finish_stopped s in
    let failed = complete ec s in
    let probed = complete ec (record s { connection = set_capabilities caps s.connection }) in
    if s.stop_latch then stopped else if is_error ec then failed else probed

-- The tagged reply; nobody gets it after its handler was withdrawn.
unfoldable pub on_reply : Phase → ErrorCode → CapabilitySet → StartTls → StartTls
unfolding on_starttls on_capability
on_reply starttls ec caps s = on_starttls ec s
on_reply capability ec caps s = on_capability ec caps s
on_reply handshake ec caps s = s

pub data Event : Type 0 where
  replied : ErrorCode → CapabilitySet → Event
  handshaken : ErrorCode → Event
  stop_first delivered : Event
  stop_second : Bool → Event

unfoldable pub step : Event → StartTls → StartTls
unfolding on_reply on_handshake stop_requested stop_forwarded deliver
step (replied ec caps) s =
    let after = on_reply s.phase ec caps (record s { registered = false }) in
    if s.registered then after else s
step (handshaken ec) s =
    let after = on_handshake ec (record s { handshaking = false }) in
    if s.handshaking then after else s
step stop_first s = stop_requested s
step (stop_second withdrawn) s = stop_forwarded withdrawn s
step delivered s =
    let after = deliver set_stopped (record s { posted = false }) in if s.posted then after else s

unfoldable pub run : List Event → StartTls → StartTls
unfolding step
run [] s = s
run (e ∷ events) s = run events (step e s)
