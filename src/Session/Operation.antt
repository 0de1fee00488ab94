-- ===== src/Session/Operation.antt =====
-- `state_op_operation` of include/bkmail/imap/state/detail/state_op_sender.h, for a command with results of
-- a type R (the unit for none) and successors of a type S. A reply runs as a whole on the io thread; it
-- may come in between the two parts of the stop forwarder. `registered` tells whether the context still
-- may still call the handler of the command. `cancel` of imap_context.h withdraws it unless the context is not
-- open or the cell is only marked as detached; the forwarder has an argument for which it is.
pub mod Once
use bkmail.Prelude.{
  ℕ, Bool, true, false, ◌&&◌, ◌||◌, not, List, [], ◌∷◌, if◌then◌else◌, Bytes, is_empty,
}
use bkmail.Error.{ErrorCode, success, capability_required}
use bkmail.Capability.{contains}
use bkmail.Session.{Connection, Outcome, set_value, set_stopped, finish_operation}

pub record StateOp (S : Type 0) : Type 0 where
  pub connection : Connection
  pub registered : Bool
  pub completed : Bool
  -- the stop callback is in place and did not fire yet
  pub armed : Bool
  -- the forwarder claimed the completion and did not finish yet
  pub forwarding : Bool
  -- the stopped delivery is posted
  pub posted : Bool
  pub outcomes : List (Outcome S)

unfoldable pub deliver : {S : Type 0} → Outcome S → StateOp S → StateOp S
deliver outcome s = record s { outcomes = outcome ∷ s.outcomes }

unfoldable pub submitted : {S : Type 0} → Connection → StateOp S
submitted connection = record {
  connection = record connection { busy = true };
  registered = true;
  completed = false;
  armed = true;
  forwarding = false;
  posted = false;
  outcomes = [];
}

-- An operation that ends in `start` itself: nothing is registered.
unfoldable pub ended_at_once : {S : Type 0} → Connection → Outcome S → StateOp S
unfolding finish_operation
ended_at_once connection outcome = record {
  connection = finish_operation connection;
  registered = false;
  completed = false;
  armed = false;
  forwarding = false;
  posted = false;
  outcomes = outcome ∷ [];
}

-- `start`, with whether a stop was requested before, the capability it requires, the successor factory
-- and the result of a command that is not sent.
unfoldable pub start :
    {R S : Type 0} → Bool → Bytes → (ErrorCode → Connection → R → S) → R → Connection → StateOp S
unfolding contains submitted ended_at_once finish_operation
start stop_requested required_capability make_successor no_result connection =
    let refused = make_successor capability_required (finish_operation connection) no_result in
    if stop_requested
    then ended_at_once connection set_stopped
    else if not (is_empty required_capability)
        && not (contains required_capability connection.capabilities)
    then ended_at_once connection (set_value capability_required refused)
    else submitted connection

unfoldable pub on_result :
    {R S : Type 0} → (ErrorCode → Connection → R → S) → ErrorCode → R → StateOp S → StateOp S
unfolding deliver finish_operation
on_result make_successor ec result s =
    let finished = finish_operation s.connection in
    let value = set_value ec (make_successor ec finished result) in
    if s.completed
    then s
    else deliver value (record s { completed = true; armed = false; connection = finished })

-- The forwarder up to the claim of the completion.
unfoldable pub stop_requested : {S : Type 0} → StateOp S → StateOp S
stop_requested s =
    if s.armed
    then record s { armed = false; completed = true; forwarding = not s.completed }
    else s

-- The rest of it, with whether its cancel withdraws the handler.
unfoldable pub stop_forwarded : {S : Type 0} → Bool → StateOp S → StateOp S
unfolding finish_operation
stop_forwarded withdrawn s =
    if s.forwarding
    then record s {
      forwarding = false;
      registered = s.registered && not withdrawn;
      connection = finish_operation s.connection;
      posted = true;
    }
    else s

pub data Event (R : Type 0) : Type 0 where
  replied : ErrorCode → R → Event R
  stop_first delivered : Event R
  stop_second : Bool → Event R

unfoldable pub step :
    {R S : Type 0} → (ErrorCode → Connection → R → S) → Event R → StateOp S → StateOp S
unfolding on_result stop_requested stop_forwarded deliver
step make_successor (replied ec result) s =
    let after = on_result make_successor ec result (record s { registered = false }) in
    if s.registered then after else s
step make_successor stop_first s = stop_requested s
step make_successor (stop_second withdrawn) s = stop_forwarded withdrawn s
step make_successor delivered s =
    let after = deliver set_stopped (record s { posted = false }) in if s.posted then after else s

unfoldable pub run :
    {R S : Type 0} → (ErrorCode → Connection → R → S) → List (Event R) → StateOp S → StateOp S
unfolding step
run make_successor [] s = s
run make_successor (e ∷ events) s = run make_successor events (step make_successor e s)
