-- ===== src/CapabilityCommand.antt =====
-- include/bkmail/imap/command/capability_command.h.
pub mod Collected
use bkmail.Prelude.{ℕ, Bool, true, false, List, [], ◌∷◌, ◌++◌, Option, none, some, Bytes, codes}
use bkmail.Response.{ResponseStatus, UntaggedKind, ResponseCode, capability_code, UntaggedResponse}
use bkmail.Error.{ErrorCode, map_status_to_ec}
use bkmail.Capability.{CapabilitySet, insert}
use bkmail.Line.{LineCommand, deliver}
use bkmail.Rows.{words}

abbrev pub wants_capability : UntaggedKind → Bool
wants_capability UntaggedKind.capability = true
wants_capability _ = false

unfoldable pub capability_line : LineCommand
capability_line = record {
  line = λ tag. tag ++ codes " CAPABILITY\r\n";
  rearms = false;
  blocks = false;
  wants = wants_capability;
  reply = map_status_to_ec;
}

-- `insert` ignores an empty atom, as the loop does.
unfoldable pub insert_all : List Bytes → CapabilitySet → CapabilitySet
unfolding insert
insert_all [] set = set
insert_all (atom ∷ atoms) set = insert_all atoms (insert atom set)

unfoldable pub add_atoms : Bytes → CapabilitySet → CapabilitySet
unfolding words insert_all
add_atoms atoms set = insert_all (words atoms) set

unfoldable pub add_code_atoms : Option ResponseCode → CapabilitySet → CapabilitySet
unfolding insert_all
add_code_atoms (some (capability_code capabilities)) set = insert_all capabilities set
add_code_atoms _ set = set

-- `on_untagged` on the kind, the code and the payload of the response.
unfoldable pub absorb : UntaggedKind → Option ResponseCode → Bytes → CapabilitySet → CapabilitySet
unfolding add_atoms add_code_atoms
absorb UntaggedKind.capability code payload set = add_atoms payload set
absorb UntaggedKind.ok code payload set = add_code_atoms code set
absorb _ code payload set = set

unfoldable pub on_untagged : UntaggedResponse → CapabilitySet → CapabilitySet
unfolding absorb
on_untagged r set = absorb r.kind r.code r.payload set

-- A code on the tagged OK counts too.
unfoldable pub on_tagged :
    ResponseStatus → Option ResponseCode → CapabilitySet → ErrorCode × Option CapabilitySet
unfolding add_code_atoms
on_tagged status code set = deliver status (add_code_atoms code set)
