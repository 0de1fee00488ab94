-- ===== src/Context/ReadPump.antt =====
-- include/bkmail/imap/detail/read_pump.h: the completion of a read, the frames that it takes out of
-- the buffer, and the dispatch of each response.
use bkmail.Prelude.{
  ℕ, zero, suc, ◌%◌, ◌^◌, Bool, true, false, not, ◌||◌, List, [], ◌∷◌, ◌++◌, Option, none, some,
  ◌==◌, if◌then◌else◌, Bytes, is_empty, length, take_while, drop_while, drop,
}
use bkmail.Error.{unexpected_response}
use bkmail.Operation.{Operation, on_tagged, on_continuation, on_untagged, wants_untagged}
use bkmail.Response.{
  UntaggedKind, TaggedResponse, UntaggedResponse, ServerResponse, tagged, untagged, continuation,
}
use bkmail.Capability.{insert}
use bkmail.Parser.{parse}
use bkmail.Context.Defs.{
  Context, UnsolicitedEvent, exists_event, recent_event, expunge_event, flags_update_event,
  capability_event, bye_event, greeting_event,
}
use bkmail.Context.Queue.{Queue, Registry, find, remove, update, lookup, erase}
use bkmail.Context.Teardown.{connection_lost}
use bkmail.Context.Submit.{post_kick}

abbrev same_cell : Option ℕ → ℕ → Bool
same_cell none i = false
same_cell (some j) i = j == i

abbrev pub unroute : Option ℕ → ℕ → Option ℕ
unroute target i = if same_cell target i then none else target

-- The cell is taken before its completion is told; `false` is a fatal violation.
unfoldable pub complete_tagged : TaggedResponse → Option Operation → Context → Context × Bool
unfolding connection_lost on_tagged
complete_tagged r none c = (connection_lost unexpected_response c, false)
complete_tagged r (some op) c = (
  record c {
    write_queue = remove op.id c.write_queue;
    completions = c.completions ++ (op.id, on_tagged r.status op) ∷ [];
  },
  true,
)

-- An unknown tag is a reply to a detached operation, and is dropped.
unfoldable pub tagged_entry : TaggedResponse → Option ℕ → Context → Context × Bool
unfolding complete_tagged
tagged_entry r none c = (c, true)
tagged_entry r (some i) c = complete_tagged r (find i c.write_queue) (record c {
  registry = erase r.tag c.registry;
  continuation_target = unroute c.continuation_target i;
})

unfoldable pub dispatch_tagged : TaggedResponse → Context → Context × Bool
unfolding tagged_entry
dispatch_tagged r c = tagged_entry r (lookup r.tag c.registry) c

-- The atoms of a CAPABILITY payload, interned in order; `fuel` bounds the rounds by the length.
capability_atoms : ℕ → Bytes → List Bytes → List Bytes
unfolding insert
capability_atoms zero atoms found = found
capability_atoms (suc fuel) atoms found =
    let atom = take_while (λ c. not (c == b' ')) atoms in
    let rest = drop_while (λ c. not (c == b' ')) atoms in
    let more = insert atom found in
    let next = capability_atoms fuel (drop 1 rest) more in if is_empty rest then more else next

-- `static_cast<std::uint32_t>`.
abbrev word : ℕ → ℕ
word n = n % 2 ^ 32

event_of : UntaggedKind → UntaggedResponse → Option UnsolicitedEvent
unfolding capability_atoms
event_of UntaggedKind.exists r = some (exists_event (word r.number))
event_of UntaggedKind.recent r = some (recent_event (word r.number))
event_of UntaggedKind.expunge r = some (expunge_event (word r.number))
event_of UntaggedKind.fetch r = some (flags_update_event (word r.number))
event_of UntaggedKind.capability r =
    some (capability_event (capability_atoms (suc (length r.payload)) r.payload []))
event_of UntaggedKind.bye r = some (bye_event r.text r.code)
event_of UntaggedKind.ok r = some (greeting_event r.status r.text r.code)
event_of UntaggedKind.preauth r = some (greeting_event r.status r.text r.code)
event_of _ r = none

unfoldable pub make_unsolicited_event : UntaggedResponse → Option UnsolicitedEvent
unfolding event_of
make_unsolicited_event r = event_of r.kind r

unfoldable pub notify : Option UnsolicitedEvent → Context → Context
notify none c = c
notify (some e) c = record c { events = c.events ++ e ∷ [] }

-- Command-scoped data goes to the earliest operation that wants it.
unfoldable pub give_first : UntaggedResponse → Queue → Queue
unfolding wants_untagged on_untagged
give_first r [] = []
give_first r (op ∷ ops) =
    if wants_untagged r.kind op then on_untagged r op ∷ ops else op ∷ give_first r ops

-- Anything else goes to every registered operation.
unfoldable pub give_all : UntaggedResponse → Registry → Queue → Queue
unfolding on_untagged
give_all r [] ops = ops
give_all r ((tag, i) ∷ reg) ops = give_all r reg (update i (on_untagged r) ops)

abbrev is_scoped : UntaggedKind → Bool
is_scoped UntaggedKind.fetch = true
is_scoped UntaggedKind.list = true
is_scoped UntaggedKind.lsub = true
is_scoped UntaggedKind.status = true
is_scoped UntaggedKind.search_kind = true
is_scoped UntaggedKind.capability = true
is_scoped UntaggedKind.flags = true
is_scoped _ = false

abbrev pub is_bye : UntaggedKind → Bool
is_bye UntaggedKind.bye = true
is_bye _ = false

unfoldable pub attribute_to : UntaggedResponse → Context → Context
unfolding give_first give_all
attribute_to r c = record c {
  write_queue =
      if is_scoped r.kind then give_first r c.write_queue else give_all r c.registry c.write_queue;
}

unfoldable pub dispatch_untagged : UntaggedResponse → Context → Context
unfolding notify make_unsolicited_event attribute_to
dispatch_untagged r c = attribute_to r (
    notify (make_unsolicited_event r) (record c { bye_received = c.bye_received || is_bye r.kind }))

unfoldable pub route_continuation : Option ℕ → Context → Context × Bool
unfolding connection_lost post_kick on_continuation
route_continuation none c = (connection_lost unexpected_response c, false)
route_continuation (some i) c = (
  post_kick (record c {
    continuation_target = none;
    write_queue = update i on_continuation c.write_queue;
  }),
  true,
)

unfoldable pub dispatch_continuation : Context → Context × Bool
unfolding route_continuation
dispatch_continuation c = route_continuation c.continuation_target c

unfoldable pub dispatch_one : ServerResponse → Context → Context × Bool
unfolding dispatch_tagged dispatch_untagged dispatch_continuation
dispatch_one (tagged r) c = dispatch_tagged r c
dispatch_one (untagged r) c = (dispatch_untagged r c, true)
dispatch_one (continuation r) c = dispatch_continuation c

unfoldable pub dispatch_parsed : Option ServerResponse → Context → Context × Bool
unfolding dispatch_one connection_lost
dispatch_parsed none c = (connection_lost unexpected_response c, false)
dispatch_parsed (some r) c = dispatch_one r c

unfoldable pub dispatch : Bytes → Context → Context × Bool
unfolding dispatch_parsed parse
dispatch text c = dispatch_parsed (parse text) c
