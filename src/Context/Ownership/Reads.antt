-- ===== src/Context/Ownership/Reads.antt =====
-- The places of the cells across include/bkmail/imap/detail/read_pump.h.
use bkmail.Prelude.{
  ℕ, zero, suc, ◌≡◌, refl, Bool, true, false, [], ◌∷◌, ◌++◌, Option, none, some, arith, Bytes, ◌||◌,
  ◌∙◌, length,
}
use bkmail.Error.{ErrorCode, unexpected_response}
use bkmail.Operation.{Operation, on_continuation, on_untagged, on_tagged}
use bkmail.Response.{
  ServerResponse, TaggedResponse, UntaggedResponse, tagged, untagged, continuation,
}
use bkmail.Lexer.{Frame, starving, unfinished, framed, next_frame}
use bkmail.Parser.{parse}
use bkmail.Context.Defs.{Context, UnsolicitedEvent}
use bkmail.Context.Queue.{Queue, Registry, find, update, lookup, erase}
use bkmail.Context.WritePump.{}
use bkmail.Context.ReadPump.{
  complete_tagged, tagged_entry, dispatch_tagged, notify, attribute_to, dispatch_untagged,
  give_first, give_all, make_unsolicited_event, unroute, is_bye, route_continuation,
  dispatch_continuation, dispatch_one, dispatch_parsed, dispatch,
}
use bkmail.Context.Read.{
  consume, read_frame, read_loop, rearm, on_read, read_done, stop_reading, lost_reason,
}
use bkmail.Context.Count.{count, count_told-append, find_id, count-remove, count-update}
use bkmail.Context.Ownership.{
  Keeps, maybe_finish_close-Keeps, connection_lost-Keeps, post_kick-Keeps,
}

module _ (i : ℕ) where
  trans : (a b c : Context) → Keeps i a b → Keeps i b c → Keeps i a c
  trans a b c (p, q) (p', q') = (p' ∙ p, q' ∙ q)

  module _ (r : TaggedResponse) where
    complete_tagged-Keeps :
        (j : ℕ) (found : Option Operation) (c : Context)
        → find j c.write_queue ≡ found
        → Keeps i c (complete_tagged r found c).0
    unfolding complete_tagged
    complete_tagged-Keeps j none c e = connection_lost-Keeps i unexpected_response c
    complete_tagged-Keeps j (some op) c e = ground (
      arith,
      find_id j c.write_queue {op = op} e,
      count-remove i j c.write_queue {op = op} e,
      count_told-append i c.completions ((op.id, on_tagged r.status op) ∷ []),
    )

    tagged_entry-Keeps : (entry : Option ℕ) (c : Context) → Keeps i c (tagged_entry r entry c).0
    unfolding tagged_entry
    tagged_entry-Keeps none c = (refl, refl)
    tagged_entry-Keeps (some j) c =
        complete_tagged-Keeps j (find j c.write_queue)
          (record c {
            registry = erase r.tag c.registry;
            continuation_target = unroute c.continuation_target j;
          })
          refl

  module _ (r : UntaggedResponse) where
    give_first-count : (ops : Queue) → count i (give_first r ops) ≡ count i ops
    unfolding give_first on_untagged
    give_first-count [] = refl
    give_first-count (op ∷ ops) = ground (arith, give_first-count ops)

    give_all-count : (reg : Registry) (ops : Queue) → count i (give_all r reg ops) ≡ count i ops
    unfolding give_all on_untagged
    give_all-count [] ops = refl
    give_all-count ((t, j) ∷ reg) ops =
        give_all-count reg (update j (on_untagged r) ops)
        ∙ count-update i j (on_untagged r) ops (λ op. refl)

    notify-Keeps : (e : Option UnsolicitedEvent) (c : Context) → Keeps i c (notify e c)
    unfolding notify
    notify-Keeps none c = (refl, refl)
    notify-Keeps (some e) c = (refl, refl)

    attribute_to-Keeps : (c : Context) → Keeps i c (attribute_to r c)
    unfolding attribute_to
    attribute_to-Keeps c =
        ground (arith, give_first-count c.write_queue, give_all-count c.registry c.write_queue)

    dispatch_untagged-Keeps : (c : Context) → Keeps i c (dispatch_untagged r c)
    unfolding dispatch_untagged
    dispatch_untagged-Keeps c =
        let heard = record c { bye_received = c.bye_received || is_bye r.kind } in
        let told = notify (make_unsolicited_event r) heard in
        ground (arith, notify-Keeps (make_unsolicited_event r) heard, attribute_to-Keeps told)

  route_continuation-Keeps :
      (target : Option ℕ) (c : Context) → Keeps i c (route_continuation target c).0
  unfolding route_continuation on_continuation
  route_continuation-Keeps none c = connection_lost-Keeps i unexpected_response c
  route_continuation-Keeps (some j) c =
      let routed = record c {
        continuation_target = none;
        write_queue = update j on_continuation c.write_queue;
      } in
      ground (
        arith,
        post_kick-Keeps i routed,
        count-update i j on_continuation c.write_queue (λ op. refl),
      )

  dispatch_parsed-Keeps :
      (parsed : Option ServerResponse) (c : Context) → Keeps i c (dispatch_parsed parsed c).0
  unfolding dispatch_parsed dispatch_one dispatch_tagged dispatch_continuation
  dispatch_parsed-Keeps none c = connection_lost-Keeps i unexpected_response c
  dispatch_parsed-Keeps (some (tagged r)) c = tagged_entry-Keeps r (lookup r.tag c.registry) c
  dispatch_parsed-Keeps (some (untagged r)) c = dispatch_untagged-Keeps r c
  dispatch_parsed-Keeps (some (continuation r)) c = route_continuation-Keeps c.continuation_target c

  dispatch-Keeps : (text : Bytes) (c : Context) → Keeps i c (dispatch text c).0
  unfolding dispatch
  dispatch-Keeps text c = dispatch_parsed-Keeps (parse text) c

  consume-Keeps :
      (again : Context → Context × Bool) (rest : Bytes) (c : Context) (r : Context × Bool)
      → ((c : Context) → Keeps i c (again c).0)
      → Keeps i c r.0
      → Keeps i c (consume again rest r).0
  unfolding consume
  consume-Keeps again rest c (c', true) h k =
      trans c c' (again (record c' { read_buffer = rest })).0 k
        (h (record c' { read_buffer = rest }))
  consume-Keeps again rest c (c', false) h k = k

  read_frame-Keeps :
      (again : Context → Context × Bool) (f : Frame) (c : Context)
      → ((c : Context) → Keeps i c (again c).0)
      → Keeps i c (read_frame again f c).0
  unfolding read_frame
  read_frame-Keeps again starving c h = (refl, refl)
  read_frame-Keeps again (unfinished s) c h = (refl, refl)
  read_frame-Keeps again (framed text rest s) c h =
      consume-Keeps again rest c (dispatch text (record c { lexer = s })) h
        (dispatch-Keeps text (record c { lexer = s }))

  read_loop-Keeps : (fuel : ℕ) (c : Context) → Keeps i c (read_loop fuel c).0
  unfolding read_loop
  read_loop-Keeps zero c = (refl, refl)
  read_loop-Keeps (suc fuel) c =
      read_frame-Keeps (read_loop fuel) (next_frame c.lexer c.read_buffer) c (read_loop-Keeps fuel)

  rearm-Keeps : (r : Context × Bool) → Keeps i r.0 (rearm r)
  unfolding rearm
  rearm-Keeps (c, false) = maybe_finish_close-Keeps i (stop_reading c)
  rearm-Keeps (c, true) = ground (arith, maybe_finish_close-Keeps i (stop_reading c))

  on_read-Keeps : (ec : ErrorCode) (bytes : Bytes) (c : Context) → Keeps i c (on_read ec bytes c)
  unfolding on_read
  on_read-Keeps ec bytes c =
      let filled = record c { read_buffer = c.read_buffer ++ bytes } in
      let fuel = suc (length (c.read_buffer ++ bytes)) in
      ground (
        arith,
        connection_lost-Keeps i (lost_reason ec c.bye_received) (stop_reading c),
        read_loop-Keeps fuel filled,
        rearm-Keeps (read_loop fuel filled),
      )

  pub read_done-Keeps :
      (ec : ErrorCode) (bytes : Bytes) (c : Context) → Keeps i c (read_done ec bytes c)
  unfolding read_done
  read_done-Keeps ec bytes c =
      ground (arith, on_read-Keeps ec bytes c, maybe_finish_close-Keeps i (stop_reading c))
