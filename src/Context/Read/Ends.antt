-- ===== src/Context/Read/Ends.antt =====
-- The fuel of the loop of `on_read` in include/bkmail/imap/detail/read_pump.h.
use bkmail.Prelude.{
  ℕ, zero, suc, ◌≤◌, ◌<◌, ◌≡◌, refl, sym, ◌∙◌, Bool, true, false, Option, none, some, ◌||◌, Bytes,
  length, length-drop, arith, subst, inl,
}
use bkmail.Error.{unexpected_response}
use bkmail.Lexer.{
  Lexer, ScanMode, line, literal, complete, round, round_in, literal_round, line_round, end_of_line,
  find_eol, line_text, literal_trailer, Extraction, starved, waiting, extracted, extract,
  enough_fuel, next_complete_response, Frame, starving, unfinished, framed, frame_of, next_frame,
  consume_response, reset,
}
use bkmail.Lexer.Rounds.{IsCursor}
use bkmail.Lexer.Resume.{
  outcome, goes_on, waits, completes, extract_go_on, extract_wait, extract-complete,
}
use bkmail.Operation.{Operation}
use bkmail.Response.{
  ServerResponse, TaggedResponse, UntaggedResponse, tagged, untagged, continuation,
}
use bkmail.Parser.{parse}
use bkmail.Context.Defs.{Context, UnsolicitedEvent}
use bkmail.Context.Queue.{find, lookup, erase}
use bkmail.Context.Teardown.{connection_lost, maybe_finish_close, fail_cells}
use bkmail.Context.Submit.{post_kick}
use bkmail.Context.ReadPump.{
  complete_tagged, tagged_entry, notify, attribute_to, dispatch_untagged, make_unsolicited_event,
  unroute, is_bye, route_continuation, dispatch_tagged, dispatch_continuation, dispatch_one,
  dispatch_parsed, dispatch,
}
use bkmail.Context.Read.{consume, read_frame, read_loop}

-- A response ends behind a CRLF.
end_of_line_end :
    (s : Lexer) (b : Bytes) (eol : ℕ) (trailer : Option ℕ) {text : Bytes} {s' : Lexer}
    → end_of_line s b eol trailer ≡ complete text s'
    → 2 ≤ s'.response_end
unfolding end_of_line
end_of_line_end s b eol none e = ground arith
end_of_line_end s b eol (some n) e = cc

line_round_end :
    (s : Lexer) (b : Bytes) (eol : Option ℕ) {text : Bytes} {s' : Lexer}
    → line_round s b eol ≡ complete text s'
    → 2 ≤ s'.response_end
unfolding line_round
line_round_end s b none e = cc
line_round_end s b (some eol) e = end_of_line_end s b eol (literal_trailer (line_text s b eol)) e

round_end :
    (m : ScanMode) (s : Lexer) (b : Bytes) {text : Bytes} {s' : Lexer}
    → round_in m s b ≡ complete text s'
    → 2 ≤ s'.response_end
unfolding round_in literal_round
round_end line s b e = line_round_end s b (find_eol s b) e
round_end literal s b e = ground arith

extract_end :
    (f : ℕ) (s : Lexer) (b : Bytes) {text : Bytes} {s' : Lexer}
    → IsCursor s b
    → extract f s b ≡ extracted text s'
    → (2 ≤ s'.response_end) × (s'.response_end ≤ length b)
unfolding extract round
extract_end zero s b v x = cc
extract_end (suc f) s b v x = elim (outcome s b v) [
  | goes_on s1 e v' m _ ↦ extract_end f s1 b v' (sym (extract_go_on f s b e) ∙ x)
  | waits s1 e _ ↦ absurd (let no : waiting s1 ≡ _ = sym (extract_wait f s b e) ∙ x in cc)
  | completes t s1 e end _ ↦
      let same : extracted t s1 ≡ extracted _ _ = sym (extract-complete f s b e) ∙ x in
      ground (arith, round_end s.mode s b e, end)
]

frame_of_shorter :
    (b : Bytes) (x : Extraction) {text rest : Bytes} {s' : Lexer}
    → ((t : Bytes) (s1 : Lexer)
        → x ≡ extracted t s1
        → (2 ≤ s1.response_end) × (s1.response_end ≤ length b))
    → frame_of b x ≡ framed text rest s'
    → (length rest < length b) × (s' ≡ reset)
unfolding frame_of consume_response
frame_of_shorter b starved h e = cc
frame_of_shorter b (waiting s) h e = cc
frame_of_shorter b (extracted t s) h e = ground (arith, h t s refl, length-drop s.response_end b)

next_frame_shorter :
    (s : Lexer) (b : Bytes) {text rest : Bytes} {s' : Lexer}
    → IsCursor s b
    → next_frame s b ≡ framed text rest s'
    → (length rest < length b) × (s' ≡ reset)
unfolding next_frame next_complete_response
next_frame_shorter s b v e =
    frame_of_shorter b (next_complete_response s b) (λ t s1 x. extract_end (enough_fuel b) s b v x)
      e

-- The reader's part of the context.
abbrev SameReader : Context → Context → Type 0
SameReader c c' = c'.lexer ≡ c.lexer

connection_lost-lexer : (c : Context) → SameReader c (connection_lost unexpected_response c)
unfolding connection_lost maybe_finish_close fail_cells
connection_lost-lexer c = ground arith

complete_tagged-lexer :
    (r : TaggedResponse) (found : Option Operation) (c : Context)
    → SameReader c (complete_tagged r found c).0
unfolding complete_tagged
complete_tagged-lexer r none c = connection_lost-lexer c
complete_tagged-lexer r (some op) c = refl

tagged_entry-lexer :
    (r : TaggedResponse) (entry : Option ℕ) (c : Context) → SameReader c (tagged_entry r entry c).0
unfolding tagged_entry
tagged_entry-lexer r none c = refl
tagged_entry-lexer r (some j) c = complete_tagged-lexer r (find j c.write_queue) (record c {
  registry = erase r.tag c.registry;
  continuation_target = unroute c.continuation_target j;
})

notify-lexer : (e : Option UnsolicitedEvent) (c : Context) → SameReader c (notify e c)
unfolding notify
notify-lexer none c = refl
notify-lexer (some e) c = refl

dispatch_untagged-lexer :
    (r : UntaggedResponse) (c : Context) → SameReader c (dispatch_untagged r c)
unfolding dispatch_untagged attribute_to
dispatch_untagged-lexer r c =
    notify-lexer (make_unsolicited_event r)
      (record c { bye_received = c.bye_received || is_bye r.kind })

route_continuation-lexer :
    (target : Option ℕ) (c : Context) → SameReader c (route_continuation target c).0
unfolding route_continuation post_kick
route_continuation-lexer none c = connection_lost-lexer c
route_continuation-lexer (some j) c = ground arith

dispatch_parsed-lexer :
    (parsed : Option ServerResponse) (c : Context) → SameReader c (dispatch_parsed parsed c).0
unfolding dispatch_parsed dispatch_one dispatch_tagged dispatch_continuation
dispatch_parsed-lexer none c = connection_lost-lexer c
dispatch_parsed-lexer (some (tagged r)) c = tagged_entry-lexer r (lookup r.tag c.registry) c
dispatch_parsed-lexer (some (untagged r)) c = dispatch_untagged-lexer r c
dispatch_parsed-lexer (some (continuation r)) c = route_continuation-lexer c.continuation_target c

reset-IsCursor : (b : Bytes) → IsCursor reset b
reset-IsCursor b = record { behind = omega arith; inside = omega arith; resumable = λ _. inl refl }

-- One frame of the loop, with what the rest of the loop does on a shorter buffer.
consume_same :
    (again again' : Context → Context × Bool) (rest : Bytes) (r : Context × Bool)
    → again (record r.0 { read_buffer = rest }) ≡ again' (record r.0 { read_buffer = rest })
    → consume again rest r ≡ consume again' rest r
unfolding consume
consume_same again again' rest (c, true) h = h
consume_same again again' rest (c, false) h = refl

frame_same :
    (again again' : Context → Context × Bool) (f : Frame) (c : Context)
    → next_frame c.lexer c.read_buffer ≡ f
    → IsCursor c.lexer c.read_buffer
    → ((c' : Context)
        → c'.lexer ≡ reset
        → length c'.read_buffer < length c.read_buffer
        → again c' ≡ again' c')
    → read_frame again f c ≡ read_frame again' f c
unfolding read_frame dispatch
frame_same again again' starving c e v h = refl
frame_same again again' (unfinished s) c e v h = refl
frame_same again again' (framed text rest s) c e v h =
    let (shorter, same) = next_frame_shorter c.lexer c.read_buffer v e in
    let r = dispatch text (record c { lexer = s }) in
    consume_same again again' rest r (
      h (record r.0 { read_buffer = rest })
        (dispatch_parsed-lexer (parse text) (record c { lexer = s }) ∙ same) shorter)

-- The loop of `on_read` ends: from a well-formed cursor every amount of fuel above the length of the
-- buffer gives the same state and the same verdict, so no round is cut off.
pub read_loop_fuel :
    (f g : ℕ) (c : Context)
    → IsCursor c.lexer c.read_buffer
    → length c.read_buffer < f
    → length c.read_buffer < g
    → read_loop f c ≡ read_loop g c
unfolding read_loop
read_loop_fuel zero g c v hf hg = elim hf [ ]
read_loop_fuel (suc f) zero c v hf hg = elim hg [ ]
read_loop_fuel (suc f) (suc g) c v hf hg =
    frame_same (read_loop f) (read_loop g) (next_frame c.lexer c.read_buffer) c refl v
      (λ c' same shorter.
        read_loop_fuel f g c'
          (subst (λ s. IsCursor s c'.read_buffer) (sym same) (reset-IsCursor c'.read_buffer))
          (omega arith) (omega arith))
