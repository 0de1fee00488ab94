-- ===== src/Tests/Commands.antt =====
-- The commands and the calls of the session states, run on concrete inputs, and their properties applied.
use bkmail.Prelude.{
  ℕ, ◌≡◌, ◌≢◌, ◌≤◌, ◌+◌, refl, true, false, ◌||◌, List, [], ◌∷◌, ◌++◌, none, some, Bytes, codes,
  take, arith,
}
use bkmail.Error.{success, command_rejected}
use bkmail.Flags.{empty_flags}
use bkmail.Response.{ResponseStatus, UntaggedKind, capability_code, UntaggedResponse}
use bkmail.Capability.{CapabilitySet, contains}
use bkmail.Line.Arguments.{read_arguments}
use bkmail.Line.Wire.{read_request, Request, command_of, verb_of, operands_of, read_request-line}
use bkmail.Listing
use bkmail.Listing.Render.{quoted, literal, render_row, entry_of}
use bkmail.Listing.RoundTrip.{parse_row-render_row}
use bkmail.Status
use bkmail.Status.{MailboxStatus, new_status}
use bkmail.Status.RoundTrip.{
  messages, uid_next, assign_all, render_status_row, parse_row-render_status_row,
}
use bkmail.Search
use bkmail.Search.{scan}
use bkmail.Search.Stuck.{scan_stuck, scan_total}
use bkmail.Search.Numbers.{search_response, on_untagged-listed}
use bkmail.CapabilityCommand
use bkmail.CapabilityCommand.Collected.{
  absorb_all, mentioned, mentions, code_atoms, on_tagged-absorb_all,
}
use bkmail.Authenticate.{append_base64, initial_line, payload_line, render, authenticate_oauth2}
use bkmail.Authenticate.Oauth2.{initial_response, render-authenticate_oauth2}
use bkmail.Authenticate.Challenges.{
  Event, pumped, challenged, run, rendered, full, challenges, second, first_line, run-rendered,
}
use bkmail.Mime.{decode_base64, oauth2_response}
use bkmail.Login.{login_command}
use bkmail.Login.Wire.{concat, read_arguments-login_command}
use bkmail.FetchCommand.Message.{Mail}
use bkmail.Session.{
  Connection, MailboxInfo, SessionState, not_authenticated_state, authenticated_state,
  selected_state,
}
use bkmail.Session.Issued.{Completion}
use bkmail.Session.Calls.{
  Call, when_not_authenticated, when_authenticated, when_selected, login_call, select_call,
  move_call, close_call, idle_call, start_tls_call,
}
use bkmail.Session.Calls.Order.{kind_of, logs_in_then_selects, run_selected}
use bkmail.Session.Calls.Diagram.{Tagged, travel, run-travel}
use bkmail.Session.Calls.Permitted.{listed, verb_at, sent_of, permitted_of, sent-permitted}

abbrev plain : Connection
plain = record { secure = true; capabilities = codes "IMAP4REV1" ∷ []; busy = false }

abbrev inbox : MailboxInfo
inbox = record {
  name = codes "INBOX";
  exists = 3;
  recent = 0;
  unseen = none;
  uid_validity = 7;
  uid_next = 12;
  flags = empty_flags;
  permanent_flags = empty_flags;
  read_only = false;
}

abbrev done_well : Completion
done_well = record { ec = success; capabilities = []; info = inbox; upgraded = false }

abbrev done_badly : Completion
done_badly = record { ec = command_rejected; capabilities = []; info = inbox; upgraded = false }

abbrev chain : List (Call × Completion)
chain =
    (when_not_authenticated (login_call (codes "ann") (codes "pw")), done_badly)
    ∷ (when_not_authenticated (login_call (codes "ann") (codes "secret")), done_well)
    ∷ (when_authenticated (select_call (codes "INBOX")), done_well)
    ∷ (when_selected (move_call true (codes "5") (codes "Old")), done_well)
    ∷ []

abbrev tagged_chain : List Tagged
tagged_chain =
    (codes "a1", when_not_authenticated start_tls_call, done_badly)
    ∷ (codes "a2", when_not_authenticated (login_call (codes "ann") (codes "secret")), done_well)
    ∷ (codes "a3", when_authenticated (select_call (codes "INBOX")), done_well)
    ∷ (codes "a4", when_selected idle_call, done_well)
    ∷ (codes "a5", when_selected close_call, done_well)
    ∷ []

run-travel_example :
    kind_of (authenticated_state plain)
    ≡ travel tagged_chain (kind_of (not_authenticated_state plain))
unfolding bkmail.Session.Calls.perform
run-travel_example =
    run-travel tagged_chain (not_authenticated_state plain) (authenticated_state plain) refl refl

run_selected_example : logs_in_then_selects chain ≡ true
unfolding bkmail.Session.Calls.perform
run_selected_example = run_selected chain plain plain inbox refl

sent-permitted_example :
    listed
      (verb_at (codes "a1") (concat (sent_of (when_selected idle_call) (codes "a1"))))
      (permitted_of (when_selected idle_call))
    ≡ true
sent-permitted_example = sent-permitted (when_selected idle_call) (codes "a1")

parse_row-render_row_example :
    Listing.parse_row (
      render_row
        (codes "\\hasNoChildren" ∷ codes "\\Marked" ∷ [])
        (some b'/')
        literal
        (codes "a b"))
    ≡ some (entry_of (codes "\\hasNoChildren" ∷ codes "\\Marked" ∷ []) (some b'/') (codes "a b"))
parse_row-render_row_example =
    parse_row-render_row (codes "\\hasNoChildren" ∷ codes "\\Marked" ∷ []) (some b'/') literal
      (codes "a b") (refl, (refl, tt)) (omega arith)

parse_row-render_status_row_example :
    Status.parse_row
      (render_status_row quoted
        (codes "a (b)")
        ((messages, 231) ∷ (uid_next, 44292) ∷ (messages, 4) ∷ []))
      new_status
    ≡ assign_all ((messages, 231) ∷ (uid_next, 44292) ∷ (messages, 4) ∷ []) new_status
parse_row-render_status_row_example =
    parse_row-render_status_row quoted (codes "a (b)")
      ((messages, 231) ∷ (uid_next, 44292) ∷ (messages, 4) ∷ []) new_status tt
      (omega arith, (omega arith, (omega arith, tt)))

scan_stuck_example : scan 100 (codes "2 84 (MODSEQ 917162500)") [] ≡ none
unfolding bkmail.Astring.is_digit
scan_stuck_example = scan_stuck 100 (codes "2 84 (MODSEQ 917162500)") [] refl

scan_total_example : (found : List ℕ) × (scan 6 (codes "2 84 5") [] ≡ some found)
unfolding bkmail.Astring.is_digit
scan_total_example = scan_total 6 (codes "2 84 5") [] (omega arith) refl

abbrev empty_response : UntaggedResponse
empty_response = record {
  kind = UntaggedKind.unknown;
  number = 0;
  status = ResponseStatus.ok;
  code = none;
  text = [];
  payload = [];
}

on_untagged-listed_example :
    Search.on_untagged (search_response (2 ∷ 84 ∷ []) empty_response) (1 ∷ [])
    ≡ some (1 ∷ 2 ∷ 84 ∷ [])
on_untagged-listed_example =
    on_untagged-listed (2 ∷ 84 ∷ []) (1 ∷ []) empty_response (omega arith, (omega arith, tt))

on_tagged-absorb_all_example :
    (set : CapabilitySet) × (CapabilityCommand.on_tagged ResponseStatus.ok
        (some (capability_code (codes "UIDPLUS" ∷ [])))
        (absorb_all (empty_response ∷ []) [])
      ≡ (success, some set))
    × (contains (codes "UIDPLUS") set ≡ (
        mentioned (codes "UIDPLUS") (empty_response ∷ [])
        || mentions (codes "UIDPLUS") (code_atoms (some (capability_code (codes "UIDPLUS" ∷ []))))))
on_tagged-absorb_all_example =
    on_tagged-absorb_all (codes "UIDPLUS") (empty_response ∷ [])
      (some (capability_code (codes "UIDPLUS" ∷ [])))

render-authenticate_oauth2_example :
    ((render (codes "a1") (authenticate_oauth2 (codes "ann") (codes "tok"))).segments
      ≡ initial_line (codes "a1") (codes "XOAUTH2") []
        ∷ (append_base64 (oauth2_response (codes "ann") (codes "tok")) ++ codes "\r\n")
        ∷ [])
    × (decode_base64 (append_base64 (oauth2_response (codes "ann") (codes "tok")))
        ≡ some (oauth2_response (codes "ann") (codes "tok")))
    × (oauth2_response (codes "ann") (codes "tok") ≢ initial_response (codes "ann") (codes "tok"))
render-authenticate_oauth2_example =
    render-authenticate_oauth2 (codes "a1") (codes "ann") (codes "tok")

abbrev exchange : List Event
exchange = pumped ∷ pumped ∷ challenged ∷ pumped ∷ challenged ∷ pumped ∷ []

run-rendered_example :
    let x = run exchange (rendered true (codes "a1") (codes "PLAIN") (codes "abc")) in
    (x.sent
      ≡ take x.command.emitted (
          full
            (first_line true (codes "a1") (codes "PLAIN") (codes "abc"))
            (second true (payload_line (codes "abc")))))
    × (x.command.emitted ≤ 1 + challenges exchange 0)
    × (x.command.emitted ≤ 4)
run-rendered_example = run-rendered true (codes "a1") (codes "PLAIN") (codes "abc") exchange

read_arguments-login_command_example :
    (rest : Bytes) × (concat
        (login_command false (codes "ann") (codes "p\nw") (codes "a1")).segments
      ≡ codes "a1" ++ (codes " LOGIN" ++ rest))
    × (read_arguments 3 rest ≡ some (codes "ann" ∷ codes "p\nw" ∷ []))
read_arguments-login_command_example =
    read_arguments-login_command false (codes "ann") (codes "p\nw") (codes "a1") refl refl
      (omega arith) (omega arith)

read_request-line_example :
    read_request ((command_of (Request.rename (codes "a b") (codes "c"))).line (codes "a1"))
    ≡ some (record {
      tag = codes "a1";
      verb = verb_of (Request.rename (codes "a b") (codes "c"));
      operands = operands_of (Request.rename (codes "a b") (codes "c"));
    })
unfolding bkmail.Astring.is_atom_char
read_request-line_example =
    read_request-line (Request.rename (codes "a b") (codes "c")) (codes "a1") refl
      ((refl, refl), ((refl, refl), tt))
