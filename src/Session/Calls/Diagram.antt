-- ===== src/Session/Calls/Diagram.antt =====
-- The member functions against the state diagram of RFC 3501, section 3, read from the command lines.
use bkmail.Prelude.{
  ◌≡◌, refl, ap, sym, ◌∙◌, Bool, true, false, ◌&&◌, not, List, [], ◌∷◌, Option, none, some,
  if◌then◌else◌, Bytes, codes, arith,
}
use bkmail.Error.{is_error}
use bkmail.Astring.{ascii_iequals, ascii_to_upper}
use bkmail.Session.{SessionState}
use bkmail.Session.Issued.{Completion}
use bkmail.Session.Calls.{
  NotAuthenticatedCall, AuthenticatedCall, SelectedCall, login_call, authenticate_call, oauth2_call,
  start_tls_call, select_call, examine_call, list_call, status_call, create_call,
  delete_mailbox_call, rename_call, subscribe_call, unsubscribe_call, append_call,
  fetch_envelopes_call, fetch_headers_call, fetch_message_call, fetch_call, search_call, store_call,
  copy_call, move_call, expunge_call, close_call, idle_call, Call, when_not_authenticated,
  when_authenticated, when_selected,
}
use bkmail.Session.Calls.Order.{
  Kind, not_authenticated, authenticated, selected, logged_out, kind_of, kinds, goes,
  after_not_authenticated, after_authenticated, after_selected, follow, run, walk, run-walk,
}
use bkmail.Session.Calls.Permitted.{
  listed, verb_at, sent_of, name_of, or_uid, selected_name, verb_at-sent_of,
}
use bkmail.Login.Wire.{concat}

-- Behind a command that the server answered with OK, or not.
abbrev open_state : Kind → Bytes → Bool → Kind
open_state not_authenticated verb ok =
    if listed verb (codes "LOGIN" ∷ codes "AUTHENTICATE" ∷ []) && ok
    then authenticated
    else not_authenticated
open_state authenticated verb ok =
    if listed verb (codes "SELECT" ∷ codes "EXAMINE" ∷ []) && ok then selected else authenticated
open_state selected verb ok =
    if listed verb (codes "CLOSE" ∷ []) && ok
    then authenticated
    else if listed verb (codes "SELECT" ∷ codes "EXAMINE" ∷ []) && not ok
    then authenticated
    else selected
open_state logged_out verb ok = logged_out

-- The diagram: LOGOUT ends every state, a login authenticates, SELECT and EXAMINE open a mailbox and leave
-- none open when they fail, and CLOSE leaves the mailbox; nothing else changes the state.
abbrev pub next_state : Kind → Bytes → Bool → Kind
next_state k verb ok =
    if listed verb (codes "LOGOUT" ∷ []) then logged_out else open_state k verb ok

-- A CLOSE that the server refuses.
abbrev pub is_refused_close : Call → Bool → Bool
is_refused_close (when_selected close_call) ok = not ok
is_refused_close _ ok = false

not_authenticated_next :
    (call : NotAuthenticatedCall) (ok : Bool)
    → after_not_authenticated call ok
      ≡ next_state not_authenticated (name_of (when_not_authenticated call)) ok
unfolding ascii_iequals ascii_to_upper
not_authenticated_next (login_call u p) ok = refl
not_authenticated_next (authenticate_call m r) ok = refl
not_authenticated_next (oauth2_call u t) ok = refl
not_authenticated_next start_tls_call ok = refl
not_authenticated_next NotAuthenticatedCall.capability_call ok = refl
not_authenticated_next NotAuthenticatedCall.noop_call ok = refl
not_authenticated_next NotAuthenticatedCall.logout_call ok = refl

authenticated_next :
    (call : AuthenticatedCall) (ok : Bool)
    → after_authenticated call ok ≡ next_state authenticated (name_of (when_authenticated call)) ok
unfolding ascii_iequals ascii_to_upper
authenticated_next (select_call m) ok = refl
authenticated_next (examine_call m) ok = refl
authenticated_next (list_call r p) ok = refl
authenticated_next (status_call m i) ok = refl
authenticated_next (create_call m) ok = refl
authenticated_next (delete_mailbox_call m) ok = refl
authenticated_next (rename_call a b) ok = refl
authenticated_next (subscribe_call m) ok = refl
authenticated_next (unsubscribe_call m) ok = refl
authenticated_next (append_call a) ok = refl
authenticated_next AuthenticatedCall.capability_call ok = refl
authenticated_next AuthenticatedCall.noop_call ok = refl
authenticated_next AuthenticatedCall.logout_call ok = refl

or_uid_stays :
    (by_uid : Bool) (name : Bytes) (ok : Bool)
    → selected ≡ next_state selected name ok
    → selected ≡ next_state selected (or_uid by_uid name) ok
unfolding ascii_iequals ascii_to_upper
or_uid_stays true name ok h = refl
or_uid_stays false name ok h = h

selected_next :
    (call : SelectedCall) (ok : Bool)
    → is_refused_close (when_selected call) ok ≡ false
    → after_selected call ≡ next_state selected (selected_name call) ok
unfolding ascii_iequals ascii_to_upper
selected_next (fetch_envelopes_call by_uid set) ok h = or_uid_stays by_uid _ ok refl
selected_next (fetch_headers_call by_uid set fields) ok h = or_uid_stays by_uid _ ok refl
selected_next (fetch_message_call by_uid set) ok h = or_uid_stays by_uid _ ok refl
selected_next (fetch_call by_uid set items) ok h = or_uid_stays by_uid _ ok refl
selected_next (search_call by_uid criteria) ok h = or_uid_stays by_uid _ ok refl
selected_next (store_call by_uid set flags mode) ok h = or_uid_stays by_uid _ ok refl
selected_next (copy_call by_uid set mailbox) ok h = or_uid_stays by_uid _ ok refl
selected_next (move_call by_uid set mailbox) ok h = or_uid_stays by_uid _ ok refl
selected_next expunge_call ok h = refl
selected_next idle_call ok h = refl
selected_next SelectedCall.capability_call ok h = refl
selected_next SelectedCall.noop_call ok h = refl
selected_next SelectedCall.logout_call ok h = refl
selected_next close_call true h = refl
selected_next close_call false h = cc

goes_next :
    (call : Call) (ok : Bool) (k m : Kind)
    → is_refused_close call ok ≡ false
    → goes call ok k ≡ some m
    → m ≡ next_state k (name_of call) ok
goes_next (when_not_authenticated call) ok not_authenticated m r h =
    let same : m ≡ after_not_authenticated call ok = cc in same ∙ not_authenticated_next call ok
goes_next (when_authenticated call) ok authenticated m r h =
    let same : m ≡ after_authenticated call ok = cc in same ∙ authenticated_next call ok
goes_next (when_selected call) ok selected m r h =
    let same : m ≡ after_selected call = cc in same ∙ selected_next call ok r
goes_next (when_not_authenticated call) ok authenticated m r h = cc
goes_next (when_not_authenticated call) ok selected m r h = cc
goes_next (when_not_authenticated call) ok logged_out m r h = cc
goes_next (when_authenticated call) ok not_authenticated m r h = cc
goes_next (when_authenticated call) ok selected m r h = cc
goes_next (when_authenticated call) ok logged_out m r h = cc
goes_next (when_selected call) ok not_authenticated m r h = cc
goes_next (when_selected call) ok authenticated m r h = cc
goes_next (when_selected call) ok logged_out m r h = cc

-- A call with the tag of its command, and what it ended with.
abbrev pub Tagged : Type 0
Tagged = Bytes × Call × Completion

abbrev pub calls : List Tagged → List (Call × Completion)
calls [] = []
calls ((tag, call, c) ∷ es) = (call, c) ∷ calls es

abbrev pub closes_accepted : List Tagged → Bool
closes_accepted [] = true
closes_accepted ((tag, call, c) ∷ es) =
    not (is_refused_close call (not (is_error c.ec))) && closes_accepted es

-- Where the diagram leads by the command lines that the calls send.
abbrev pub travel : List Tagged → Kind → Kind
travel [] k = k
travel ((tag, call, c) ∷ es) k =
    travel es (next_state k (verb_at tag (concat (sent_of call tag))) (not (is_error c.ec)))

followed :
    (o : Option Kind) (next : Kind → Option Kind) (m : Kind)
    → follow o next ≡ some m
    → (k : Kind) × (o ≡ some k) × (next k ≡ some m)
followed none next m h = cc
followed (some k) next m h = (k, refl, h)

walk-travel :
    (es : List Tagged) (k m : Kind)
    → closes_accepted es ≡ true
    → walk (calls es) k ≡ some m
    → m ≡ travel es k
walk-travel [] k m a h = cc
walk-travel ((tag, call, c) ∷ es) k m a h =
    let (n, e, later) = followed (goes call (not (is_error c.ec)) k) (walk (calls es)) m h in
    walk-travel es n m (ground arith) later
    ∙ ap (travel es) (
        goes_next call (not (is_error c.ec)) k n (ground arith) e
        ∙ ap (λ (v : Bytes). next_state k v (not (is_error c.ec))) (sym (verb_at-sent_of call tag)))

-- Behind a chain of calls on a session, each on the state that the one before gave, the session has the state
-- to which the diagram leads by the commands on the wire and by whether each call ended without an error, if
-- no CLOSE is refused.
pub run-travel :
    (es : List Tagged) (s t : SessionState)
    → closes_accepted es ≡ true
    → run (calls es) s ≡ some t
    → kind_of t ≡ travel es (kind_of s)
run-travel es s t a h =
    walk-travel es (kind_of s) (kind_of t) a (sym (run-walk (calls es) s) ∙ ap kinds h)
