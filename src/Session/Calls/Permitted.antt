-- ===== src/Session/Calls/Permitted.antt =====
-- The commands that each state sends, against the table of RFC 3501, section 6, with MOVE of RFC 6851 and
-- IDLE of RFC 2177.
use bkmail.Prelude.{
  ◌≡◌, refl, ap, ◌∙◌, Bool, true, false, ◌||◌, List, [], ◌∷◌, ◌++◌, append_assoc, append-nil, Bytes,
  codes, length, take_while, drop, drop-append_self,
}
use bkmail.Astring.{is_atom_char, is_atom_special, ascii_iequals, ascii_to_upper}
use bkmail.Session.Calls.{
  NotAuthenticatedCall, AuthenticatedCall, SelectedCall, login_call, authenticate_call, oauth2_call,
  select_call, examine_call, list_call, status_call, create_call, delete_mailbox_call, rename_call,
  subscribe_call, unsubscribe_call, append_call, fetch_envelopes_call, fetch_headers_call,
  fetch_message_call, fetch_call, search_call, store_call, copy_call, move_call, expunge_call,
  close_call, idle_call, start_tls_call, not_authenticated_op, authenticated_op, selected_op, Call,
  when_not_authenticated, when_authenticated, when_selected,
}
use bkmail.Login.Wire.{concat}
use bkmail.Login.Wire
use bkmail.Append.Literal
use bkmail.FetchCommand.Request.{fetch_line_lem}

abbrev pub listed : Bytes → List Bytes → Bool
listed verb [] = false
listed verb (v ∷ vs) = ascii_iequals verb v || listed verb vs

abbrev pub any_state : List Bytes
any_state = codes "CAPABILITY" ∷ codes "NOOP" ∷ codes "LOGOUT" ∷ []

abbrev pub not_authenticated_verbs : List Bytes
not_authenticated_verbs = codes "STARTTLS" ∷ codes "AUTHENTICATE" ∷ codes "LOGIN" ∷ any_state

abbrev pub authenticated_verbs : List Bytes
authenticated_verbs =
    codes "SELECT"
    ∷ codes "EXAMINE"
    ∷ codes "CREATE"
    ∷ codes "DELETE"
    ∷ codes "RENAME"
    ∷ codes "SUBSCRIBE"
    ∷ codes "UNSUBSCRIBE"
    ∷ codes "LIST"
    ∷ codes "LSUB"
    ∷ codes "STATUS"
    ∷ codes "APPEND"
    ∷ any_state

abbrev pub selected_verbs : List Bytes
selected_verbs =
    codes "IDLE"
    ∷ codes "CHECK"
    ∷ codes "CLOSE"
    ∷ codes "EXPUNGE"
    ∷ codes "SEARCH"
    ∷ codes "FETCH"
    ∷ codes "STORE"
    ∷ codes "COPY"
    ∷ codes "MOVE"
    ∷ codes "UID"
    ∷ authenticated_verbs

-- The word behind the tag and one more byte.
abbrev pub verb_at : Bytes → Bytes → Bytes
verb_at tag wire = take_while is_atom_char (drop 1 (drop (length tag) wire))

verb_reads :
    (tag rest wire : Bytes)
    → wire ≡ tag ++ rest
    → verb_at tag wire ≡ take_while is_atom_char (drop 1 rest)
verb_reads tag rest wire e =
    ap (verb_at tag) e
    ∙ ap (λ (t : Bytes). take_while is_atom_char (drop 1 t)) (drop-append_self tag rest)

-- The name of the command that each member function sends.
abbrev pub not_authenticated_name : NotAuthenticatedCall → Bytes
not_authenticated_name (login_call user_name password) = codes "LOGIN"
not_authenticated_name (authenticate_call mechanism response) = codes "AUTHENTICATE"
not_authenticated_name (oauth2_call user token) = codes "AUTHENTICATE"
not_authenticated_name start_tls_call = codes "STARTTLS"
not_authenticated_name NotAuthenticatedCall.capability_call = codes "CAPABILITY"
not_authenticated_name NotAuthenticatedCall.noop_call = codes "NOOP"
not_authenticated_name NotAuthenticatedCall.logout_call = codes "LOGOUT"

abbrev pub authenticated_name : AuthenticatedCall → Bytes
authenticated_name (select_call m) = codes "SELECT"
authenticated_name (examine_call m) = codes "EXAMINE"
authenticated_name (list_call r p) = codes "LIST"
authenticated_name (status_call m i) = codes "STATUS"
authenticated_name (create_call m) = codes "CREATE"
authenticated_name (delete_mailbox_call m) = codes "DELETE"
authenticated_name (rename_call a b) = codes "RENAME"
authenticated_name (subscribe_call m) = codes "SUBSCRIBE"
authenticated_name (unsubscribe_call m) = codes "UNSUBSCRIBE"
authenticated_name (append_call a) = codes "APPEND"
authenticated_name AuthenticatedCall.capability_call = codes "CAPABILITY"
authenticated_name AuthenticatedCall.noop_call = codes "NOOP"
authenticated_name AuthenticatedCall.logout_call = codes "LOGOUT"

abbrev pub or_uid : Bool → Bytes → Bytes
or_uid true name = codes "UID"
or_uid false name = name

abbrev pub selected_name : SelectedCall → Bytes
selected_name (fetch_envelopes_call by_uid set) = or_uid by_uid (codes "FETCH")
selected_name (fetch_headers_call by_uid set fields) = or_uid by_uid (codes "FETCH")
selected_name (fetch_message_call by_uid set) = or_uid by_uid (codes "FETCH")
selected_name (fetch_call by_uid set items) = or_uid by_uid (codes "FETCH")
selected_name (search_call by_uid criteria) = or_uid by_uid (codes "SEARCH")
selected_name (store_call by_uid set flags mode) = or_uid by_uid (codes "STORE")
selected_name (copy_call by_uid set mailbox) = or_uid by_uid (codes "COPY")
selected_name (move_call by_uid set mailbox) = or_uid by_uid (codes "MOVE")
selected_name expunge_call = codes "EXPUNGE"
selected_name close_call = codes "CLOSE"
selected_name idle_call = codes "IDLE"
selected_name SelectedCall.capability_call = codes "CAPABILITY"
selected_name SelectedCall.noop_call = codes "NOOP"
selected_name SelectedCall.logout_call = codes "LOGOUT"

regrouped : (tag y s x : Bytes) → ((tag ++ y) ++ s) ++ x ≡ tag ++ ((y ++ s) ++ x)
regrouped tag y s x = simp append_assoc

not_authenticated_verb :
    (call : NotAuthenticatedCall) (tag : Bytes)
    → verb_at tag (concat ((not_authenticated_op call).sent tag)) ≡ not_authenticated_name call
unfolding not_authenticated_op is_atom_char is_atom_special
not_authenticated_verb (login_call user_name password) tag =
    verb_reads tag _ _ (Wire.joined false user_name password tag)
not_authenticated_verb (authenticate_call mechanism response) tag =
    verb_reads tag _ _ (append_assoc tag _ _)
not_authenticated_verb (oauth2_call user token) tag = verb_reads tag _ _ (append_assoc tag _ _)
not_authenticated_verb start_tls_call tag = verb_reads tag _ _ (append-nil _)
not_authenticated_verb NotAuthenticatedCall.capability_call tag = verb_reads tag _ _ (append-nil _)
not_authenticated_verb NotAuthenticatedCall.noop_call tag = verb_reads tag _ _ (append-nil _)
not_authenticated_verb NotAuthenticatedCall.logout_call tag = verb_reads tag _ _ (append-nil _)

authenticated_verb :
    (call : AuthenticatedCall) (tag : Bytes)
    → verb_at tag (concat ((authenticated_op call).sent tag)) ≡ authenticated_name call
unfolding authenticated_op is_atom_char is_atom_special
authenticated_verb (select_call m) tag = verb_reads tag _ _ (append-nil _)
authenticated_verb (examine_call m) tag = verb_reads tag _ _ (append-nil _)
authenticated_verb (list_call r p) tag = verb_reads tag _ _ (append-nil _)
authenticated_verb (status_call m i) tag = verb_reads tag _ _ (append-nil _)
authenticated_verb (create_call m) tag = verb_reads tag _ _ (append-nil _)
authenticated_verb (delete_mailbox_call m) tag = verb_reads tag _ _ (append-nil _)
authenticated_verb (rename_call a b) tag = verb_reads tag _ _ (append-nil _)
authenticated_verb (subscribe_call m) tag = verb_reads tag _ _ (append-nil _)
authenticated_verb (unsubscribe_call m) tag = verb_reads tag _ _ (append-nil _)
authenticated_verb (append_call a) tag =
    verb_reads tag _ _ (Literal.joined a tag ∙ regrouped tag _ _ _)
authenticated_verb AuthenticatedCall.capability_call tag = verb_reads tag _ _ (append-nil _)
authenticated_verb AuthenticatedCall.noop_call tag = verb_reads tag _ _ (append-nil _)
authenticated_verb AuthenticatedCall.logout_call tag = verb_reads tag _ _ (append-nil _)

selected_verb :
    (call : SelectedCall) (tag : Bytes)
    → verb_at tag (concat ((selected_op call).sent tag)) ≡ selected_name call
unfolding selected_op is_atom_char is_atom_special
selected_verb (fetch_envelopes_call true set) tag = verb_reads tag _ _ (append-nil _)
selected_verb (fetch_envelopes_call false set) tag = verb_reads tag _ _ (append-nil _)
selected_verb (fetch_headers_call true set fields) tag = verb_reads tag _ _ (append-nil _)
selected_verb (fetch_headers_call false set fields) tag = verb_reads tag _ _ (append-nil _)
selected_verb (fetch_message_call true set) tag = verb_reads tag _ _ (append-nil _)
selected_verb (fetch_message_call false set) tag = verb_reads tag _ _ (append-nil _)
selected_verb (fetch_call true set items) tag =
    verb_reads tag _ _ (append-nil _ ∙ (fetch_line_lem set tag items).1)
selected_verb (fetch_call false set items) tag =
    verb_reads tag _ _ (append-nil _ ∙ (fetch_line_lem set tag items).0)
selected_verb (search_call true criteria) tag = verb_reads tag _ _ (append-nil _)
selected_verb (search_call false criteria) tag = verb_reads tag _ _ (append-nil _)
selected_verb (store_call true set flags mode) tag = verb_reads tag _ _ (append-nil _)
selected_verb (store_call false set flags mode) tag = verb_reads tag _ _ (append-nil _)
selected_verb (copy_call true set mailbox) tag = verb_reads tag _ _ (append-nil _)
selected_verb (copy_call false set mailbox) tag = verb_reads tag _ _ (append-nil _)
selected_verb (move_call true set mailbox) tag = verb_reads tag _ _ (append-nil _)
selected_verb (move_call false set mailbox) tag = verb_reads tag _ _ (append-nil _)
selected_verb expunge_call tag = verb_reads tag _ _ (append-nil _)
selected_verb close_call tag = verb_reads tag _ _ (append-nil _)
selected_verb idle_call tag = verb_reads tag _ _ (append_assoc tag _ _)
selected_verb SelectedCall.capability_call tag = verb_reads tag _ _ (append-nil _)
selected_verb SelectedCall.noop_call tag = verb_reads tag _ _ (append-nil _)
selected_verb SelectedCall.logout_call tag = verb_reads tag _ _ (append-nil _)

-- The segments of a call with a tag.
abbrev pub sent_of : Call → Bytes → List Bytes
sent_of (when_not_authenticated call) tag = (not_authenticated_op call).sent tag
sent_of (when_authenticated call) tag = (authenticated_op call).sent tag
sent_of (when_selected call) tag = (selected_op call).sent tag

-- What is permitted in the state that the call belongs to.
abbrev pub permitted_of : Call → List Bytes
permitted_of (when_not_authenticated call) = not_authenticated_verbs
permitted_of (when_authenticated call) = authenticated_verbs
permitted_of (when_selected call) = selected_verbs

abbrev pub name_of : Call → Bytes
name_of (when_not_authenticated call) = not_authenticated_name call
name_of (when_authenticated call) = authenticated_name call
name_of (when_selected call) = selected_name call

pub verb_at-sent_of :
    (call : Call) (tag : Bytes) → verb_at tag (concat (sent_of call tag)) ≡ name_of call
verb_at-sent_of (when_not_authenticated call) tag = not_authenticated_verb call tag
verb_at-sent_of (when_authenticated call) tag = authenticated_verb call tag
verb_at-sent_of (when_selected call) tag = selected_verb call tag

or_uid-listed :
    (by_uid : Bool) (name : Bytes)
    → listed name selected_verbs ≡ true
    → listed (or_uid by_uid name) selected_verbs ≡ true
unfolding ascii_iequals ascii_to_upper
or_uid-listed true name h = refl
or_uid-listed false name h = h

not_authenticated_listed :
    (call : NotAuthenticatedCall)
    → listed (not_authenticated_name call) not_authenticated_verbs ≡ true
unfolding ascii_iequals ascii_to_upper
not_authenticated_listed (login_call u p) = refl
not_authenticated_listed (authenticate_call m r) = refl
not_authenticated_listed (oauth2_call u t) = refl
not_authenticated_listed start_tls_call = refl
not_authenticated_listed NotAuthenticatedCall.capability_call = refl
not_authenticated_listed NotAuthenticatedCall.noop_call = refl
not_authenticated_listed NotAuthenticatedCall.logout_call = refl

authenticated_listed :
    (call : AuthenticatedCall) → listed (authenticated_name call) authenticated_verbs ≡ true
unfolding ascii_iequals ascii_to_upper
authenticated_listed (select_call m) = refl
authenticated_listed (examine_call m) = refl
authenticated_listed (list_call r p) = refl
authenticated_listed (status_call m i) = refl
authenticated_listed (create_call m) = refl
authenticated_listed (delete_mailbox_call m) = refl
authenticated_listed (rename_call a b) = refl
authenticated_listed (subscribe_call m) = refl
authenticated_listed (unsubscribe_call m) = refl
authenticated_listed (append_call a) = refl
authenticated_listed AuthenticatedCall.capability_call = refl
authenticated_listed AuthenticatedCall.noop_call = refl
authenticated_listed AuthenticatedCall.logout_call = refl

selected_listed : (call : SelectedCall) → listed (selected_name call) selected_verbs ≡ true
unfolding ascii_iequals ascii_to_upper
selected_listed (fetch_envelopes_call by_uid set) = or_uid-listed by_uid _ refl
selected_listed (fetch_headers_call by_uid set fields) = or_uid-listed by_uid _ refl
selected_listed (fetch_message_call by_uid set) = or_uid-listed by_uid _ refl
selected_listed (fetch_call by_uid set items) = or_uid-listed by_uid _ refl
selected_listed (search_call by_uid criteria) = or_uid-listed by_uid _ refl
selected_listed (store_call by_uid set flags mode) = or_uid-listed by_uid _ refl
selected_listed (copy_call by_uid set mailbox) = or_uid-listed by_uid _ refl
selected_listed (move_call by_uid set mailbox) = or_uid-listed by_uid _ refl
selected_listed expunge_call = refl
selected_listed close_call = refl
selected_listed idle_call = refl
selected_listed SelectedCall.capability_call = refl
selected_listed SelectedCall.noop_call = refl
selected_listed SelectedCall.logout_call = refl

call_listed : (call : Call) → listed (name_of call) (permitted_of call) ≡ true
call_listed (when_not_authenticated call) = not_authenticated_listed call
call_listed (when_authenticated call) = authenticated_listed call
call_listed (when_selected call) = selected_listed call

-- Whatever member function of a session's state is called, with any arguments, the command line that it sends
-- has behind the tag the name of a command that RFC 3501, RFC 6851 for MOVE or RFC 2177 for IDLE permits in
-- that state.
pub sent-permitted :
    (call : Call) (tag : Bytes)
    → listed (verb_at tag (concat (sent_of call tag))) (permitted_of call) ≡ true
sent-permitted call tag =
    ap (λ (v : Bytes). listed v (permitted_of call)) (verb_at-sent_of call tag) ∙ call_listed call
