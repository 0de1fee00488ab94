-- ===== src/Session/Calls/Order.antt =====
-- The kinds of state along a chain of calls.
use bkmail.Prelude.{
  ◌≡◌, refl, ap, sym, ◌∙◌, ◌⊎◌, Bool, true, false, ◌&&◌, ◌||◌, not, List, [], ◌∷◌, Option, none,
  some, if◌then◌else◌, inl, inr, arith,
}
use bkmail.Error.{is_error}
use bkmail.Session.{
  Connection, MailboxInfo, SessionState, not_authenticated_state, authenticated_state,
  selected_state, logout_state,
}
use bkmail.Session.Issued.{Completion, settled}
use bkmail.Session.Calls.{
  NotAuthenticatedCall, AuthenticatedCall, SelectedCall, login_call, authenticate_call, oauth2_call,
  select_call, examine_call, close_call, not_authenticated_op, authenticated_op, selected_op, Call,
  when_not_authenticated, when_authenticated, when_selected, perform,
}

pub data Kind : Type 0 where
  not_authenticated authenticated selected logged_out : Kind

abbrev pub kind_of : SessionState → Kind
kind_of (not_authenticated_state connection) = not_authenticated
kind_of (authenticated_state connection) = authenticated
kind_of (selected_state connection info) = selected
kind_of logout_state = logged_out

-- The state behind a command that the server answered with OK, or not.
abbrev pub after_not_authenticated : NotAuthenticatedCall → Bool → Kind
after_not_authenticated (login_call u p) accepted =
    if accepted then authenticated else not_authenticated
after_not_authenticated (authenticate_call m r) accepted =
    if accepted then authenticated else not_authenticated
after_not_authenticated (oauth2_call u t) accepted =
    if accepted then authenticated else not_authenticated
after_not_authenticated NotAuthenticatedCall.logout_call accepted = logged_out
after_not_authenticated _ accepted = not_authenticated

abbrev pub after_authenticated : AuthenticatedCall → Bool → Kind
after_authenticated (select_call m) accepted = if accepted then selected else authenticated
after_authenticated (examine_call m) accepted = if accepted then selected else authenticated
after_authenticated AuthenticatedCall.logout_call accepted = logged_out
after_authenticated _ accepted = authenticated

abbrev pub after_selected : SelectedCall → Kind
after_selected close_call = authenticated
after_selected SelectedCall.logout_call = logged_out
after_selected _ = selected

-- The same for a call that belongs to the state.
abbrev pub goes : Call → Bool → Kind → Option Kind
goes (when_not_authenticated call) accepted not_authenticated =
    some (after_not_authenticated call accepted)
goes (when_authenticated call) accepted authenticated = some (after_authenticated call accepted)
goes (when_selected call) accepted selected = some (after_selected call)
goes _ accepted _ = none

abbrev pub kinds : Option SessionState → Option Kind
kinds none = none
kinds (some s) = some (kind_of s)

not_authenticated_goes :
    (call : NotAuthenticatedCall) (connection : Connection) (c : Completion)
    → kind_of (settled (not_authenticated_op call) connection c)
      ≡ after_not_authenticated call (not (is_error c.ec))
unfolding settled not_authenticated_op
not_authenticated_goes call connection c = ground arith

authenticated_goes :
    (call : AuthenticatedCall) (connection : Connection) (c : Completion)
    → kind_of (settled (authenticated_op call) connection c)
      ≡ after_authenticated call (not (is_error c.ec))
unfolding settled authenticated_op
authenticated_goes call connection c = ground arith

selected_goes :
    (call : SelectedCall) (connection : Connection) (c : Completion)
    → kind_of (settled (selected_op call) connection c) ≡ after_selected call
unfolding settled selected_op
selected_goes call connection c = ground arith

perform-goes :
    (call : Call) (c : Completion) (s : SessionState)
    → kinds (perform call c s) ≡ goes call (not (is_error c.ec)) (kind_of s)
unfolding perform
perform-goes (when_not_authenticated call) c (not_authenticated_state connection) =
    ap (λ k. some k) (not_authenticated_goes call connection c)
perform-goes (when_authenticated call) c (authenticated_state connection) =
    ap (λ k. some k) (authenticated_goes call connection c)
perform-goes (when_selected call) c (selected_state connection info) =
    ap (λ k. some k) (selected_goes call connection c)
perform-goes (when_not_authenticated call) c (authenticated_state connection) = refl
perform-goes (when_not_authenticated call) c (selected_state connection info) = refl
perform-goes (when_not_authenticated call) c logout_state = refl
perform-goes (when_authenticated call) c (not_authenticated_state connection) = refl
perform-goes (when_authenticated call) c (selected_state connection info) = refl
perform-goes (when_authenticated call) c logout_state = refl
perform-goes (when_selected call) c (not_authenticated_state connection) = refl
perform-goes (when_selected call) c (authenticated_state connection) = refl
perform-goes (when_selected call) c logout_state = refl

abbrev pub follow {ℓ} : {S : Type ℓ} → Option S → (S → Option S) → Option S
follow none k = none
follow (some s) k = k s

-- A chain of calls, each on the state that the one before gave.
abbrev pub run : List (Call × Completion) → SessionState → Option SessionState
run [] s = some s
run ((call, c) ∷ es) s = follow (perform call c s) (run es)

abbrev pub walk : List (Call × Completion) → Kind → Option Kind
walk [] k = some k
walk ((call, c) ∷ es) k = follow (goes call (not (is_error c.ec)) k) (walk es)

kinds-follow :
    (es : List (Call × Completion))
    → ((t : SessionState) → kinds (run es t) ≡ walk es (kind_of t))
    → (o : Option SessionState) → kinds (follow o (run es)) ≡ follow (kinds o) (walk es)
kinds-follow es ih none = refl
kinds-follow es ih (some t) = ih t

or_true : (b : Bool) → (b || true) ≡ true
or_true b = ground arith

-- The kinds of state along a chain depend only on which calls end without an error.
pub run-walk :
    (es : List (Call × Completion)) (s : SessionState) → kinds (run es s) ≡ walk es (kind_of s)
run-walk [] s = refl
run-walk ((call, c) ∷ es) s =
    kinds-follow es (run-walk es) (perform call c s)
    ∙ ap (λ (k : Option Kind). follow k (walk es)) (perform-goes call c s)

abbrev pub is_login : Call × Completion → Bool
is_login (when_not_authenticated (login_call u p), c) = not (is_error c.ec)
is_login (when_not_authenticated (authenticate_call m r), c) = not (is_error c.ec)
is_login (when_not_authenticated (oauth2_call u t), c) = not (is_error c.ec)
is_login _ = false

abbrev pub is_selecting : Call × Completion → Bool
is_selecting (when_authenticated (select_call m), c) = not (is_error c.ec)
is_selecting (when_authenticated (examine_call m), c) = not (is_error c.ec)
is_selecting _ = false

abbrev pub selects : List (Call × Completion) → Bool
selects [] = false
selects (e ∷ es) = is_selecting e || selects es

abbrev pub logs_in_then_selects : List (Call × Completion) → Bool
logs_in_then_selects [] = false
logs_in_then_selects (e ∷ es) = (is_login e && selects es) || logs_in_then_selects es

walk_logged_out : (es : List (Call × Completion)) → walk es logged_out ≡ some selected → ⊥
walk_logged_out [] h = cc
walk_logged_out ((when_not_authenticated call, c) ∷ es) h = cc
walk_logged_out ((when_authenticated call, c) ∷ es) h = cc
walk_logged_out ((when_selected call, c) ∷ es) h = cc

selecting_goes :
    (call : AuthenticatedCall) (c : Completion)
    → (is_selecting (when_authenticated call, c) ≡ true)
      ⊎ ((after_authenticated call (not (is_error c.ec)) ≡ authenticated)
          ⊎ (after_authenticated call (not (is_error c.ec)) ≡ logged_out))
selecting_goes call c = ground arith

walk-authenticated :
    (es : List (Call × Completion)) → walk es authenticated ≡ some selected → selects es ≡ true
walk-authenticated [] h = cc
walk-authenticated ((when_not_authenticated call, c) ∷ es) h = cc
walk-authenticated ((when_selected call, c) ∷ es) h = cc
walk-authenticated ((when_authenticated call, c) ∷ es) h = elim (selecting_goes call c) [
  | inl here ↦ rw here refl
  | inr (inl stays) ↦
      let later = walk-authenticated es (sym (ap (walk es) stays) ∙ h) in rw later (or_true _)
  | inr (inr out) ↦ absurd (walk_logged_out es (sym (ap (walk es) out) ∙ h))
]

login_goes :
    (call : NotAuthenticatedCall) (c : Completion)
    → ((is_login (when_not_authenticated call, c) ≡ true)
        × (after_not_authenticated call (not (is_error c.ec)) ≡ authenticated))
      ⊎ ((after_not_authenticated call (not (is_error c.ec)) ≡ not_authenticated)
          ⊎ (after_not_authenticated call (not (is_error c.ec)) ≡ logged_out))
login_goes call c = ground arith

walk-not_authenticated :
    (es : List (Call × Completion))
    → walk es not_authenticated ≡ some selected
    → logs_in_then_selects es ≡ true
walk-not_authenticated [] h = cc
walk-not_authenticated ((when_authenticated call, c) ∷ es) h = cc
walk-not_authenticated ((when_selected call, c) ∷ es) h = cc
walk-not_authenticated ((when_not_authenticated call, c) ∷ es) h = elim (login_goes call c) [
  | inl (login, authed) ↦ rw (login, walk-authenticated es (sym (ap (walk es) authed) ∙ h)) refl
  | inr (inl stays) ↦
      let later = walk-not_authenticated es (sym (ap (walk es) stays) ∙ h) in rw later (or_true _)
  | inr (inr out) ↦ absurd (walk_logged_out es (sym (ap (walk es) out) ∙ h))
]

-- A chain of calls that starts with a state that is not authenticated ends in a selected mailbox only if it
-- has a successful LOGIN or AUTHENTICATE, and a successful SELECT or EXAMINE behind it.
pub run_selected :
    (es : List (Call × Completion)) (connection connection' : Connection) (info : MailboxInfo)
    → run es (not_authenticated_state connection) ≡ some (selected_state connection' info)
    → logs_in_then_selects es ≡ true
run_selected es connection connection' info h =
    walk-not_authenticated es (sym (run-walk es (not_authenticated_state connection)) ∙ ap kinds h)
