-- ===== src/Session/StartTls/Upgrade.antt =====
-- Who may still complete the STARTTLS upgrade of not_authenticated.h.
use bkmail.Prelude.{
  ℕ, ◌+◌, ◌≤◌, ◌≡◌, refl, Bool, true, false, ◌&&◌, ◌||◌, not, List, [], ◌∷◌, arith, Bool-cases, inl,
  inr, length,
}
use bkmail.Error.{ErrorCode}
use bkmail.Capability.{CapabilitySet}
use bkmail.Session.{Connection, Outcome, SessionState, set_capabilities}
use bkmail.Session.StartTls.{
  Phase, starttls, handshake, capability, StartTls, start, stop_requested, stop_forwarded,
  reset_stop_callback, deliver, finish_stopped, complete, on_starttls, emplace_tls_context,
  on_handshake, on_capability, on_reply, Event, replied, handshaken, stop_first, stop_second,
  delivered, step, run,
}

abbrev bit : Bool → ℕ
bit true = 1
bit false = 0

abbrev is_capability : Phase → Bool
is_capability capability = true
is_capability _ = false

-- A call of the handler is dropped in the first phase once the completion is claimed.
abbrev pub is_live : StartTls → Bool
is_live s = not s.completed || is_capability s.phase

-- Whoever may still complete the operation, and the completions so far.
abbrev pub holders : StartTls → ℕ
holders s =
    bit (s.registered && is_live s) + (bit s.handshaking + (bit s.posted + length s.outcomes))

abbrev is_starttls : Phase → Bool
is_starttls starttls = true
is_starttls _ = false

abbrev no_outcome : List (Outcome SessionState) → Bool
no_outcome [] = true
no_outcome (o ∷ os) = false

-- At most one party holds the completion, and nothing happened before it was claimed.
unfoldable pub IsUpgrade : StartTls → Type 0
IsUpgrade s =
    (holders s ≤ 1)
    × ((s.completed
          || (not s.handshaking
              && (not s.posted && (no_outcome s.outcomes && is_starttls s.phase))))
        ≡ true)

pub start-IsUpgrade : (connection : Connection) → IsUpgrade (start false connection)
unfolding IsUpgrade start
start-IsUpgrade connection = (omega arith, refl)

step-started :
    (e : Event) (connection : Connection) → step e (start true connection) ≡ start true connection
unfolding step start stop_requested stop_forwarded
step-started (replied ec caps) connection = refl
step-started (handshaken ec) connection = refl
step-started stop_first connection = refl
step-started (stop_second withdrawn) connection = refl
step-started delivered connection = refl

stop_requested-IsUpgrade : (s : StartTls) → IsUpgrade s → IsUpgrade (stop_requested s)
unfolding IsUpgrade stop_requested
stop_requested-IsUpgrade s h = ground arith

stop_forwarded-IsUpgrade :
    (withdrawn : Bool) (s : StartTls) → IsUpgrade s → IsUpgrade (stop_forwarded withdrawn s)
unfolding IsUpgrade stop_forwarded
stop_forwarded-IsUpgrade withdrawn s h = ground arith

-- The three ways in which a handler that holds the completion goes on.
finish_stopped-IsUpgrade :
    (s : StartTls) → s.completed ≡ true → holders s ≡ 0 → IsUpgrade (finish_stopped s)
unfolding IsUpgrade finish_stopped reset_stop_callback stop_forwarded deliver
finish_stopped-IsUpgrade s h p = ground arith

complete-IsUpgrade :
    (ec : ErrorCode) (s : StartTls) → s.completed ≡ true → holders s ≡ 0 → IsUpgrade (complete ec s)
unfolding IsUpgrade complete reset_stop_callback stop_forwarded deliver
complete-IsUpgrade ec s h p = ground arith

claimed-holders : (s : StartTls) → holders s ≡ 0 → holders (record s { completed = true }) ≡ 0
claimed-holders s p = ground arith

on_starttls-IsUpgrade :
    (ec : ErrorCode) (s : StartTls) → IsUpgrade s → holders s ≡ 0 → IsUpgrade (on_starttls ec s)
unfolding IsUpgrade on_starttls
on_starttls-IsUpgrade ec s h p = ground (
  arith,
  finish_stopped-IsUpgrade (record s { completed = true }) refl (claimed-holders s p),
  complete-IsUpgrade ec (record s { completed = true }) refl (claimed-holders s p),
)

on_handshake-IsUpgrade :
    (ec : ErrorCode) (s : StartTls)
    → s.completed ≡ true
    → holders s ≡ 0
    → IsUpgrade (on_handshake ec s)
unfolding IsUpgrade on_handshake
on_handshake-IsUpgrade ec s h p = ground (
  arith,
  finish_stopped-IsUpgrade s h p,
  complete-IsUpgrade ec (record s { connection = emplace_tls_context s.connection }) h p,
)

on_capability-IsUpgrade :
    (ec : ErrorCode) (caps : CapabilitySet) (s : StartTls)
    → s.completed ≡ true
    → holders s ≡ 0
    → IsUpgrade (on_capability ec caps s)
unfolding IsUpgrade on_capability
on_capability-IsUpgrade ec caps s h p = ground (
  arith,
  finish_stopped-IsUpgrade s h p,
  complete-IsUpgrade ec s h p,
  complete-IsUpgrade ec (record s { connection = set_capabilities caps s.connection }) h p,
)

past_claim : (s : StartTls) → s.phase ≡ capability → IsUpgrade s → s.completed ≡ true
unfolding IsUpgrade
past_claim s e h = ground arith

on_reply-IsUpgrade :
    (phase : Phase) (ec : ErrorCode) (caps : CapabilitySet) (s : StartTls)
    → s.phase ≡ phase
    → IsUpgrade s
    → holders s ≡ 0
    → IsUpgrade (on_reply phase ec caps s)
unfolding on_reply
on_reply-IsUpgrade starttls ec caps s e h p = on_starttls-IsUpgrade ec s h p
on_reply-IsUpgrade handshake ec caps s e h p = h
on_reply-IsUpgrade capability ec caps s e h p =
    on_capability-IsUpgrade ec caps s (past_claim s e h) p

released :
    (s : StartTls)
    → IsUpgrade s
    → s.registered ≡ true
    → is_live s ≡ true
    → IsUpgrade (record s { registered = false }) × (holders (record s { registered = false }) ≡ 0)
unfolding IsUpgrade
released s h r l = (ground arith, ground arith)

-- The handler is called in vain.
dropped-IsUpgrade :
    (phase : Phase) (ec : ErrorCode) (caps : CapabilitySet) (s : StartTls)
    → s.phase ≡ phase
    → is_live s ≡ false
    → IsUpgrade s
    → IsUpgrade (on_reply phase ec caps (record s { registered = false }))
unfolding on_reply on_starttls IsUpgrade
dropped-IsUpgrade starttls ec caps s e d h = ground arith
dropped-IsUpgrade handshake ec caps s e d h = ground arith
dropped-IsUpgrade capability ec caps s e d h = ground arith

finished :
    (s : StartTls)
    → IsUpgrade s
    → s.handshaking ≡ true
    → (s.completed ≡ true) × (holders (record s { handshaking = false }) ≡ 0)
unfolding IsUpgrade
finished s h r = (ground arith, ground arith)

delivered-IsUpgrade : (s : StartTls) → IsUpgrade s → IsUpgrade (step delivered s)
unfolding IsUpgrade step deliver
delivered-IsUpgrade s h = ground arith

step-IsUpgrade : (e : Event) (s : StartTls) → IsUpgrade s → IsUpgrade (step e s)
unfolding step
step-IsUpgrade (replied ec caps) s h = elim (Bool-cases s.registered) [
  | inl waiting ↦ elim (Bool-cases (is_live s)) [
    | inl live ↦
        let (kept, free) = released s h waiting live in
        simp waiting
          (on_reply-IsUpgrade s.phase ec caps (record s { registered = false }) refl kept free)
    | inr dead ↦ simp waiting (dropped-IsUpgrade s.phase ec caps s refl dead h)
  ]
  | inr nobody ↦ simp nobody h
]
step-IsUpgrade (handshaken ec) s h = elim (Bool-cases s.handshaking) [
  | inl waiting ↦
      let (claimed, free) = finished s h waiting in
      simp waiting (on_handshake-IsUpgrade ec (record s { handshaking = false }) claimed free)
  | inr nobody ↦ simp nobody h
]
step-IsUpgrade stop_first s h = stop_requested-IsUpgrade s h
step-IsUpgrade (stop_second withdrawn) s h = stop_forwarded-IsUpgrade withdrawn s h
step-IsUpgrade delivered s h = delivered-IsUpgrade s h

pub run-IsUpgrade : (events : List Event) (s : StartTls) → IsUpgrade s → IsUpgrade (run events s)
unfolding run
run-IsUpgrade [] s h = h
run-IsUpgrade (e ∷ events) s h = run-IsUpgrade events (step e s) (step-IsUpgrade e s h)

pub run-started :
    (events : List Event) (connection : Connection)
    → run events (start true connection) ≡ start true connection
unfolding run
run-started [] connection = refl
run-started (e ∷ events) connection = rw (step-started e connection) (run-started events connection)

pub at_most_one : (s : StartTls) → IsUpgrade s → length s.outcomes ≤ 1
unfolding IsUpgrade
at_most_one s h = ground arith
