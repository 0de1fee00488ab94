-- ===== src/Session/StartTls/Completes.antt =====
-- How often and with what the STARTTLS upgrade of not_authenticated.h completes.
use bkmail.Prelude.{
  ◌≤◌, ◌≡◌, refl, ap, Bool, true, false, ◌&&◌, not, List, [], ◌∷◌, if◌then◌else◌, arith, length,
}
use bkmail.Error.{ErrorCode, success, is_error}
use bkmail.Capability.{CapabilitySet}
use bkmail.Session.{
  Connection, set_value, set_stopped, not_authenticated_state, set_capabilities, finish_operation,
}
use bkmail.Session.StartTls.{
  StartTls, start, stop_requested, stop_forwarded, reset_stop_callback, deliver, finish_stopped,
  complete, on_starttls, emplace_tls_context, on_handshake, on_capability, on_reply, Event, replied,
  handshaken, stop_first, stop_second, delivered, step, run,
}
use bkmail.Session.StartTls.Upgrade.{start-IsUpgrade, run-IsUpgrade, run-started, at_most_one}

-- The upgrade completes at most once, whatever comes in which order: replies, handshake results, a stop
-- whose forwarder is overtaken by them, and a stop that was requested before the start.
pub run_completes_once :
    (stop : Bool) (connection : Connection) (events : List Event)
    → length (run events (start stop connection)).outcomes ≤ 1
run_completes_once true connection events =
    rw (run-started events connection) (unfold start in omega arith)
run_completes_once false connection events =
    at_most_one (run events (start false connection))
      (run-IsUpgrade events (start false connection) (start-IsUpgrade connection))

-- A stop that is requested while the STARTTLS command or the handshake is pending completes the upgrade as
-- stopped: behind the posted delivery, or with the result of the handshake, whatever that is.
pub run_stopped :
    (connection : Connection) (ec : ErrorCode) (caps : CapabilitySet)
    → ((run (stop_first ∷ stop_second true ∷ delivered ∷ []) (start false connection)).outcomes
        ≡ set_stopped ∷ [])
      × ((run
            (stop_first ∷ replied ec caps ∷ stop_second true ∷ [])
            (start false connection)).outcomes
          ≡ set_stopped ∷ [])
      × ((run
            (replied success caps ∷ stop_first ∷ stop_second true ∷ handshaken ec ∷ [])
            (start false connection)).outcomes
          ≡ set_stopped ∷ [])
unfolding run step start stop_requested stop_forwarded on_reply on_starttls on_handshake
    finish_stopped reset_stop_callback deliver
run_stopped connection ec caps = (refl, refl, refl)

-- Without a stop, the upgrade completes with the first error, or with that of the probe; the connection
-- is over TLS exactly if STARTTLS was accepted, and its cache holds what the probe brought.
pub run_upgraded :
    (connection : Connection) (first second third : ErrorCode) (caps : CapabilitySet)
    → is_error first ≡ true
    → is_error second ≡ true
    → ((run (replied first caps ∷ []) (start false connection)).outcomes
        ≡ set_value first (not_authenticated_state (record connection { busy = false })) ∷ [])
      × ((run (replied success caps ∷ handshaken second ∷ []) (start false connection)).outcomes
          ≡ set_value second (
              not_authenticated_state
                (record connection { secure = true; capabilities = []; busy = false }))
            ∷ [])
      × ((run
            (replied success caps ∷ handshaken success ∷ replied third caps ∷ [])
            (start false connection)).outcomes
          ≡ set_value third (
              not_authenticated_state (record connection {
                secure = true;
                capabilities = (if is_error third then [] else caps);
                busy = false;
              }))
            ∷ [])
unfolding run step start stop_forwarded on_reply on_starttls on_handshake on_capability complete
    reset_stop_callback deliver emplace_tls_context set_capabilities finish_operation
run_upgraded connection first second third caps p q = (rw p refl, rw q refl, ground arith)

-- A stop in the probe, with whether its cancel withdraws the handler.
stopped_in_probe : Bool → Connection → CapabilitySet → StartTls
stopped_in_probe withdrawn connection caps =
    run (replied success caps ∷ handshaken success ∷ stop_first ∷ stop_second withdrawn ∷ [])
      (start false connection)

-- Nobody can complete the upgrade any more.
abbrev is_idle : StartTls → Bool
is_idle s =
    not s.registered && (not s.handshaking && (not s.posted && (not s.armed && not s.forwarding)))

stuck : (events : List Event) (s : StartTls) → is_idle s ≡ true → run events s ≡ s
unfolding run step stop_requested stop_forwarded
stuck [] s h = refl
stuck (replied ec caps ∷ events) s h = ground (arith, stuck events s h)
stuck (handshaken ec ∷ events) s h = ground (arith, stuck events s h)
stuck (stop_first ∷ events) s h = ground (arith, stuck events s h)
stuck (stop_second withdrawn ∷ events) s h = ground (arith, stuck events s h)
stuck (delivered ∷ events) s h = ground (arith, stuck events s h)

-- A stop that is requested while the probe is pending delivers nothing itself. If its cancel withdraws the
-- handler of the probe, the upgrade never completes, whatever comes then; if not, the next call of the
-- handler completes it as stopped, and nothing completes it again.
pub run_stop_in_probe :
    (connection : Connection) (caps : CapabilitySet) (events : List Event) (ec : ErrorCode)
    (probed : CapabilitySet)
    → ((run
          (replied success caps ∷ handshaken success ∷ stop_first ∷ stop_second true ∷ events)
          (start false connection)).outcomes
        ≡ [])
      × ((run
            (replied success caps
              ∷ handshaken success
              ∷ stop_first
              ∷ stop_second false
              ∷ replied ec probed
              ∷ events)
            (start false connection)).outcomes
          ≡ set_stopped ∷ [])
unfolding run step start stop_requested stop_forwarded on_reply on_starttls on_handshake
    on_capability finish_stopped reset_stop_callback deliver emplace_tls_context stopped_in_probe
run_stop_in_probe connection caps events ec probed = (
  ap (λ s. s.outcomes) (stuck events (stopped_in_probe true connection caps) refl),
  ap (λ s. s.outcomes)
      (stuck events (step (replied ec probed) (stopped_in_probe false connection caps)) refl),
)
