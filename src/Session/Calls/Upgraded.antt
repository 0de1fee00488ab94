-- ===== src/Session/Calls/Upgraded.antt =====
-- What start_tls of the state ends with, against the steps of its operation in not_authenticated.h.
use bkmail.Prelude.{◌≡◌, refl, ◌∙◌, Bool, true, false, [], ◌∷◌, arith}
use bkmail.Error.{ErrorCode, success, is_error}
use bkmail.Capability.{CapabilitySet}
use bkmail.Session.{Connection, MailboxInfo, SessionState, set_value, finish_operation}
use bkmail.Session.Issued.{settled}
use bkmail.Session.Calls.{start_tls_call, not_authenticated_op}
use bkmail.Session.StartTls.{start, replied, handshaken, run}
use bkmail.Session.StartTls.Completes.{run_upgraded}

module _ (connection : Connection) (caps : CapabilitySet) (info : MailboxInfo) where
  abbrev ending : ErrorCode → Bool → SessionState
  ending ec upgraded =
      settled (not_authenticated_op start_tls_call) (finish_operation connection)
        (record { ec = ec; capabilities = caps; info = info; upgraded = upgraded })

  -- Without a stop, the upgrade completes with the first error, or with that of the probe, and with the
  -- state that `start_tls` is taken to end with: on a plain connection if STARTTLS was refused.
  pub outcomes-run :
      (first second third : ErrorCode)
      → is_error first ≡ true
      → is_error second ≡ true
      → ((run (replied first caps ∷ []) (start false connection)).outcomes
          ≡ set_value first (ending first false) ∷ [])
        × ((run (replied success caps ∷ handshaken second ∷ []) (start false connection)).outcomes
            ≡ set_value second (ending second true) ∷ [])
        × ((run
              (replied success caps ∷ handshaken success ∷ replied third caps ∷ [])
              (start false connection)).outcomes
            ≡ set_value third (ending third true) ∷ [])
  unfolding settled not_authenticated_op finish_operation
  outcomes-run first second third p q =
      let (one, two, three) = run_upgraded connection first second third caps p q in
      (one, two ∙ rw q refl, three ∙ ground arith)
