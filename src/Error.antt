-- ===== src/Error.antt =====
-- include/bkmail/common/error.h: the library's error codes, the standard ones that the engine
-- reports, and `map_status_to_ec` of include/bkmail/imap/operation_base.h.
use bkmail.Prelude.{ℕ, Bool, true, false}
use bkmail.Response.{ResponseStatus}

-- `success` is the empty `std::error_code`; `transport` is what the stream reported.
pub data ErrorCode : Type 0 where
  success command_rejected bad_command server_bye unexpected_response : ErrorCode
  capability_required operation_canceled not_enough_memory : ErrorCode
  transport : ℕ → ErrorCode

abbrev pub map_status_to_ec : ResponseStatus → ErrorCode
map_status_to_ec ResponseStatus.ok = success
map_status_to_ec ResponseStatus.refused = command_rejected
map_status_to_ec ResponseStatus.bad = bad_command
map_status_to_ec _ = unexpected_response

-- `if (ec)`.
abbrev pub is_error : ErrorCode → Bool
is_error success = false
is_error _ = true
