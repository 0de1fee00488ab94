-- ===== src/Line/Connection.antt =====
-- include/bkmail/imap/command/noop_command.h, logout_command.h, starttls_command.h and
-- raw_command.h.
use bkmail.Prelude.{Bool, true, false, ◌∷◌, ◌++◌, Bytes, codes}
use bkmail.Response.{ResponseStatus, TaggedResponse}
use bkmail.Error.{ErrorCode, success, map_status_to_ec}
use bkmail.Line.{LineCommand, wants_none}

unfoldable pub noop_command : LineCommand
noop_command = record {
  line = λ tag. tag ++ codes " NOOP\r\n";
  rearms = false;
  blocks = false;
  wants = wants_none;
  reply = map_status_to_ec;
}

unfoldable pub logout_command : LineCommand
logout_command = record {
  line = λ tag. tag ++ codes " LOGOUT\r\n";
  rearms = false;
  blocks = true;
  wants = wants_none;
  reply = map_status_to_ec;
}

unfoldable pub starttls_command : LineCommand
starttls_command = record {
  line = λ tag. tag ++ codes " STARTTLS\r\n";
  rearms = false;
  blocks = true;
  wants = wants_none;
  reply = map_status_to_ec;
}

-- The caller's text, without tag and CRLF. A refusal is no error code.
unfoldable pub raw_command : Bytes → LineCommand
raw_command text = record {
  line = λ tag. tag ++ b' ' ∷ (text ++ codes "\r\n");
  rearms = false;
  blocks = false;
  wants = wants_none;
  reply = λ status. success;
}

pub record RawResponse : Type 0 where
  pub tag : Bytes
  pub accepted : Bool
  pub text : Bytes

abbrev is_ok : ResponseStatus → Bool
is_ok ResponseStatus.ok = true
is_ok _ = false

-- `on_tagged` of raw_command, whose stored tag is the one that `render` stamped.
unfoldable pub raw_result : Bytes → TaggedResponse → ErrorCode × RawResponse
raw_result stamped r = (success, record { tag = stamped; accepted = is_ok r.status; text = r.text })
