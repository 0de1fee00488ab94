-- ===== src/Authenticate.antt =====
-- include/bkmail/imap/command/authenticate_command.h, and `authenticate` and `authenticate_oauth2` of
-- include/bkmail/imap/state/not_authenticated.h, which pass it the response. The array of segments has
-- four places.
pub mod Challenges
pub mod Oauth2
use bkmail.Prelude.{
  ℕ, zero, suc, ◌+◌, Bool, true, false, ◌||◌, List, [], ◌∷◌, ◌++◌, ltb, leb, if◌then◌else◌, Bytes,
  codes, length, is_empty,
}
use bkmail.Mime.{base64_encode, oauth2_response}
use bkmail.Command.Segmented.{segment_at}

pub record AuthenticateCommand : Type 0 where
  pub mechanism : Bytes
  pub response : Bytes
  pub sasl_ir : Bool
  pub segments : List Bytes
  pub emitted : ℕ
  pub unlocked : ℕ

abbrev pub new_authenticate : Bytes → Bytes → Bool → AuthenticateCommand
new_authenticate mechanism response sasl_ir = record {
  mechanism = mechanism;
  response = response;
  sasl_ir = sasl_ir;
  segments = [];
  emitted = 0;
  unlocked = 0;
}

-- The same loop as `base64_encode` of not_authenticated.h.
unfoldable pub append_base64 : Bytes → Bytes
unfolding base64_encode
append_base64 response = base64_encode response

abbrev pub cancel_line : Bytes
cancel_line = codes "*\r\n"

abbrev pub initial_line : Bytes → Bytes → Bytes → Bytes
initial_line tag mechanism text =
    tag ++ (codes " AUTHENTICATE " ++ (mechanism ++ (text ++ codes "\r\n")))

abbrev pub ir_text : Bytes → Bytes
ir_text response = b' ' ∷ (if is_empty response then codes "=" else append_base64 response)

abbrev pub payload_line : Bytes → Bytes
payload_line response =
    if is_empty response then cancel_line else append_base64 response ++ codes "\r\n"

unfoldable pub render : Bytes → AuthenticateCommand → AuthenticateCommand
unfolding append_base64
render tag c =
    if c.sasl_ir
    then record c {
      segments = initial_line tag c.mechanism (ir_text c.response) ∷ [];
      unlocked = 1;
    }
    else record c {
      segments = initial_line tag c.mechanism [] ∷ payload_line c.response ∷ [];
      unlocked = 1;
    }

unfoldable pub next_segment : AuthenticateCommand → Bytes
next_segment c =
    if leb c.unlocked c.emitted || leb (length c.segments) c.emitted
    then []
    else segment_at c.segments c.emitted

unfoldable pub awaits_continuation : AuthenticateCommand → Bool
awaits_continuation c = ltb c.unlocked (length c.segments)

unfoldable pub on_segment_flushed : AuthenticateCommand → AuthenticateCommand
on_segment_flushed c =
    if ltb c.emitted (length c.segments) then record c { emitted = c.emitted + 1 } else c

-- A challenge behind the payload is answered by `*`, while the array has a place.
unfoldable pub on_continuation : AuthenticateCommand → AuthenticateCommand
on_continuation c =
    if ltb c.unlocked (length c.segments)
    then record c { unlocked = c.unlocked + 1 }
    else if leb 4 (length c.segments)
    then c
    else record c { segments = c.segments ++ cancel_line ∷ []; unlocked = c.unlocked + 1 }

-- `authenticate` of the state.
unfoldable pub authenticate : Bytes → Bytes → AuthenticateCommand
authenticate mechanism initial_response = new_authenticate mechanism initial_response false

-- `authenticate_oauth2` of the state: `encoded` goes into the command.
unfoldable pub authenticate_oauth2 : Bytes → Bytes → AuthenticateCommand
authenticate_oauth2 user token =
    new_authenticate (codes "XOAUTH2") (oauth2_response user token) false
