-- ===== src/Authenticate/Oauth2.antt =====
-- What `authenticate_oauth2` sends.
use bkmail.Prelude.{
  ◌≡◌, ◌≢◌, refl, ap, true, false, [], ◌∷◌, ◌++◌, some, Bytes, codes, all, is_empty, arith,
}
use bkmail.Cursor.{peek}
use bkmail.Mime.{base64_encode, sextet, char_at, decode_base64, oauth2_response}
use bkmail.Mime.Base64.{is_octet, decode_base64-base64_encode, base64_encode_octets}
use bkmail.Authenticate.{new_authenticate, append_base64, initial_line, render, authenticate_oauth2}

-- What a server should find in the payload.
abbrev pub initial_response : Bytes → Bytes → Bytes
initial_response user token =
    codes "user=" ++ user ++ 1 ∷ codes "auth=Bearer " ++ token ++ 1 ∷ 1 ∷ []

head_d : (user token : Bytes) → peek (oauth2_response user token) ≡ b'd'
unfolding oauth2_response base64_encode sextet char_at
head_d user token = refl

not_empty : (user token : Bytes) → is_empty (oauth2_response user token) ≡ false
unfolding oauth2_response base64_encode
not_empty user token = refl

encoded_octets : (user token : Bytes) → all is_octet (oauth2_response user token) ≡ true
unfolding oauth2_response
encoded_octets user token = base64_encode_octets (initial_response user token)

decoded : (text : Bytes) → all is_octet text ≡ true → decode_base64 (append_base64 text) ≡ some text
unfolding append_base64
decoded text h = decode_base64-base64_encode text h

payload_shape :
    (tag mechanism response : Bytes)
    → is_empty response ≡ false
    → (render tag (new_authenticate mechanism response false)).segments
      ≡ initial_line tag mechanism [] ∷ (append_base64 response ++ codes "\r\n") ∷ []
unfolding render
payload_shape tag mechanism response h = rw h refl

-- XOAUTH2 sends the command and, when challenged, the base64 text of a text that is base64 already: what a
-- server decodes from the payload is the encoded form of the initial response, and never the initial
-- response itself.
pub render-authenticate_oauth2 :
    (tag user token : Bytes)
    → let encoded = oauth2_response user token in
      ((render tag (authenticate_oauth2 user token)).segments
        ≡ initial_line tag (codes "XOAUTH2") [] ∷ (append_base64 encoded ++ codes "\r\n") ∷ [])
      × (decode_base64 (append_base64 encoded) ≡ some encoded)
      × (encoded ≢ initial_response user token)
unfolding authenticate_oauth2
render-authenticate_oauth2 tag user token = (
  payload_shape tag (codes "XOAUTH2") (oauth2_response user token) (not_empty user token),
  decoded (oauth2_response user token) (encoded_octets user token),
  λ e. absurd (omega (arith, ap peek e, head_d user token)),
)
