-- ===== src/Mime.antt =====
-- `base64_encode` of include/bkmail/imap/state/not_authenticated.h, and the RFC 2047 decoder of
-- include/bkmail/common/mail_header.h. A position in a text is the rest of the text, and `none` is a return
-- of the position itself.
pub mod Base64
pub mod Words
use bkmail.Prelude.{
  ℕ, zero, suc, ◌+◌, ◌-◌, ◌*◌, ◌/◌, ◌%◌, ◌^◌, Bool, true, false, ◌&&◌, ◌||◌, not, [], ◌∷◌, ◌++◌,
  Option, none, some, ◌==◌, ltb, leb, if◌then◌else◌, Bytes, codes, length, is_empty, take_while,
  drop_while, all,
}
use bkmail.Astring.{ascii_to_upper}

abbrev k_alphabet : Bytes
k_alphabet = codes "ABCDEFGHIJKLMNOPQRSTUVWXYZabcdefghijklmnopqrstuvwxyz0123456789+/"

-- The character at an index, which is below 64 throughout.
unfoldable pub char_at : ℕ → Bytes → ℕ
char_at i [] = 0
char_at zero (c ∷ cs) = c
char_at (suc i) (c ∷ cs) = char_at i cs

-- `kAlphabet[(chunk >> shift) & 0x3f]`.
unfoldable pub sextet : ℕ → ℕ → ℕ
unfolding char_at
sextet chunk shift = char_at (chunk / 2 ^ shift % 64) k_alphabet

unfoldable pub base64_encode : Bytes → Bytes
unfolding sextet
base64_encode [] = []
base64_encode (a ∷ []) =
    let chunk = a * 2 ^ 16 in sextet chunk 18 ∷ sextet chunk 12 ∷ b'=' ∷ b'=' ∷ []
base64_encode (a ∷ b ∷ []) =
    let chunk = a * 2 ^ 16 + b * 2 ^ 8 in
    sextet chunk 18 ∷ sextet chunk 12 ∷ sextet chunk 6 ∷ b'=' ∷ []
base64_encode (a ∷ b ∷ c ∷ rest) =
    let chunk = a * 2 ^ 16 + b * 2 ^ 8 + c in
    sextet chunk 18 ∷ sextet chunk 12 ∷ sextet chunk 6 ∷ sextet chunk 0 ∷ base64_encode rest

-- The initial response of `authenticate_oauth2`.
unfoldable pub oauth2_response : Bytes → Bytes → Bytes
unfolding base64_encode
oauth2_response user token =
    base64_encode (codes "user=" ++ user ++ 1 ∷ codes "auth=Bearer " ++ token ++ 1 ∷ 1 ∷ [])

-- The values of the alphabet, -2 and -1.
pub data Digit : Type 0 where
  value : ℕ → Digit
  padding not_a_digit : Digit

unfoldable pub mime_base64_value : ℕ → Digit
mime_base64_value c =
    if leb b'A' c && leb c b'Z'
    then value (c - b'A')
    else if leb b'a' c && leb c b'z'
    then value (c - b'a' + 26)
    else if leb b'0' c && leb c b'9'
    then value (c - b'0' + 52)
    else if c == b'+'
    then value 62
    else if c == b'/'
    then value 63
    else if c == b'='
    then padding
    else not_a_digit

-- One group of four: padding is let through only in the last group, and only at its end.
unfoldable pub decode_group : Bool → Digit → Digit → Digit → Digit → Option Bytes
decode_group last (value p) (value q) (value r) (value s) =
    some ((p * 4 + q / 16) ∷ (q % 16 * 16 + r / 4) ∷ (r % 4 * 64 + s) ∷ [])
decode_group true (value p) (value q) (value r) padding =
    some ((p * 4 + q / 16) ∷ (q % 16 * 16 + r / 4) ∷ [])
decode_group true (value p) (value q) padding padding = some ((p * 4 + q / 16) ∷ [])
decode_group _ _ _ _ _ = none

abbrev pub appended : Option Bytes → Option Bytes → Option Bytes
appended (some front) (some rest) = some (front ++ rest)
appended _ _ = none

unfoldable pub decode_base64 : Bytes → Option Bytes
unfolding mime_base64_value decode_group
decode_base64 [] = some []
decode_base64 (a ∷ b ∷ c ∷ d ∷ rest) =
    appended
      (decode_group (is_empty rest) (mime_base64_value a) (mime_base64_value b)
        (mime_base64_value c) (mime_base64_value d))
      (decode_base64 rest)
decode_base64 _ = none

unfoldable pub mime_hex_value : ℕ → Option ℕ
mime_hex_value c =
    if leb b'0' c && leb c b'9'
    then some (c - b'0')
    else if leb b'a' c && leb c b'f'
    then some (c - b'a' + 10)
    else if leb b'A' c && leb c b'F'
    then some (c - b'A' + 10)
    else none

abbrev octet_of : Option ℕ → Option ℕ → Option Bytes
octet_of (some high) (some low) = some ((high * 16 + low) ∷ [])
octet_of _ _ = none

unfoldable pub decode_q : Bytes → Option Bytes
unfolding mime_hex_value
decode_q [] = some []
decode_q (c ∷ []) =
    if c == b'_' then some (b' ' ∷ []) else if c == b'=' then none else some (c ∷ [])
decode_q (c ∷ d ∷ []) =
    let rest = decode_q (d ∷ []) in
    if c == b'_'
    then appended (some (b' ' ∷ [])) rest
    else if c == b'='
    then none
    else appended (some (c ∷ [])) rest
decode_q (c ∷ d ∷ e ∷ cs) =
    let rest = decode_q (d ∷ e ∷ cs) in
    let later = decode_q cs in
    if c == b'_'
    then appended (some (b' ' ∷ [])) rest
    else if c == b'='
    then appended (octet_of (mime_hex_value d) (mime_hex_value e)) later
    else appended (some (c ∷ [])) rest

abbrev in_data : ℕ → Option (Bytes × Bytes) → Option (Bytes × Bytes)
in_data c none = none
in_data c (some (front, rest)) = some (c ∷ front, rest)

-- What stands in front of the first `?=`, and what follows it.
unfoldable pub find_end : Bytes → Option (Bytes × Bytes)
find_end [] = none
find_end (c ∷ []) = none
find_end (c ∷ d ∷ cs) =
    let later = in_data c (find_end (d ∷ cs)) in
    if c == b'?' && d == b'=' then some ([], cs) else later

abbrev with_rest : Option Bytes → Bytes → Option (Bytes × Bytes)
with_rest none rest = none
with_rest (some decoded) rest = some (decoded, rest)

unfoldable pub decode_data : ℕ → Option (Bytes × Bytes) → Option (Bytes × Bytes)
unfolding decode_base64 decode_q
decode_data encoding none = none
decode_data encoding (some (data_text, rest)) =
    if ascii_to_upper encoding == b'B'
    then with_rest (decode_base64 data_text) rest
    else if ascii_to_upper encoding == b'Q'
    then with_rest (decode_q data_text) rest
    else none

-- From the question mark behind the charset on.
unfoldable pub decode_encoded : Bytes → Option (Bytes × Bytes)
unfolding decode_data find_end
decode_encoded (q ∷ encoding ∷ mark ∷ rest) =
    if mark == b'?' then decode_data encoding (find_end rest) else none
decode_encoded _ = none

abbrev pub is_question : ℕ → Bool
is_question c = c == b'?'

abbrev pub is_charset_char : ℕ → Bool
is_charset_char c = not (c == b'?')

abbrev pub is_blank : ℕ → Bool
is_blank c = c == b' ' || c == b'\t'

-- The decoded bytes, and what follows the word.
unfoldable pub decode_one_encoded_word : Bytes → Option (Bytes × Bytes)
unfolding decode_encoded
decode_one_encoded_word (a ∷ b ∷ cs) =
    let charset = take_while is_charset_char cs in
    if not (a == b'=' && b == b'?') || is_empty charset || not (all (λ c. not (is_blank c)) charset)
    then none
    else decode_encoded (drop_while is_charset_char cs)
decode_one_encoded_word _ = none

abbrev pub is_fold : ℕ → Bool
is_fold c = c == b' ' || c == b'\t' || c == b'\r' || c == b'\n'

-- What is decoded, or the character at the position; `again` goes on behind a word or not.
unfoldable pub word_or_char : (Bool → Bytes → Bytes) → Option (Bytes × Bytes) → Bytes → Bytes
word_or_char again (some (decoded, rest)) text = decoded ++ again true rest
word_or_char again none [] = []
word_or_char again none (c ∷ cs) = c ∷ again false cs

-- Behind a word, the white space in front of another one is dropped.
unfoldable pub words_loop : ℕ → Bool → Bytes → Bytes
unfolding decode_one_encoded_word word_or_char
words_loop zero behind_word text = []
words_loop (suc fuel) behind_word text =
    let start = if behind_word then drop_while is_fold text else text in
    word_or_char (words_loop fuel) (decode_one_encoded_word start) text

-- Every round takes a character of the text.
unfoldable pub decode_encoded_words : Bytes → Bytes
unfolding words_loop
decode_encoded_words text = words_loop (suc (length text)) false text
