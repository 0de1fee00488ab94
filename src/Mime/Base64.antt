-- ===== src/Mime/Base64.antt =====
-- The decoder of encoded words in mail_header.h against `base64_encode` of not_authenticated.h.
use bkmail.Prelude.{
  ℕ, zero, suc, ◌+◌, ◌*◌, ◌/◌, ◌%◌, ◌^◌, ◌<◌, ◌≡◌, refl, ap, ◌∙◌, Bool, true, false, ◌&&◌, [], ◌∷◌,
  some, ◌==◌, ltb, Bytes, all, length, arith,
}
use bkmail.Mime.{
  k_alphabet, char_at, sextet, base64_encode, Digit, value, padding, not_a_digit, mime_base64_value,
  decode_group, decode_base64, is_charset_char,
}

abbrev pub is_octet : ℕ → Bool
is_octet c = ltb c 256

is_value : ℕ → Digit → Bool
is_value i (value j) = i == j
is_value i _ = false

-- The characters from an index on have the values from that index on, and none is a question mark.
values_from : ℕ → Bytes → Bool
unfolding is_value mime_base64_value
values_from i [] = true
values_from i (c ∷ cs) =
    is_value i (mime_base64_value c) && (is_charset_char c && values_from (suc i) cs)

is_value_lem : (i : ℕ) (d : Digit) → is_value i d ≡ true → d ≡ value i
unfolding is_value
is_value_lem i (value j) h = ground arith
is_value_lem i padding h = ground arith
is_value_lem i not_a_digit h = ground arith

value_at :
    (base i : ℕ) (cs : Bytes)
    → values_from base cs ≡ true
    → i < length cs
    → (mime_base64_value (char_at i cs) ≡ value (base + i))
      × (is_charset_char (char_at i cs) ≡ true)
unfolding char_at values_from is_value
value_at base i [] h p = elim p [ ]
value_at base zero (c ∷ cs) h p = ground (arith, is_value_lem base (mime_base64_value c))
value_at base (suc i) (c ∷ cs) h p = ground (arith, value_at (suc base) i cs)

alphabet_values : values_from 0 k_alphabet ≡ true
unfolding values_from is_value mime_base64_value
alphabet_values = refl

value-sextet :
    (chunk shift : ℕ) → mime_base64_value (sextet chunk shift) ≡ value (chunk / 2 ^ shift % 64)
unfolding sextet
value-sextet chunk shift =
    (value_at 0 (chunk / 2 ^ shift % 64) k_alphabet alphabet_values (omega arith)).0
    ∙ ap value (omega arith)

pub sextet_charset : (chunk shift : ℕ) → is_charset_char (sextet chunk shift) ≡ true
unfolding sextet
sextet_charset chunk shift =
    (value_at 0 (chunk / 2 ^ shift % 64) k_alphabet alphabet_values (omega arith)).1

first_octet :
    (a b c : ℕ)
    → b < 256
    → c < 256
    → a < 256
    → (a * 65536 + b * 256 + c) / 262144 % 64 * 4 + (a * 65536 + b * 256 + c) / 4096 % 64 / 16 ≡ a
first_octet a b c p q r = omega arith

second_octet :
    (a b c : ℕ)
    → b < 256
    → c < 256
    → (a * 65536 + b * 256 + c) / 4096 % 64 % 16 * 16 + (a * 65536 + b * 256 + c) / 64 % 64 / 4 ≡ b
second_octet a b c p q = omega arith

third_octet :
    (a b c : ℕ)
    → c < 256
    → (a * 65536 + b * 256 + c) / 64 % 64 % 4 * 64 + (a * 65536 + b * 256 + c) / 1 % 64 ≡ c
third_octet a b c p = omega arith

-- The decoder takes back the bytes that the encoder was given, with its padding.
pub decode_base64-base64_encode :
    (bs : Bytes) → all is_octet bs ≡ true → decode_base64 (base64_encode bs) ≡ some bs
unfolding decode_base64 base64_encode decode_group
decode_base64-base64_encode [] h = refl
decode_base64-base64_encode (a ∷ []) h =
    rw (value-sextet (a * 65536) 18, value-sextet (a * 65536) 12)
      (ap (λ x. some (x ∷ [])) (ground (arith, first_octet a 0 0)))
decode_base64-base64_encode (a ∷ b ∷ []) h =
    let chunk = a * 65536 + b * 256 in
    rw (value-sextet chunk 18, value-sextet chunk 12, value-sextet chunk 6)
      (ground (arith, first_octet a b 0, second_octet a b 0))
decode_base64-base64_encode (a ∷ b ∷ c ∷ rest) h =
    let chunk = a * 65536 + b * 256 + c in
    rw
      (
        value-sextet chunk 18,
        value-sextet chunk 12,
        value-sextet chunk 6,
        value-sextet chunk 0,
        decode_base64-base64_encode rest (ground arith),
      )
      (ground (arith, first_octet a b c, second_octet a b c, third_octet a b c))

pub base64_encode_charset : (bs : Bytes) → all is_charset_char (base64_encode bs) ≡ true
unfolding base64_encode
base64_encode_charset [] = refl
base64_encode_charset (a ∷ []) =
    rw (sextet_charset (a * 65536) 18, sextet_charset (a * 65536) 12) refl
base64_encode_charset (a ∷ b ∷ []) =
    let chunk = a * 65536 + b * 256 in
    rw (sextet_charset chunk 18, sextet_charset chunk 12, sextet_charset chunk 6) refl
base64_encode_charset (a ∷ b ∷ c ∷ rest) =
    let chunk = a * 65536 + b * 256 + c in
    rw
      (
        sextet_charset chunk 18,
        sextet_charset chunk 12,
        sextet_charset chunk 6,
        sextet_charset chunk 0,
      )
      (base64_encode_charset rest)

char_octet :
    (i : ℕ) (cs : Bytes) → all is_octet cs ≡ true → i < length cs → is_octet (char_at i cs) ≡ true
unfolding char_at
char_octet i [] h l = absurd (omega arith)
char_octet zero (c ∷ cs) h l = ground arith
char_octet (suc i) (c ∷ cs) h l = char_octet i cs (ground arith) (omega arith)

sextet_octet : (chunk shift : ℕ) → is_octet (sextet chunk shift) ≡ true
unfolding sextet
sextet_octet chunk shift = char_octet (chunk / 2 ^ shift % 64) k_alphabet refl (omega arith)

-- Base64 text consists of bytes.
pub base64_encode_octets : (bs : Bytes) → all is_octet (base64_encode bs) ≡ true
unfolding base64_encode
base64_encode_octets [] = refl
base64_encode_octets (a ∷ []) = rw (sextet_octet (a * 65536) 18, sextet_octet (a * 65536) 12) refl
base64_encode_octets (a ∷ b ∷ []) =
    let chunk = a * 65536 + b * 256 in
    rw (sextet_octet chunk 18, sextet_octet chunk 12, sextet_octet chunk 6) refl
base64_encode_octets (a ∷ b ∷ c ∷ rest) =
    let chunk = a * 65536 + b * 256 + c in
    rw
      (
        sextet_octet chunk 18,
        sextet_octet chunk 12,
        sextet_octet chunk 6,
        sextet_octet chunk 0,
        base64_encode_octets rest,
      )
      refl
