-- ===== src/Mime/Words.antt =====
-- Whole texts through `decode_encoded_words` of mail_header.h.
use bkmail.Prelude.{
  ℕ, zero, suc, ◌<◌, ◌≡◌, refl, ap, Bool, true, false, ◌&&◌, ◌||◌, not, [], ◌∷◌, ◌++◌, some, ◌==◌,
  Bytes, length, is_empty, all, arith, take_while-append, drop_while-append, append-nil,
}
use bkmail.Astring.{ascii_to_upper}
use bkmail.Mime.{
  base64_encode, is_charset_char, is_blank, is_fold, find_end, decode_data, decode_encoded,
  decode_one_encoded_word, word_or_char, words_loop, decode_encoded_words,
}
use bkmail.Mime.Base64.{is_octet, base64_encode_charset, decode_base64-base64_encode}

find_end-append :
    (ds rest : Bytes)
    → all is_charset_char ds ≡ true
    → find_end (ds ++ b'?' ∷ b'=' ∷ rest) ≡ some (ds, rest)
unfolding find_end
find_end-append [] rest h = refl
find_end-append (c ∷ []) rest h = ground arith
find_end-append (c ∷ d ∷ ds) rest h = ground (arith, find_end-append (d ∷ ds) rest)

-- A charset of the word: not empty, and of no question mark, space or tab.
unfoldable pub is_charset : Bytes → Bool
is_charset cs = not (is_empty cs) && (all is_charset_char cs && all (λ c. not (is_blank c)) cs)

-- The word that carries some bytes, in front of a text.
abbrev pub encoded_word : Bytes → Bytes → Bytes → Bytes
encoded_word charset bs rest =
    b'=' ∷ b'?' ∷ (charset ++ b'?' ∷ b'B' ∷ b'?' ∷ (base64_encode bs ++ b'?' ∷ b'=' ∷ rest))

decode_encoded-base64_encode :
    (bs rest : Bytes)
    → all is_octet bs ≡ true
    → decode_encoded (b'?' ∷ b'B' ∷ b'?' ∷ (base64_encode bs ++ b'?' ∷ b'=' ∷ rest))
      ≡ some (bs, rest)
unfolding decode_encoded decode_data ascii_to_upper
decode_encoded-base64_encode bs rest h =
    rw
      (
        find_end-append (base64_encode bs) rest (base64_encode_charset bs),
        decode_base64-base64_encode bs h,
      )
      refl

charset_test :
    (charset : Bytes)
    → is_charset charset ≡ true
    → (is_empty charset || not (all (λ c. not (is_blank c)) charset)) ≡ false
unfolding is_charset
charset_test charset h = ground arith

charset_chars : (charset : Bytes) → is_charset charset ≡ true → all is_charset_char charset ≡ true
unfolding is_charset
charset_chars charset h = ground arith

-- A word in the encoding B of any bytes, in any charset, is decoded to these bytes, whatever follows it.
pub decode_one_encoded_word-base64_encode :
    (charset bs rest : Bytes)
    → is_charset charset ≡ true
    → all is_octet bs ≡ true
    → decode_one_encoded_word (encoded_word charset bs rest) ≡ some (bs, rest)
unfolding decode_one_encoded_word
decode_one_encoded_word-base64_encode charset bs rest h k =
    let tail = b'?' ∷ b'B' ∷ b'?' ∷ (base64_encode bs ++ b'?' ∷ b'=' ∷ rest) in
    rw
      (
        take_while-append is_charset_char charset tail (charset_chars charset h) refl,
        drop_while-append is_charset_char charset tail (charset_chars charset h) refl,
        charset_test charset h,
      )
      (decode_encoded-base64_encode bs rest k)

-- Two words with any white space between them, or none, are decoded to the bytes of the first one and
-- those of the second one, without the white space.
pub decode_encoded_words-adjacent :
    (charset bs space another cs : Bytes)
    → is_charset charset ≡ true
    → is_charset another ≡ true
    → all is_octet bs ≡ true
    → all is_octet cs ≡ true
    → all is_fold space ≡ true
    → decode_encoded_words (encoded_word charset bs (space ++ encoded_word another cs []))
      ≡ bs ++ cs
unfolding decode_encoded_words words_loop word_or_char
decode_encoded_words-adjacent charset bs space another cs g h p q f =
    rw
      (
        decode_one_encoded_word-base64_encode charset bs (space ++ encoded_word another cs []) g p,
        drop_while-append is_fold space (encoded_word another cs []) f refl,
        decode_one_encoded_word-base64_encode another cs [] h q,
      )
      (ap (λ t. bs ++ t) (append-nil cs))

plain_loop :
    (fuel : ℕ) (text : Bytes)
    → all (λ c. not (c == b'=')) text ≡ true
    → length text < fuel
    → words_loop fuel false text ≡ text
unfolding words_loop decode_one_encoded_word word_or_char
plain_loop zero text h p = elim p [ ]
plain_loop (suc fuel) [] h p = refl
plain_loop (suc fuel) (c ∷ []) h p = ground (arith, plain_loop fuel [])
plain_loop (suc fuel) (c ∷ d ∷ cs) h p = ground (arith, plain_loop fuel (d ∷ cs))

-- A text without an equals sign passes unchanged.
pub decode_encoded_words-plain :
    (text : Bytes) → all (λ c. not (c == b'=')) text ≡ true → decode_encoded_words text ≡ text
unfolding decode_encoded_words
decode_encoded_words-plain text h = plain_loop (suc (length text)) text h (omega arith)
