-- ===== src/Parser/Tagged.antt =====
-- Tagged replies: what `parse` makes of the line that a server renders.
use bkmail.Prelude.{
  ℕ, ◌≡◌, refl, ◌∙◌, Bool, true, false, not, [], ◌∷◌, ◌++◌, none, some, ◌==◌, if◌then◌else◌, Bytes,
  codes, all, Stops, take_while-append, drop_while-append, drop_while, arith,
}
use bkmail.Astring.{is_atom_char, is_atom_special, is_list_wildcard}
use bkmail.Cursor.{peek, read_atom, read_until_any, contains}
use bkmail.Response.{ResponseStatus, tagged}
use bkmail.Parser.{
  parse, parse_tagged, parse_resp_text, parse_resp_code, classify_status, is_tagged_status,
  tagged_status, tagged_reply, bracket_text, code_text,
}

-- As `read_until_any` stops at `]`.
abbrev pub not_bracket : ℕ → Bool
not_bracket x = not (contains (codes "]") x)

drop_while-all : (inner : Bytes) → all not_bracket inner ≡ true → drop_while not_bracket inner ≡ []
drop_while-all [] i = refl
drop_while-all (x ∷ inner) i = ground (arith, drop_while-all inner)

abbrev pub status_line : Bytes → Bytes → Bytes → Bytes
status_line tag word text = tag ++ b' ' ∷ (word ++ text)

space-Stops : (cs : Bytes) → Stops is_atom_char (b' ' ∷ cs)
unfolding is_atom_char is_atom_special
space-Stops cs = refl

pub read_atom-append :
    (atom : Bytes) (rest : Bytes)
    → all is_atom_char atom ≡ true
    → Stops is_atom_char rest
    → read_atom (atom ++ rest) ≡ (atom, rest)
unfolding read_atom
read_atom-append atom rest h s =
    rw (take_while-append is_atom_char atom rest h s, drop_while-append is_atom_char atom rest h s)
      refl

star_excluded : (c : ℕ) → is_atom_char c ≡ true → (c == b'*') ≡ false
unfolding is_atom_char is_atom_special is_list_wildcard
star_excluded c h = ground arith

tagged_words :
    (c : ℕ) (cs word text : Bytes) (status : ResponseStatus)
    → all is_atom_char (c ∷ cs) ≡ true
    → all is_atom_char word ≡ true
    → classify_status word ≡ some status
    → Stops is_atom_char text
    → parse_tagged (status_line (c ∷ cs) word text) ≡ (
        if is_tagged_status status
        then tagged_reply (c ∷ cs) status (parse_resp_text text)
        else none)
unfolding parse_tagged tagged_status read_atom
tagged_words c cs word text status h w e s =
    rw
      (
        take_while-append is_atom_char (c ∷ cs) (b' ' ∷ (word ++ text)) h
            (space-Stops (word ++ text)),
        drop_while-append is_atom_char (c ∷ cs) (b' ' ∷ (word ++ text)) h
            (space-Stops (word ++ text)),
        take_while-append is_atom_char word text w s,
        drop_while-append is_atom_char word text w s,
        e,
      )
      refl

-- The tag and the status word are read back, and the text goes to `parse_resp_text`.
tagged_line :
    (c : ℕ) (cs word text : Bytes) (status : ResponseStatus)
    → all is_atom_char (c ∷ cs) ≡ true
    → (c == b'+') ≡ false
    → all is_atom_char word ≡ true
    → classify_status word ≡ some status
    → Stops is_atom_char text
    → parse (status_line (c ∷ cs) word text) ≡ (
        if is_tagged_status status
        then tagged_reply (c ∷ cs) status (parse_resp_text text)
        else none)
unfolding parse
tagged_line c cs word text status h p w e s =
    rw (p, star_excluded c (ground arith)) (tagged_words c cs word text status h w e s)

-- A line of a tag, a status word in any case and a text that opens no bracket is parsed to that tag,
-- that status and that text without a code if the status is OK, NO or BAD, and refused if it is
-- PREAUTH or BYE. The tag is made of atom characters and does not start with `+`.
pub parse-status_line :
    (c : ℕ) (cs word text : Bytes) (status : ResponseStatus)
    → all is_atom_char (c ∷ cs) ≡ true
    → (c == b'+') ≡ false
    → all is_atom_char word ≡ true
    → classify_status word ≡ some status
    → (peek text == b'[') ≡ false
    → parse (status_line (c ∷ cs) word (b' ' ∷ text)) ≡ (
        if is_tagged_status status
        then some (tagged (record { tag = c ∷ cs; status = status; code = none; text = text }))
        else none)
unfolding parse_resp_text tagged_reply
parse-status_line c cs word text status h p w e b =
    tagged_line c cs word (b' ' ∷ text) status h p w e (space-Stops text) ∙ (rw b refl)

-- With a bracket, what stands inside it up to the first `]` is the code, whatever it is, and the
-- text is what follows `] `; a bracket that is not closed is refused.
pub parse-status_line_code :
    (c : ℕ) (cs word inner text : Bytes) (status : ResponseStatus)
    → all is_atom_char (c ∷ cs) ≡ true
    → (c == b'+') ≡ false
    → all is_atom_char word ≡ true
    → classify_status word ≡ some status
    → is_tagged_status status ≡ true
    → all not_bracket inner ≡ true
    → (parse (status_line (c ∷ cs) word (b' ' ∷ b'[' ∷ (inner ++ b']' ∷ b' ' ∷ text)))
        ≡ some (
            tagged (record {
              tag = c ∷ cs;
              status = status;
              code = some (parse_resp_code inner);
              text = text;
            })))
      × (parse (status_line (c ∷ cs) word (b' ' ∷ b'[' ∷ inner)) ≡ none)
unfolding parse_resp_text tagged_reply bracket_text code_text read_until_any
parse-status_line_code c cs word inner text status h p w e t i = (
  tagged_line c cs word (b' ' ∷ b'[' ∷ (inner ++ b']' ∷ b' ' ∷ text)) status h p w e
        (space-Stops [])
      ∙ (rw
          (
            t,
            take_while-append not_bracket inner (b']' ∷ b' ' ∷ text) i refl,
            drop_while-append not_bracket inner (b']' ∷ b' ' ∷ text) i refl,
          )
          refl),
  tagged_line c cs word (b' ' ∷ b'[' ∷ inner) status h p w e (space-Stops [])
      ∙ (rw (t, drop_while-all inner i) refl),
)
