-- ===== src/Rows.antt =====
-- The string tokens of a row of LIST and STATUS, as include/bkmail/imap/command/list_command.h and
-- status_command.h read them, and the loop over words that these two and capability_command.h share.
-- A reader takes the text from its position on and returns what it leaves.
pub mod Rendered
pub mod Names
use bkmail.Prelude.{
  ℕ, ◌+◌, Bool, true, false, ◌&&◌, ◌||◌, not, List, [], ◌∷◌, ◌++◌, Option, none, some, ltb, leb,
  ◌==◌, if◌then◌else◌, Bytes, codes, length, take, drop, is_empty, take_while, drop_while,
}
use bkmail.Astring.{is_digit}
use bkmail.Astring.Decimal.{from_chars}

abbrev push_byte : ℕ → Bytes × Bytes → Bytes × Bytes
push_byte c (out, rest) = (c ∷ out, rest)

-- The loop of `parse_quoted`, behind the opening quote. A text that ends first is all content.
unfoldable pub quoted_token : Bytes → Bytes × Bytes
quoted_token [] = ([], [])
quoted_token (c ∷ []) = if c == b'"' then ([], []) else (c ∷ [], [])
quoted_token (c ∷ d ∷ cs) =
    let escape = push_byte d (quoted_token cs) in
    let plain = push_byte c (quoted_token (d ∷ cs)) in
    if c == b'"' then ([], d ∷ cs) else if c == b'\\' then escape else plain

abbrev pub is_open_count : ℕ → Bool
is_open_count c = not (c == b'}')

abbrev pub past_line_end : Bytes → Bytes
past_line_end [] = []
past_line_end (c ∷ []) = c ∷ []
past_line_end (c ∷ d ∷ cs) = if c == b'\r' && d == b'\n' then cs else c ∷ d ∷ cs

-- As many bytes as are there.
abbrev pub octets : Option ℕ → Bytes → Bytes × Bytes
octets none rest = ([], [])
octets (some n) rest = let content = past_line_end rest in (take n content, drop n content)

-- `std::from_chars` on what stands between the braces: it reads the digits in front.
abbrev pub count_of : Bytes → Option ℕ
count_of inner =
    if is_empty (take_while is_digit inner) then none else from_chars (take_while is_digit inner)

-- `parse_literal`, behind the opening brace.
unfoldable pub literal_token : Bytes → Bytes × Bytes
unfolding from_chars
literal_token text =
    let rest = drop_while is_open_count text in
    if is_empty rest
    then ([], [])
    else octets (count_of (take_while is_open_count text)) (drop 1 rest)

abbrev pub is_token_char : ℕ → Bool
is_token_char c = not (c == b' ') && not (c == b'(') && not (c == b')')

abbrev pub word_token : Bytes → Bytes × Bytes
word_token text = (take_while is_token_char text, drop_while is_token_char text)

-- `parse_string`: any of the three forms.
unfoldable pub string_token : Bytes → Bytes × Bytes
unfolding quoted_token literal_token
string_token [] = ([], [])
string_token (c ∷ cs) =
    if c == b'"'
    then quoted_token cs
    else if c == b'{'
    then literal_token cs
    else word_token (c ∷ cs)

abbrev onto_first : ℕ → List Bytes → List Bytes
onto_first c [] = (c ∷ []) ∷ []
onto_first c (w ∷ ws) = (c ∷ w) ∷ ws

-- What a loop sees that takes the text up to the next space, drops the space, and stops at the end of
-- the text.
unfoldable pub words : Bytes → List Bytes
words [] = []
words (c ∷ cs) = let rest = words cs in if c == b' ' then [] ∷ rest else onto_first c rest

-- The lambda that appends one name of a list: whether it is still the first, and the text so far.
abbrev pub emit : Bool → Bytes → Bool × Bytes → Bool × Bytes
emit wanted name (first, out) =
    if wanted then (false, (if first then out else out ++ b' ' ∷ []) ++ name) else (first, out)
