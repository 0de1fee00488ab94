-- ===== src/Status/RoundTrip.antt =====
-- What STATUS asks for and what it makes of the answer.
use bkmail.Prelude.{
  ℕ, ◌<◌, ◌^◌, ◌≡◌, refl, ap, ◌∙◌, Bool, true, false, List, [], ◌∷◌, ◌++◌, append_assoc, some, ◌==◌,
  Bytes, codes, length, all, take_while-append, drop_while-append, lt→ltb, arith,
}
use bkmail.Astring.{
  quoted_body, render_quoted, render_literal, synchronizing, ascii_iequals, ascii_to_upper,
}
use bkmail.Astring.Decimal.{to_chars, decimal-to_chars, to_chars_decimal, is_decimal}
use bkmail.Cursor.Literal.{to_chars_digits, to_chars_nonempty}
use bkmail.Rows.{quoted_token, literal_token, words, is_token_char}
use bkmail.Rows.Rendered.{quoted_token-quoted_body, literal_token-render_literal, digits_whole}
use bkmail.Rows.Names.{chosen, words-emit_all}
use bkmail.Listing.Render.{
  NameForm, word, quoted, literal, render_name, IsSendable, is_name_word, spaced, is_attribute,
}
use bkmail.Listing.Attributes.{AllAttributes, words-spaced, spaced_inside}
use bkmail.Status.{
  MailboxStatus, new_status, has_status_item, append_items, skip_quoted, skip_literal, skip_string,
  is_name_char, value_of, apply_value, apply_pair, apply_pairs, is_inside, parse_pairs, parse_row,
}

abbrev pub items_table : ℕ → List (Bool × Bytes)
items_table items =
    (has_status_item items 1, codes "MESSAGES")
    ∷ (has_status_item items 2, codes "RECENT")
    ∷ (has_status_item items 4, codes "UIDNEXT")
    ∷ (has_status_item items 8, codes "UIDVALIDITY")
    ∷ (has_status_item items 16, codes "UNSEEN")
    ∷ []

-- STATUS asks for the names of exactly the items in the mask, in the order of the table.
pub words-append_items : (items : ℕ) → words (append_items items) ≡ chosen (items_table items)
unfolding append_items
words-append_items items =
    words-emit_all (items_table items) (refl, (refl, (refl, (refl, (refl, tt)))))

skip_quoted_lem : (text : Bytes) → skip_quoted text ≡ (quoted_token text).1
unfolding skip_quoted quoted_token
skip_quoted_lem [] = refl
skip_quoted_lem (c ∷ []) = ground arith
skip_quoted_lem (c ∷ d ∷ cs) = ground (arith, skip_quoted_lem cs, skip_quoted_lem (d ∷ cs))

skip_literal_lem : (text : Bytes) → skip_literal text ≡ (literal_token text).1
unfolding skip_literal literal_token
skip_literal_lem text = ground arith

name_chars : (v : Bytes) → all is_token_char v ≡ true → all is_name_char v ≡ true
name_chars [] h = refl
name_chars (c ∷ v) h = ground (arith, name_chars v)

word_head :
    (c : ℕ) (v : Bytes)
    → is_name_word (c ∷ v) ≡ true
    → (all is_token_char (c ∷ v) ≡ true) × ((c == b'"') ≡ false) × ((c == b'{') ≡ false)
word_head c v h = ground arith

skip_word : (v rest : Bytes) → is_name_word v ≡ true → skip_string (v ++ b' ' ∷ rest) ≡ b' ' ∷ rest
unfolding skip_string
skip_word [] rest h = cc
skip_word (c ∷ v) rest h =
    let (t, q, b) = word_head c v h in
    rw (q, b) (drop_while-append is_name_char (c ∷ v) (b' ' ∷ rest) (name_chars (c ∷ v) t) refl)

skip_quoted_name : (v rest : Bytes) → skip_string (render_quoted v ++ rest) ≡ rest
unfolding skip_string render_quoted
skip_quoted_name v rest =
    skip_quoted_lem (quoted_body v ++ rest)
    ∙ ap (λ (p : Bytes × Bytes). p.1) (quoted_token-quoted_body v rest)

skip_literal_name :
    (v rest : Bytes)
    → length v < 2 ^ 64
    → skip_string (render_literal v synchronizing ++ rest) ≡ rest
unfolding skip_string render_literal
skip_literal_name v rest h =
    ap skip_literal (append_assoc (to_chars (length v)) (b'}' ∷ b'\r' ∷ b'\n' ∷ v) rest)
    ∙ skip_literal_lem (to_chars (length v) ++ b'}' ∷ b'\r' ∷ b'\n' ∷ (v ++ rest))
    ∙ ap (λ (p : Bytes × Bytes). p.1) (literal_token-render_literal v rest h)

skip_name :
    (form : NameForm) (v rest : Bytes)
    → IsSendable form v
    → skip_string (render_name form v ++ b' ' ∷ rest) ≡ b' ' ∷ rest
unfolding render_name
skip_name word v rest h = skip_word v rest h
skip_name quoted v rest h = skip_quoted_name v (b' ' ∷ rest)
skip_name literal v rest h = skip_literal_name v (b' ' ∷ rest) h

pub data StatusItem : Type 0 where
  messages recent uid_next uid_validity unseen : StatusItem

abbrev pub item_name : StatusItem → Bytes
item_name messages = codes "MESSAGES"
item_name recent = codes "RECENT"
item_name uid_next = codes "UIDNEXT"
item_name uid_validity = codes "UIDVALIDITY"
item_name unseen = codes "UNSEEN"

abbrev pub assign : StatusItem → ℕ → MailboxStatus → MailboxStatus
assign messages v s = record s { messages = some v }
assign recent v s = record s { recent = some v }
assign uid_next v s = record s { uid_next = some v }
assign uid_validity v s = record s { uid_validity = some v }
assign unseen v s = record s { unseen = some v }

abbrev pub assign_all : List (StatusItem × ℕ) → MailboxStatus → MailboxStatus
assign_all [] s = s
assign_all ((item, v) ∷ pairs) s = assign_all pairs (assign item v s)

abbrev pub pair_words : List (StatusItem × ℕ) → List Bytes
pair_words [] = []
pair_words ((item, v) ∷ pairs) = item_name item ∷ to_chars v ∷ pair_words pairs

abbrev pub AllWords32 : List (StatusItem × ℕ) → Type 0
AllWords32 [] = Unit
AllWords32 ((item, v) ∷ pairs) = (v < 2 ^ 32) × AllWords32 pairs

value_of-to_chars : (v : ℕ) → v < 2 ^ 32 → value_of (to_chars v) ≡ some v
unfolding value_of
value_of-to_chars v h =
    rw
      (
        digits_whole (to_chars v) (to_chars_digits v),
        to_chars_nonempty v,
        decimal-to_chars v,
        lt→ltb v (2 ^ 32) h,
      )
      refl

apply_value_item :
    (item : StatusItem) (v : ℕ) (s : MailboxStatus)
    → apply_value (item_name item) (some v) s ≡ assign item v s
unfolding apply_value ascii_iequals ascii_to_upper
apply_value_item messages v s = refl
apply_value_item recent v s = refl
apply_value_item uid_next v s = refl
apply_value_item uid_validity v s = refl
apply_value_item unseen v s = refl

apply_pairs-pair_words :
    (pairs : List (StatusItem × ℕ)) (s : MailboxStatus)
    → AllWords32 pairs
    → apply_pairs (pair_words pairs) s ≡ assign_all pairs s
unfolding apply_pairs apply_pair
apply_pairs-pair_words [] s h = refl
apply_pairs-pair_words ((item, v) ∷ pairs) s (h, rest) =
    rw (value_of-to_chars v h, apply_value_item item v s)
      (apply_pairs-pair_words pairs (assign item v s) rest)

decimal_token : (ds : Bytes) → all is_decimal ds ≡ true → all is_token_char ds ≡ true
decimal_token [] h = refl
decimal_token (d ∷ ds) h = ground (arith, decimal_token ds)

item_attribute : (item : StatusItem) → is_attribute (item_name item) ≡ true
item_attribute messages = refl
item_attribute recent = refl
item_attribute uid_next = refl
item_attribute uid_validity = refl
item_attribute unseen = refl

number_attribute : (v : ℕ) → is_attribute (to_chars v) ≡ true
number_attribute v = rw (to_chars_nonempty v, decimal_token (to_chars v) (to_chars_decimal v)) refl

pair_attributes : (pairs : List (StatusItem × ℕ)) → AllAttributes (pair_words pairs)
pair_attributes [] = tt
pair_attributes ((item, v) ∷ pairs) =
    (item_attribute item, (number_attribute v, pair_attributes pairs))

-- The row that a server sends.
unfoldable pub render_status_row : NameForm → Bytes → List (StatusItem × ℕ) → Bytes
render_status_row form mailbox pairs =
    render_name form mailbox ++ b' ' ∷ b'(' ∷ (spaced (pair_words pairs) ++ b')' ∷ [])

-- A row of STATUS, with the mailbox in any form that can carry its name and any items with 32-bit numbers,
-- replaces the status by exactly these items, a later pair winning over an earlier one of the same item.
pub parse_row-render_status_row :
    (form : NameForm) (mailbox : Bytes) (pairs : List (StatusItem × ℕ)) (old : MailboxStatus)
    → IsSendable form mailbox
    → AllWords32 pairs
    → parse_row (render_status_row form mailbox pairs) old ≡ assign_all pairs new_status
unfolding parse_row render_status_row parse_pairs
parse_row-render_status_row form mailbox pairs old h small =
    let body = spaced (pair_words pairs) in
    let inside = spaced_inside (pair_words pairs) (pair_attributes pairs) in
    rw
      (
        skip_name form mailbox (b'(' ∷ (body ++ b')' ∷ [])) h,
        take_while-append is_inside body (b')' ∷ []) inside refl,
        drop_while-append is_inside body (b')' ∷ []) inside refl,
        words-spaced (pair_words pairs) (pair_attributes pairs),
      )
      (apply_pairs-pair_words pairs new_status small)
