-- ===== src/Listing/RoundTrip.antt =====
-- A row of LIST comes back as the entry it says.
use bkmail.Prelude.{
  ℕ, ◌<◌, ◌^◌, ◌≡◌, refl, ap, sym, ◌∙◌, true, false, ◌&&◌, List, [], ◌∷◌, ◌++◌, append-nil, Option,
  none, some, ◌==◌, Bytes, codes, length, all, leb, take, take_while, take_while-append,
  drop_while-append, arith,
}
use bkmail.Astring.{render_quoted, render_literal, synchronizing, ascii_iequals, ascii_to_upper}
use bkmail.Cursor.{skip_spaces}
use bkmail.Astring.Decimal.{to_chars}
use bkmail.Rows.{string_token, literal_token, is_token_char}
use bkmail.Rows.Rendered.{quoted_token-quoted_body, literal_token-render_literal}
use bkmail.Listing.{
  MailboxEntry, new_entry, apply_row_flags, delimiter_token, row_tail, is_inside, parse_row,
}
use bkmail.Listing.Render.{
  NameForm, word, quoted, literal, render_name, IsSendable, spaced, render_delimiter, render_row,
  entry_of, bytes_of, is_name_word,
}
use bkmail.Listing.Attributes.{AllAttributes, words-spaced, spaced_inside, attributes_bits}

whole_word : (v : Bytes) → all is_token_char v ≡ true → take_while is_token_char v ≡ v
whole_word [] h = refl
whole_word (c ∷ v) h = ground (arith, whole_word v)

name_word_head :
    (c : ℕ) (v : Bytes)
    → is_name_word (c ∷ v) ≡ true
    → (all is_token_char (c ∷ v) ≡ true)
      × ((c == b'"') ≡ false)
      × ((c == b'{') ≡ false)
      × ((c == b' ') ≡ false)
name_word_head c v h = ground arith

no_space : (c : ℕ) (v : Bytes) → (c == b' ') ≡ false → skip_spaces (c ∷ v) ≡ c ∷ v
no_space c v h = ground arith

word_string : (v : Bytes) → is_name_word v ≡ true → (string_token (skip_spaces v)).0 ≡ v
unfolding string_token
word_string [] h = cc
word_string (c ∷ v) h =
    let (t, q, b, s) = name_word_head c v h in rw (no_space c v s, q, b) (whole_word (c ∷ v) t)

quoted_string : (v rest : Bytes) → string_token (render_quoted v ++ rest) ≡ (v, rest)
unfolding string_token render_quoted
quoted_string v rest = quoted_token-quoted_body v rest

quoted_spaces : (v rest : Bytes) → skip_spaces (render_quoted v ++ rest) ≡ render_quoted v ++ rest
unfolding render_quoted
quoted_spaces v rest = refl

quoted_name : (v : Bytes) → (string_token (skip_spaces (render_quoted v))).0 ≡ v
quoted_name v =
    rw (← append-nil (render_quoted v)) (rw (quoted_spaces v [], quoted_string v []) refl)

literal_name :
    (v : Bytes)
    → length v < 2 ^ 64
    → (string_token (skip_spaces (render_literal v synchronizing))).0 ≡ v
unfolding string_token render_literal
literal_name v h =
    ap (λ (t : Bytes). (literal_token (to_chars (length v) ++ b'}' ∷ b'\r' ∷ b'\n' ∷ t)).0)
      (sym (append-nil v))
    ∙ ap (λ (p : Bytes × Bytes). p.0) (literal_token-render_literal v [] h)

-- A name in any form is the whole content of the token.
name_string :
    (form : NameForm) (v : Bytes)
    → IsSendable form v
    → (string_token (skip_spaces (render_name form v))).0 ≡ v
unfolding render_name
name_string word v h = word_string v h
name_string quoted v h = quoted_name v
name_string literal v h = literal_name v h

not_nil :
    (v rest : Bytes)
    → (leb 3 (length (render_quoted v ++ rest))
        && ascii_iequals (take 3 (render_quoted v ++ rest)) (codes "NIL"))
      ≡ false
unfolding render_quoted ascii_iequals ascii_to_upper
not_nil v rest = ground arith

nil_string : (rest : Bytes) → delimiter_token (codes "NIL" ++ rest) ≡ ([], rest)
unfolding delimiter_token ascii_iequals ascii_to_upper
nil_string rest = ground arith

-- The delimiter is what stands in front of the name.
delimiter_string :
    (d : Option ℕ) (rest : Bytes)
    → delimiter_token (skip_spaces (b' ' ∷ (render_delimiter d ++ b' ' ∷ rest)))
      ≡ (bytes_of d, b' ' ∷ rest)
unfolding delimiter_token render_delimiter
delimiter_string none rest = nil_string (b' ' ∷ rest)
delimiter_string (some d) rest =
    rw
      (
        quoted_spaces (d ∷ []) (b' ' ∷ rest),
        not_nil (d ∷ []) (b' ' ∷ rest),
        quoted_string (d ∷ []) (b' ' ∷ rest),
      )
      refl

row_tail_lem :
    (d : Option ℕ) (form : NameForm) (name : Bytes) (e : MailboxEntry)
    → IsSendable form name
    → row_tail (b' ' ∷ (render_delimiter d ++ b' ' ∷ render_name form name)) e
      ≡ record e { delimiter = bytes_of d; name = name }
unfolding row_tail
row_tail_lem d form name e h =
    rw (delimiter_string d (render_name form name), name_string form name h) refl

-- A row of LIST comes back as the entry it says, with its attributes in any number and order and however
-- they are capitalised, with or without a delimiter, and with the name in any form that can carry it.
pub parse_row-render_row :
    (attrs : List Bytes) (d : Option ℕ) (form : NameForm) (name : Bytes)
    → AllAttributes attrs
    → IsSendable form name
    → parse_row (render_row attrs d form name) ≡ some (entry_of attrs d name)
unfolding parse_row render_row entry_of
parse_row-render_row attrs d form name a h =
    let rest : Bytes = b' ' ∷ (render_delimiter d ++ b' ' ∷ render_name form name) in
    let inside = spaced_inside attrs a in
    let (n, c, o) = attributes_bits attrs new_entry in
    rw
      (
        take_while-append is_inside (spaced attrs) (b')' ∷ rest) inside refl,
        drop_while-append is_inside (spaced attrs) (b')' ∷ rest) inside refl,
        row_tail_lem d form name (apply_row_flags (spaced attrs) new_entry) h,
        apply_row_flags,
        words-spaced attrs a,
      )
      (ground (arith, n, c, o))
