-- ===== src/SearchCriteria/Grammar.antt =====
-- Texts with balanced parentheses and quotes, and `is_valid` of search_criteria.h against them.
pub mod Open
pub mod Sound
use bkmail.Prelude.{
  ℕ, zero, suc, ◌+◌, ◌-◌, ◌≡◌, refl, sym, ap, ◌∙◌, Bool, true, false, ◌&&◌, ◌||◌, not, List, [],
  ◌∷◌, ◌++◌, append_assoc, Option, none, some, ◌==◌, if◌then◌else◌, Bytes, is_empty, arith,
  Bool-cases, inl, inr,
}
use bkmail.SearchCriteria.{Scan, scan_char, resumed, scan, is_valid}

-- A character inside quotes: itself, or behind a backslash.
pub data QuotedChar : Type 0 where
  itself escaped_char : ℕ → QuotedChar

mutual
  pub data Item : Type 0 where
    plain : ℕ → Item
    quote : List QuotedChar → Item
    group : Items → Item

  pub data Items : Type 0 where
    nil : Items
    cons : Item → Items → Items

abbrev pub no_line_end : ℕ → Bool
no_line_end c = not (c == b'\r' || c == b'\n')

abbrev pub is_plain : ℕ → Bool
is_plain c = no_line_end c && (not (c == b'"') && (not (c == b'(') && not (c == b')')))

abbrev pub is_quoted_char : QuotedChar → Bool
is_quoted_char (itself c) = no_line_end c && (not (c == b'"') && not (c == b'\\'))
is_quoted_char (escaped_char c) = no_line_end c

unfoldable pub are_quoted_chars : List QuotedChar → Bool
are_quoted_chars [] = true
are_quoted_chars (q ∷ qs) = is_quoted_char q && are_quoted_chars qs

unfoldable mutual
  unfolding are_quoted_chars

  pub is_item : Item → Bool
  is_item (plain c) = is_plain c
  is_item (quote qs) = are_quoted_chars qs
  is_item (group items) = are_items items

  pub are_items : Items → Bool
  are_items nil = true
  are_items (cons item items) = is_item item && are_items items

-- The characters up to the closing quote, in front of a text.
unfoldable pub render_quote : List QuotedChar → Bytes → Bytes
render_quote [] rest = b'"' ∷ rest
render_quote (itself c ∷ qs) rest = c ∷ render_quote qs rest
render_quote (escaped_char c ∷ qs) rest = b'\\' ∷ c ∷ render_quote qs rest

unfoldable mutual
  unfolding render_quote

  pub render_item : Item → Bytes → Bytes
  render_item (plain c) rest = c ∷ rest
  render_item (quote qs) rest = b'"' ∷ render_quote qs rest
  render_item (group items) rest = b'(' ∷ render_items items (b')' ∷ rest)

  pub render_items : Items → Bytes → Bytes
  render_items nil rest = rest
  render_items (cons item items) rest = render_item item (render_items items rest)

abbrev pub at_depth : ℕ → Scan
at_depth d = record { depth = d; quoted = false; escaped = false }

abbrev pub in_quotes : ℕ → Bool → Scan
in_quotes d escaped = record { depth = d; quoted = true; escaped = escaped }

scan-render_quote :
    (qs : List QuotedChar) (rest : Bytes) (d : ℕ)
    → are_quoted_chars qs ≡ true
    → scan (render_quote qs rest) (in_quotes d false) ≡ scan rest (at_depth d)
unfolding scan scan_char render_quote are_quoted_chars
scan-render_quote [] rest d h = refl
scan-render_quote (itself c ∷ qs) rest d h = ground (arith, scan-render_quote qs rest d)
scan-render_quote (escaped_char c ∷ qs) rest d h = ground (arith, scan-render_quote qs rest d)

mutual
  unfolding scan scan_char render_items is_item

  scan-render_item :
      (item : Item) (rest : Bytes) (d : ℕ)
      → is_item item ≡ true
      → scan (render_item item rest) (at_depth d) ≡ scan rest (at_depth d)
  scan-render_item (plain c) rest d h = ground arith
  scan-render_item (quote qs) rest d h = scan-render_quote qs rest d h
  scan-render_item (group items) rest d h =
      scan-render_items items (b')' ∷ rest) (d + 1) h ∙ ground arith

  scan-render_items :
      (items : Items) (rest : Bytes) (d : ℕ)
      → are_items items ≡ true
      → scan (render_items items rest) (at_depth d) ≡ scan rest (at_depth d)
  scan-render_items nil rest d h = refl
  scan-render_items (cons item items) rest d h =
      scan-render_item item (render_items items rest) d (ground arith)
      ∙ scan-render_items items rest d (ground arith)
