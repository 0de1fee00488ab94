-- ===== src/SearchCriteria/Grammar/Sound.antt =====
-- `is_valid` of search_criteria.h against the balanced texts.
use bkmail.Prelude.{
  ℕ, zero, suc, ◌≡◌, refl, ap, ◌∙◌, ◌↔◌, true, false, List, [], ◌∷◌, ◌==◌, Bytes, is_empty, arith,
  Bool-cases, inl, inr, length,
}
use bkmail.SearchCriteria.{scan_char, scan, is_valid}
use bkmail.SearchCriteria.Grammar.{
  Items, no_line_end, are_items, render_items, at_depth, in_quotes, scan-render_items,
}
use bkmail.SearchCriteria.Grammar.Open.{
  Open, InQuotes, render_open, nothing_left, with_quote, opened, with_plain, end_of_quotes,
  quoted_itself, quoted_escaped, closed_group,
}

mutual
  unfolding scan scan_char

  Open-sound : (d : ℕ) (text : Bytes) → scan text (at_depth d) ≡ true → Open d text
  Open-sound d [] h = nothing_left d h
  Open-sound zero (c ∷ cs) h = elim (Bool-cases (c == b'"')) [
    | inl is_quote ↦ with_quote zero c cs is_quote (quotes_sound zero cs (ground arith))
    | inr no_quote ↦ elim (Bool-cases (c == b'(')) [
      | inl opens ↦ opened zero c cs opens (Open-sound 1 cs (ground arith))
      | inr no_open ↦ with_plain zero c cs (ground arith) (Open-sound zero cs (ground arith))
    ]
  ]
  Open-sound (suc d) (c ∷ cs) h = elim (Bool-cases (c == b'"')) [
    | inl is_quote ↦ with_quote (suc d) c cs is_quote (quotes_sound (suc d) cs (ground arith))
    | inr no_quote ↦ elim (Bool-cases (c == b'(')) [
      | inl opens ↦ opened (suc d) c cs opens (Open-sound (suc (suc d)) cs (ground arith))
      | inr no_open ↦ elim (Bool-cases (c == b')')) [
        | inl closes ↦ closed_group d c cs closes (Open-sound d cs (ground arith))
        | inr no_close ↦
            with_plain (suc d) c cs (ground arith) (Open-sound (suc d) cs (ground arith))
      ]
    ]
  ]

  quotes_sound : (d : ℕ) (text : Bytes) → scan text (in_quotes d false) ≡ true → InQuotes d text
  quotes_sound d [] h = ground arith
  quotes_sound d (c ∷ cs) h = elim (Bool-cases (c == b'"')) [
    | inl ends ↦ end_of_quotes d c cs ends (Open-sound d cs (ground arith))
    | inr goes_on ↦ elim (Bool-cases (c == b'\\')) [
      | inl escapes ↦
          let (x, rest, split, fits, further) = escaped_sound d cs (ground arith) in
          quoted_escaped d c x cs rest escapes fits split further
      | inr no_escape ↦ quoted_itself d c cs (ground arith) (quotes_sound d cs (ground arith))
    ]
  ]

  escaped_sound :
      (d : ℕ) (text : Bytes)
      → scan text (in_quotes d true) ≡ true
      → (c : ℕ) × (rest : Bytes) × (text ≡ c ∷ rest) × (no_line_end c ≡ true) × InQuotes d rest
  escaped_sound d [] h = ground arith
  escaped_sound d (c ∷ cs) h = (c, cs, refl, ground arith, quotes_sound d cs (ground arith))

-- The items of a text that is over at depth zero.
at_the_end :
    (text : Bytes)
    → Open 0 text
    → (items : Items) × (are_items items ≡ true) × (text ≡ render_items items [])
unfolding render_open
at_the_end text o = only o.items o.outers o.deep o.inner o.split
  where
    only :
        (items : Items) (outers : List Items)
        → length outers ≡ 0
        → are_items items ≡ true
        → text ≡ render_open items outers
        → (found : Items) × (are_items found ≡ true) × (text ≡ render_items found [])
    only items [] p h e = (items, h, e)
    only items (outer ∷ outers) p h e = ground arith

valid_sound :
    (text : Bytes)
    → is_valid text ≡ true
    → (is_empty text ≡ false)
      × (items : Items) × (are_items items ≡ true)
      × (text ≡ render_items items [])
unfolding is_valid
valid_sound text h = elim (Bool-cases (is_empty text)) [
  | inl empty ↦ ground arith
  | inr filled ↦
      let (items, h, e) = at_the_end text (Open-sound 0 text (ground arith)) in
      (filled, items, h, e)
]

valid_complete :
    (text : Bytes) (items : Items)
    → is_empty text ≡ false
    → are_items items ≡ true
    → text ≡ render_items items []
    → is_valid text ≡ true
unfolding is_valid scan
valid_complete text items filled h e =
    rw filled (ap (λ t. scan t (at_depth 0)) e ∙ scan-render_items items [] 0 h)

-- A text is valid exactly if it is not empty, and a sequence of characters other than CR, LF, quotes and
-- parentheses, of quoted strings, whose characters may stand behind a backslash, and of such sequences in
-- parentheses.
pub is_valid_balanced :
    (text : Bytes)
    → (is_valid text ≡ true) ↔ (
        (is_empty text ≡ false)
        × (items : Items) × (are_items items ≡ true)
        × (text ≡ render_items items []))
is_valid_balanced text =
    (valid_sound text, λ (filled, items, h, e). valid_complete text items filled h e)
