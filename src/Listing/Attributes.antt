-- ===== src/Listing/Attributes.antt =====
-- The attributes of a row of LIST.
use bkmail.Prelude.{
  ℕ, ◌≡◌, refl, ap, ◌∙◌, true, ◌&&◌, ◌||◌, List, [], ◌∷◌, ◌++◌, ◌==◌, Bytes, codes, length, all,
  All, arith,
}
use bkmail.Astring.{ascii_iequals, ascii_to_upper}
use bkmail.Rows.{words, is_token_char}
use bkmail.Listing.{MailboxEntry, apply_attribute, apply_attributes, is_inside}
use bkmail.Listing.Render.{spaced, has_attribute, is_attribute}

words_word : (w : Bytes) → is_attribute w ≡ true → words w ≡ w ∷ []
unfolding words
words_word [] h = cc
words_word (c ∷ []) h = ground arith
words_word (c ∷ d ∷ w) h = ground (arith, words_word (d ∷ w))

words_first : (w rest : Bytes) → is_attribute w ≡ true → words (w ++ b' ' ∷ rest) ≡ w ∷ words rest
unfolding words
words_first [] rest h = cc
words_first (c ∷ []) rest h = ground arith
words_first (c ∷ d ∷ w) rest h = ground (arith, words_first (d ∷ w) rest)

abbrev pub AllAttributes : List Bytes → Type 0
AllAttributes attrs = All (λ a. is_attribute a ≡ true) attrs

pub words-spaced : (attrs : List Bytes) → AllAttributes attrs → words (spaced attrs) ≡ attrs
unfolding words
words-spaced [] h = refl
words-spaced (w ∷ []) (h, rest) = words_word w h
words-spaced (w ∷ v ∷ ws) (h, rest) =
    words_first w (spaced (v ∷ ws)) h ∙ ap (◌∷◌ w) (words-spaced (v ∷ ws) rest)

inside_append :
    (xs ys : Bytes)
    → all is_inside xs ≡ true
    → all is_inside ys ≡ true
    → all is_inside (xs ++ b' ' ∷ ys) ≡ true
inside_append [] ys h k = ground arith
inside_append (x ∷ xs) ys h k = ground (arith, inside_append xs ys)

attribute_inside : (w : Bytes) → all is_token_char w ≡ true → all is_inside w ≡ true
attribute_inside [] h = refl
attribute_inside (c ∷ w) h = ground (arith, attribute_inside w)

pub spaced_inside : (attrs : List Bytes) → AllAttributes attrs → all is_inside (spaced attrs) ≡ true
spaced_inside [] h = refl
spaced_inside (w ∷ []) (h, rest) = attribute_inside w (ground arith)
spaced_inside (w ∷ v ∷ ws) (h, rest) =
    inside_append w (spaced (v ∷ ws)) (attribute_inside w (ground arith))
      (spaced_inside (v ∷ ws) rest)

iequals_length : (a b : Bytes) → ascii_iequals a b ≡ true → length a ≡ length b
unfolding ascii_iequals
iequals_length [] [] h = refl
iequals_length [] (y ∷ b) h = cc
iequals_length (x ∷ a) [] h = cc
iequals_length (x ∷ a) (y ∷ b) h = ground (arith, iequals_length a b)

backslash_upper : (c : ℕ) → (ascii_to_upper c == b'\\') ≡ (c == b'\\')
unfolding ascii_to_upper
backslash_upper c = ground arith

backslash_first :
    (c : ℕ) (a name : Bytes)
    → ascii_iequals (c ∷ a) (b'\\' ∷ name) ≡ (c == b'\\' && ascii_iequals a name)
unfolding ascii_iequals
backslash_first c a name = ap (λ b. b && ascii_iequals a name) (backslash_upper c)

attribute_bits :
    (attr : Bytes) (e : MailboxEntry)
    → ((apply_attribute attr e).no_select
        ≡ (ascii_iequals attr (codes "\\Noselect") || e.no_select))
      × ((apply_attribute attr e).has_children
          ≡ (ascii_iequals attr (codes "\\HasChildren") || e.has_children))
      × ((apply_attribute attr e).has_no_children
          ≡ (ascii_iequals attr (codes "\\HasNoChildren") || e.has_no_children))
      × ((apply_attribute attr e).name ≡ e.name)
      × ((apply_attribute attr e).delimiter ≡ e.delimiter)
unfolding apply_attribute
attribute_bits [] e = (refl, refl, refl, refl, refl)
attribute_bits (c ∷ attr) e =
    rw
      (
        backslash_first c attr (codes "Noselect"),
        backslash_first c attr (codes "HasChildren"),
        backslash_first c attr (codes "HasNoChildren"),
      )
      (ground (
        arith,
        iequals_length attr (codes "Noselect"),
        iequals_length attr (codes "HasChildren"),
        iequals_length attr (codes "HasNoChildren"),
      ))

-- Each of the three flags of the entry is whether the row has that attribute, however it is written.
pub attributes_bits :
    (attrs : List Bytes) (e : MailboxEntry)
    → ((apply_attributes attrs e).no_select
        ≡ (has_attribute (codes "\\Noselect") attrs || e.no_select))
      × ((apply_attributes attrs e).has_children
          ≡ (has_attribute (codes "\\HasChildren") attrs || e.has_children))
      × ((apply_attributes attrs e).has_no_children
          ≡ (has_attribute (codes "\\HasNoChildren") attrs || e.has_no_children))
unfolding apply_attributes has_attribute
attributes_bits [] e = (refl, refl, refl)
attributes_bits (a ∷ attrs) e =
    let (n, c, o, _, _) = attribute_bits a e in
    let (ns, cs, os) = attributes_bits attrs (apply_attribute a e) in
    (ground (arith, n, ns), ground (arith, c, cs), ground (arith, o, os))
