-- ===== src/SearchCriteria/Grammar/Open.antt =====
-- Texts of search_criteria.h with groups and quotes still open, and one character more in front.
use bkmail.Prelude.{
  ℕ, suc, ◌≡◌, refl, sym, ap, ◌∙◌, Bool, true, ◌&&◌, List, [], ◌∷◌, subst, ◌==◌, Bytes, arith,
  length,
}
use bkmail.SearchCriteria.{scan}
use bkmail.SearchCriteria.Grammar.{
  QuotedChar, itself, escaped_char, Item, plain, quote, group, Items, nil, cons, no_line_end,
  is_plain, is_quoted_char, are_quoted_chars, is_item, are_items, render_quote, render_item,
  render_items, at_depth,
}

-- Items, each followed by a parenthesis that closes a group around them, and items behind.
unfoldable pub render_open : Items → List Items → Bytes
unfolding render_items
render_open items [] = render_items items []
render_open items (outer ∷ outers) = render_items items (b')' ∷ render_open outer outers)

unfoldable pub all_items : List Items → Bool
unfolding are_items
all_items [] = true
all_items (items ∷ outers) = are_items items && all_items outers

-- What is left to read at a depth.
pub record Open (d : ℕ) (text : Bytes) : Type 0 where
  pub items : Items
  pub outers : List Items
  pub deep : length outers ≡ d
  pub inner : are_items items ≡ true
  pub outer : all_items outers ≡ true
  pub split : text ≡ render_open items outers

pub record InQuotes (d : ℕ) (text : Bytes) : Type 0 where
  pub chars : List QuotedChar
  pub behind : Bytes
  pub quotable : are_quoted_chars chars ≡ true
  pub closed : text ≡ render_quote chars behind
  pub further : Open d behind

render_open_cons :
    (item : Item) (items : Items) (outers : List Items)
    → render_open (cons item items) outers ≡ render_item item (render_open items outers)
unfolding render_open render_items
render_open_cons item items [] = refl
render_open_cons item items (outer ∷ outers) = refl

with_item :
    (d : ℕ) (item : Item) (text whole : Bytes)
    → is_item item ≡ true
    → whole ≡ render_item item text
    → Open d text
    → Open d whole
unfolding are_items
with_item d item text whole h e o = record {
  items = cons item o.items;
  outers = o.outers;
  deep = o.deep;
  inner = ground (arith, o.inner);
  outer = o.outer;
  split = e ∙ (ap (render_item item) o.split ∙ sym (render_open_cons item o.items o.outers));
}

with_close : (d : ℕ) (text : Bytes) → Open d text → Open (suc d) (b')' ∷ text)
unfolding render_open all_items are_items render_items
with_close d text o = record {
  items = nil;
  outers = o.items ∷ o.outers;
  deep = ap suc o.deep;
  inner = refl;
  outer = ground (arith, o.inner, o.outer);
  split = ap (λ t. b')' ∷ t) o.split;
}

with_group :
    (d : ℕ) (text : Bytes) (items : Items) (outers : List Items)
    → length outers ≡ suc d
    → are_items items ≡ true
    → all_items outers ≡ true
    → text ≡ render_open items outers
    → Open d (b'(' ∷ text)
unfolding render_open all_items
with_group d text items [] p h k e = ground arith
with_group d text items (outer ∷ outers) p h k e =
    with_item d (group items) (render_open outer outers) (b'(' ∷ text) (unfold is_item in h)
      (unfold render_item in ap (λ t. b'(' ∷ t) e)
      (record {
        items = outer;
        outers = outers;
        deep = omega (arith, p);
        inner = ground arith;
        outer = ground arith;
        split = refl;
      })

pub nothing_left : (d : ℕ) → scan [] (at_depth d) ≡ true → Open d []
unfolding scan render_open render_items are_items all_items
nothing_left d h = record {
  items = nil;
  outers = [];
  deep = ground arith;
  inner = refl;
  outer = refl;
  split = refl;
}

pub with_quote : (d c : ℕ) (cs : Bytes) → (c == b'"') ≡ true → InQuotes d cs → Open d (c ∷ cs)
unfolding is_item render_item
with_quote d c cs e q =
    with_item d (quote q.chars) q.behind (c ∷ cs) q.quotable (ground (arith, q.closed)) q.further

pub opened : (d c : ℕ) (cs : Bytes) → (c == b'(') ≡ true → Open (suc d) cs → Open d (c ∷ cs)
opened d c cs e o =
    subst (λ x. Open d (x ∷ cs)) (ground arith)
      (with_group d cs o.items o.outers o.deep o.inner o.outer o.split)

pub with_plain : (d c : ℕ) (cs : Bytes) → is_plain c ≡ true → Open d cs → Open d (c ∷ cs)
unfolding is_item render_item
with_plain d c cs h o = with_item d (plain c) cs (c ∷ cs) h refl o

pub end_of_quotes : (d c : ℕ) (cs : Bytes) → (c == b'"') ≡ true → Open d cs → InQuotes d (c ∷ cs)
unfolding render_quote are_quoted_chars
end_of_quotes d c cs e o = record {
  chars = [];
  behind = cs;
  quotable = refl;
  closed = ground arith;
  further = o;
}

pub quoted_itself :
    (d c : ℕ) (cs : Bytes) → is_quoted_char (itself c) ≡ true → InQuotes d cs → InQuotes d (c ∷ cs)
unfolding render_quote are_quoted_chars
quoted_itself d c cs h r = record {
  chars = itself c ∷ r.chars;
  behind = r.behind;
  quotable = ground (arith, r.quotable);
  closed = ap (λ t. c ∷ t) r.closed;
  further = r.further;
}

pub quoted_escaped :
    (d c x : ℕ) (cs rest : Bytes)
    → (c == b'\\') ≡ true
    → no_line_end x ≡ true
    → cs ≡ x ∷ rest
    → InQuotes d rest
    → InQuotes d (c ∷ cs)
unfolding render_quote are_quoted_chars
quoted_escaped d c x cs rest e h f r = record {
  chars = escaped_char x ∷ r.chars;
  behind = r.behind;
  quotable = ground (arith, r.quotable);
  closed = ground (arith, r.closed);
  further = r.further;
}

pub closed_group : (d c : ℕ) (cs : Bytes) → (c == b')') ≡ true → Open d cs → Open (suc d) (c ∷ cs)
closed_group d c cs e o = subst (λ x. Open (suc d) (x ∷ cs)) (ground arith) (with_close d cs o)
