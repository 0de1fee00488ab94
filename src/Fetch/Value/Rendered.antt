-- ===== src/Fetch/Value/Rendered.antt =====
-- `skip_value` of fetch_parse.h against the values of RFC 3501: atoms, quoted strings, literals and
-- parenthesized lists of values.
use bkmail.Prelude.{
  ℕ, zero, suc, ◌<◌, ◌≤◌, ◌^◌, ◌≡◌, refl, sym, ap, ◌∙◌, subst, true, false, [], ◌∷◌, ◌++◌,
  append_assoc, Option, some, Bytes, length, length-append, is_empty, all, Stops, drop, ◌==◌, arith,
  take_while-append, drop_while-append,
}
use bkmail.Astring.{is_atom_char, is_atom_special, render_quoted, render_literal, LiteralMode}
use bkmail.Cursor.{peek, read_atom}
use bkmail.Cursor.RoundTrip.{is_quotable, read_quoted-render_quoted}
use bkmail.Cursor.Literal.{read_literal-render_literal}
use bkmail.Fetch.Loop.{until_close}
use bkmail.Fetch.Value.{skip_value_in, skip_value, has_value}

mutual
  pub data Value : Type 0 where
    word : Bytes → Value
    text : Bytes → Value
    octets : Bytes → LiteralMode → Value
    group : Values → Value

  pub data Values : Type 0 where
    nil : Values
    cons : Value → Values → Values

-- Every value of a list stands behind a space; the list drops the first one.
unfoldable mutual
  unfolding render_quoted render_literal

  pub render : Value → Bytes
  render (word w) = w
  render (text v) = render_quoted v
  render (octets v mode) = render_literal v mode
  render (group vs) = b'(' ∷ (drop 1 (render_all vs) ++ b')' ∷ [])

  pub render_all : Values → Bytes
  render_all nil = []
  render_all (cons v vs) = b' ' ∷ (render v ++ render_all vs)

-- A word is an atom that is not read as a literal, a quoted string has no CR and LF, and a literal can be
-- counted in 64 bits.
abbrev mutual
  pub IsValue : Value → Type 0
  IsValue (word w) = (is_empty w ≡ false) × (all is_atom_char w ≡ true) × ((peek w == b'~') ≡ false)
  IsValue (text v) = all is_quotable v ≡ true
  IsValue (octets v mode) = length v < 2 ^ 64
  IsValue (group vs) = AreValues vs

  pub AreValues : Values → Type 0
  AreValues nil = Unit
  AreValues (cons v vs) = IsValue v × AreValues vs

-- The first character of a value is neither a space nor a closing parenthesis.
record Starts (cs : Bytes) : Type 0 where
  first : ℕ
  others : Bytes
  split : cs ≡ first ∷ others
  no_space : (first == b' ') ≡ false
  no_close : (first == b')') ≡ false

atom_start :
    (c : ℕ)
    → is_atom_char c ≡ true
    → ((c == b' ') ≡ false)
      × ((c == b')') ≡ false)
      × ((c == b'(') ≡ false)
      × ((c == b'"') ≡ false)
      × ((c == b'{') ≡ false)
unfolding is_atom_char is_atom_special
atom_start c h = ground (arith, h)

render-Starts : (v : Value) (rest : Bytes) → IsValue v → Starts (render v ++ rest)
unfolding render render_quoted render_literal
render-Starts (word []) rest h = cc
render-Starts (word (c ∷ w)) rest h =
    let (space, close, _, _, _) = atom_start c (ground (arith, h)) in
    record { first = c; others = w ++ rest; split = refl; no_space = space; no_close = close }
render-Starts (text v) rest h = record {
  first = b'"';
  others = _;
  split = refl;
  no_space = refl;
  no_close = refl;
}
render-Starts (octets v mode) rest h = record {
  first = b'{';
  others = _;
  split = refl;
  no_space = refl;
  no_close = refl;
}
render-Starts (group vs) rest h = record {
  first = b'(';
  others = _;
  split = refl;
  no_space = refl;
  no_close = refl;
}

-- One round of the loop on an item.
module _ {S : Type 0} (f : ℕ) (item : S → Bytes → Option S × Bytes) (s s' : S) (tail : Bytes) where
  loop_on :
      (c : ℕ) (cs : Bytes)
      → (c == b' ') ≡ false
      → (c == b')') ≡ false
      → item s (c ∷ cs) ≡ (some s', tail)
      → until_close (suc f) item s (c ∷ cs) ≡ until_close f item s' tail
  unfolding until_close
  loop_on c cs a b e = ground (arith, a, b, e)

  loop_step :
      (cs : Bytes)
      → Starts cs
      → item s cs ≡ (some s', tail)
      → until_close (suc f) item s cs ≡ until_close f item s' tail
  loop_step cs h e =
      subst (λ t. until_close (suc f) item s t ≡ until_close f item s' tail) (sym h.split)
        (loop_on h.first h.others h.no_space h.no_close
          (subst (λ t. item s t ≡ (some s', tail)) h.split e))

tail-Stops : (vs : Values) (rest : Bytes) → Stops is_atom_char (render_all vs ++ b')' ∷ rest)
unfolding render_all is_atom_char is_atom_special
tail-Stops nil rest = refl
tail-Stops (cons v vs) rest = refl

skip_word :
    (l c : ℕ) (w rest : Bytes)
    → all is_atom_char (c ∷ w) ≡ true
    → (c == b'~') ≡ false
    → Stops is_atom_char rest
    → skip_value_in (suc l) (c ∷ w ++ rest) ≡ (some tt, rest)
unfolding skip_value_in read_atom
skip_word l c w rest h t s =
    let (_, _, paren, quote, brace) = atom_start c (ground (arith, h)) in
    rw
      (
        paren,
        quote,
        brace,
        t,
        take_while-append is_atom_char (c ∷ w) rest h s,
        drop_while-append is_atom_char (c ∷ w) rest h s,
      )
      refl

skip_text :
    (l : ℕ) (v rest : Bytes)
    → all is_quotable v ≡ true
    → skip_value_in (suc l) (render_quoted v ++ rest) ≡ (some tt, rest)
unfolding skip_value_in render_quoted
skip_text l v rest h = ap has_value (read_quoted-render_quoted v rest h)

skip_octets :
    (l : ℕ) (v : Bytes) (mode : LiteralMode) (rest : Bytes)
    → length v < 2 ^ 64
    → skip_value_in (suc l) (render_literal v mode ++ rest) ≡ (some tt, rest)
unfolding skip_value_in render_literal
skip_octets l v mode rest h = ap has_value (read_literal-render_literal v rest mode h)

-- The list without the space that its first value has in front.
skip_group :
    (l : ℕ) (vs : Values) (rest : Bytes)
    → until_close
        (suc (suc (length (drop 1 (render_all vs) ++ b')' ∷ rest))))
        (λ s. skip_value_in l)
        tt
        (render_all vs ++ b')' ∷ rest)
      ≡ (some tt, rest)
    → skip_value_in (suc l) (render (group vs) ++ rest) ≡ (some tt, rest)
unfolding skip_value_in render until_close
skip_group l nil rest h = refl
skip_group l (cons v vs) rest h = rw (append_assoc (render v ++ render_all vs) (b')' ∷ []) rest) h

length-render_all :
    (vs : Values) (rest : Bytes)
    → length (render_all vs ++ b')' ∷ rest) ≤ suc (length (drop 1 (render_all vs) ++ b')' ∷ rest))
unfolding render_all
length-render_all nil rest = omega arith
length-render_all (cons v vs) rest = omega arith

close_list :
    (l f : ℕ) (rest : Bytes)
    → until_close (suc f) (λ s. skip_value_in l) tt (b')' ∷ rest) ≡ (some tt, rest)
unfolding until_close
close_list l f rest = refl

open_space :
    (l f : ℕ) (cs : Bytes)
    → until_close (suc f) (λ s. skip_value_in l) tt (b' ' ∷ cs)
      ≡ until_close (suc f) (λ s. skip_value_in l) tt cs
unfolding until_close
open_space l f cs = refl

mutual
  unfolding render render_all

  skip-render :
      (l : ℕ) (v : Value) (rest : Bytes)
      → IsValue v
      → Stops is_atom_char rest
      → length (render v ++ rest) < l
      → skip_value_in l (render v ++ rest) ≡ (some tt, rest)
  skip-render zero v rest h s b = elim b [ ]
  skip-render (suc l) (word []) rest h s b = cc
  skip-render (suc l) (word (c ∷ w)) rest (_, h, t) s b = skip_word l c w rest h t s
  skip-render (suc l) (text v) rest h s b = skip_text l v rest h
  skip-render (suc l) (octets v mode) rest h s b = skip_octets l v mode rest h
  skip-render (suc l) (group vs) rest h s b =
      let inner = drop 1 (render_all vs) in
      let size = ap length (append_assoc inner (b')' ∷ []) rest) in
      skip_group l vs rest (
        loop-render l (suc (suc (length (inner ++ b')' ∷ rest)))) vs rest h
          (omega (arith, length-render_all vs rest))
          (omega (arith, length-render_all vs rest, size)))

  loop-render :
      (l f : ℕ) (vs : Values) (rest : Bytes)
      → AreValues vs
      → length (render_all vs ++ b')' ∷ rest) < f
      → length (render_all vs ++ b')' ∷ rest) ≤ l
      → until_close f (λ s. skip_value_in l) tt (render_all vs ++ b')' ∷ rest) ≡ (some tt, rest)
  loop-render l zero vs rest h bf bl = elim bf [ ]
  loop-render l (suc f) nil rest h bf bl = close_list l f rest
  loop-render l (suc f) (cons v vs) rest (hv, hs) bf bl =
      let tail = render_all vs ++ b')' ∷ rest in
      let whole : (render v ++ render_all vs) ++ b')' ∷ rest ≡ render v ++ tail =
        append_assoc (render v) (render_all vs) (b')' ∷ rest) in
      let size = ap length whole in
      let sum = length-append (render v) tail in
      open_space l f ((render v ++ render_all vs) ++ b')' ∷ rest)
      ∙ ap (until_close (suc f) (λ s. skip_value_in l) tt) whole
      ∙ loop_step f (λ s. skip_value_in l) tt tt tail (render v ++ tail) (render-Starts v tail hv)
          (skip-render l v tail hv (tail-Stops vs rest) (omega (arith, bl, size)))
      ∙ loop-render l f vs rest hs (omega (arith, bf, size, sum)) (omega (arith, bl, size, sum))

-- `skip_value` takes exactly one value, however deep its lists are nested, in front of anything that ends an
-- atom: a word of atom characters that does not start with `~`, a quoted string without CR and LF, a literal of
-- fewer than 2^64 octets, or a list of values.
pub skip_value-render :
    (v : Value) (rest : Bytes)
    → IsValue v
    → Stops is_atom_char rest
    → skip_value (render v ++ rest) ≡ (some tt, rest)
unfolding skip_value
skip_value-render v rest h s =
    skip-render (suc (length (render v ++ rest))) v rest h s (omega arith)
