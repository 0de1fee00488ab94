-- ===== src/Cursor/Rendered.antt =====
-- `read_astring` of parse_cursor.h against `render_astring` of astring.h.
use bkmail.Prelude.{
  ℕ, ◌≡◌, refl, ap, ◌∙◌, ◌⊎◌, true, false, [], ◌∷◌, ◌++◌, some, Bytes, all, Stops, is_empty,
  take_while-append, drop_while-append, arith, ◌==◌, inl, inr,
}
use bkmail.Astring.{
  atom, quoted, classify_astring, render_astring, render_quoted, is_text_char, is_atom_char,
  is_astring_char, is_atom_special, is_quoted_special,
}
use bkmail.Cursor.{peek, read_atom, read_string, read_astring}
use bkmail.Cursor.RoundTrip.{is_quotable, read_quoted-render_quoted}

text_quotable : (v : Bytes) → all is_text_char v ≡ true → all is_quotable v ≡ true
unfolding is_text_char
text_quotable [] h = refl
text_quotable (c ∷ v) h = ground (arith, text_quotable v)

quoted_quotable : (v : Bytes) → classify_astring v ≡ quoted → all is_quotable v ≡ true
unfolding classify_astring
quoted_quotable [] h = refl
quoted_quotable (c ∷ v) h = ground (arith, h, text_quotable (c ∷ v))

render_quoted_case : (v : Bytes) → classify_astring v ≡ quoted → render_astring v ≡ render_quoted v
unfolding render_astring
render_quoted_case v h = rw (h, render_astring) refl

atom_astring : (v : Bytes) → all is_atom_char v ≡ true → all is_astring_char v ≡ true
unfolding is_astring_char
atom_astring [] h = refl
atom_astring (c ∷ v) h = ground (arith, atom_astring v)

classify_atom :
    (c : ℕ) (v : Bytes) → all is_atom_char (c ∷ v) ≡ true → classify_astring (c ∷ v) ≡ atom
unfolding classify_astring
classify_atom c v h = rw (atom_astring (c ∷ v) h) refl

render_atom_case :
    (c : ℕ) (v : Bytes) → all is_atom_char (c ∷ v) ≡ true → render_astring (c ∷ v) ≡ c ∷ v
unfolding render_astring
render_atom_case c v h = rw (classify_atom c v h, render_astring) refl

atom_start : (c : ℕ) → is_atom_char c ≡ true → ((c == b'"') ≡ false) × ((c == b'{') ≡ false)
unfolding is_atom_char is_atom_special is_quoted_special
atom_start c h = ground (arith, h)

pub read_quoted_case :
    (v rest : Bytes)
    → all is_quotable v ≡ true
    → read_astring (render_quoted v ++ rest) ≡ (some v, rest)
unfolding read_astring read_string render_quoted
read_quoted_case v rest h = read_quoted-render_quoted v rest h

pub read_atom_case :
    (c : ℕ) (v rest : Bytes)
    → all is_atom_char (c ∷ v) ≡ true
    → (c == b'~') ≡ false
    → Stops is_atom_char rest
    → read_astring (c ∷ v ++ rest) ≡ (some (c ∷ v), rest)
unfolding read_astring read_atom
read_atom_case c v rest h t s =
    let (q, b) = atom_start c (ground (arith, h)) in
    rw
      (
        q,
        b,
        t,
        take_while-append is_atom_char (c ∷ v) rest h s,
        drop_while-append is_atom_char (c ∷ v) rest h s,
      )
      refl

-- `read_astring` takes back what `render_astring` appends, bare or quoted, in front of anything that
-- ends an atom: every value that is rendered in quotes, and every value of atom characters that does
-- not start with `~`.
pub read_astring-render_astring :
    (v rest : Bytes)
    → Stops is_atom_char rest
    → (classify_astring v ≡ quoted)
      ⊎ ((is_empty v ≡ false) × (all is_atom_char v ≡ true) × ((peek v == b'~') ≡ false))
    → read_astring (render_astring v ++ rest) ≡ (some v, rest)
read_astring-render_astring v rest s (inl q) =
    ap (λ t. read_astring (t ++ rest)) (render_quoted_case v q)
    ∙ read_quoted_case v rest (quoted_quotable v q)
read_astring-render_astring [] rest s (inr (e, h, t)) = cc
read_astring-render_astring (c ∷ v) rest s (inr (e, h, t)) =
    ap (λ r. read_astring (r ++ rest)) (render_atom_case c v h) ∙ read_atom_case c v rest h t s
