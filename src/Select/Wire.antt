-- ===== src/Select/Wire.antt =====
-- The command line of SELECT and EXAMINE.
use bkmail.Prelude.{
  ◌≡◌, refl, inl, inr, Bool, true, false, not, [], ◌∷◌, ◌++◌, append_assoc, some, ◌==◌,
  if◌then◌else◌, Bytes, codes, all, arith, Bool-cases, Stops,
}
use bkmail.Astring.{is_atom_char, is_atom_special, is_quoted_special, render_quoted, quoted_body}
use bkmail.Cursor.{peek, read_astring}
use bkmail.Cursor.RoundTrip.{is_quotable}
use bkmail.Cursor.Rendered.{read_quoted_case, read_atom_case}
use bkmail.Select.{is_arg_special, is_safe, atom_safe, escaped_arg, append_arg, render, new_select}

escaped_arg_lem : (v : Bytes) → escaped_arg v ≡ quoted_body v
unfolding escaped_arg quoted_body is_quoted_special
escaped_arg_lem [] = refl
escaped_arg_lem (c ∷ v) = ground (arith, escaped_arg_lem v)

safe_atom : (v : Bytes) → all is_safe v ≡ true → all is_atom_char v ≡ true
unfolding is_atom_char is_atom_special
safe_atom [] h = refl
safe_atom (c ∷ v) h = ground (arith, safe_atom v)

-- A mailbox name without CR and LF that does not start with `~` is read back from the command line as an
-- astring, bare or quoted, in front of anything that ends an atom.
pub read_astring-append_arg :
    (v rest : Bytes)
    → all is_quotable v ≡ true
    → (peek v == b'~') ≡ false
    → Stops is_atom_char rest
    → read_astring (append_arg v ++ rest) ≡ (some v, rest)
unfolding append_arg atom_safe render_quoted
read_astring-append_arg [] rest h t s = read_quoted_case [] rest h
read_astring-append_arg (c ∷ v) rest h t s = elim (Bool-cases (all is_safe (c ∷ v))) [
  | inl safe ↦ rw safe (read_atom_case c v rest (safe_atom (c ∷ v) safe) t s)
  | inr unsafe ↦ rw (unsafe, escaped_arg_lem (c ∷ v)) (read_quoted_case (c ∷ v) rest h)
]

escaped-append :
    (a b : Bytes)
    → all (λ c. not (is_arg_special c)) a ≡ true
    → escaped_arg (a ++ b) ≡ a ++ escaped_arg b
unfolding escaped_arg
escaped-append [] b h = refl
escaped-append (c ∷ a) b h = ground (arith, escaped-append a b)

not_safe : (a b : Bytes) → all is_safe (a ++ b'\r' ∷ b) ≡ false
not_safe [] b = refl
not_safe (c ∷ a) b = ground (arith, not_safe a b)

plain_end :
    (b : Bytes) → all (λ c. not (is_arg_special c)) b ≡ true → escaped_arg b ≡ b ++ b'"' ∷ []
unfolding escaped_arg
plain_end [] h = refl
plain_end (c ∷ b) h = ground (arith, plain_end b)

unsafe_arg : (a b : Bytes) → atom_safe (a ++ b'\r' ∷ b) ≡ false
unfolding atom_safe
unsafe_arg a b = ground (arith, not_safe a b)

abbrev pub no_arg_special : Bytes → Bool
no_arg_special v = all (λ c. not (is_arg_special c)) v

injected :
    (a b : Bytes)
    → no_arg_special a ≡ true
    → no_arg_special b ≡ true
    → append_arg (a ++ b'\r' ∷ b'\n' ∷ b) ≡ b'"' ∷ (a ++ b'\r' ∷ b'\n' ∷ (b ++ b'"' ∷ []))
unfolding append_arg escaped_arg
injected a b h k =
    rw (unsafe_arg a (b'\n' ∷ b), escaped-append a (b'\r' ∷ b'\n' ∷ b) h, plain_end b k) refl

abbrev pub keyword : Bool → Bytes
keyword examine = if examine then codes " EXAMINE " else codes " SELECT "

-- A mailbox name of two parts with CR and LF between them, neither with a quote or a backslash, is sent as it
-- is between quotes: what follows the CR and LF, with the closing quote, is a line of its own for the server.
pub render_line_end :
    (examine : Bool) (tag a b : Bytes)
    → no_arg_special a ≡ true
    → no_arg_special b ≡ true
    → (render tag (new_select examine (a ++ b'\r' ∷ b'\n' ∷ b))).wire
      ≡ (tag ++ (keyword examine ++ b'"' ∷ a)) ++ b'\r' ∷ b'\n' ∷ (b ++ b'"' ∷ codes "\r\n")
unfolding render
render_line_end examine tag a b h k = rw (injected a b h k) (simp append_assoc)
