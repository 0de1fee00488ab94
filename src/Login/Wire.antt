-- ===== src/Login/Wire.antt =====
-- What a server reads from the segments of LOGIN.
use bkmail.Prelude.{
  ◌+◌, ◌<◌, ◌^◌, ◌≡◌, refl, ap, sym, ◌∙◌, Bool, true, false, not, List, [], ◌∷◌, ◌++◌, append_assoc,
  append-nil, some, ◌==◌, if◌then◌else◌, inl, inr, Bool-cases, Bytes, codes, length, all, Stops,
  length-append, lt→ltb, ◌≤◌, arith,
}
use bkmail.Astring.{
  is_atom_char, is_atom_special, render_literal, LiteralMode, synchronizing, non_synchronizing,
}
use bkmail.Astring.Decimal.{to_chars}
use bkmail.Cursor.{peek, read_string, read_astring}
use bkmail.Cursor.RoundTrip.{is_quotable}
use bkmail.Cursor.Literal.{read_literal-render_literal}
use bkmail.Select.{is_safe, atom_safe, escaped_arg}
use bkmail.Select
use bkmail.Select.Wire.{read_astring-append_arg}
use bkmail.Line.Arguments.{read_arguments}
use bkmail.Login.{
  Writer, write, close_segment, has_break, append_quoted, plus, append_arg, new_writer, written,
  login_command, raise_wall,
}

-- The text of an argument, whatever segments it lies in.
abbrev pub login_text : Bool → Bytes → Bytes
login_text literal_plus v =
    if atom_safe v
    then v
    else if not (has_break v)
    then append_quoted v
    else b'{' ∷ (to_chars (length v) ++ (plus literal_plus ++ (codes "}\r\n" ++ v)))

break_unsafe : (v : Bytes) → has_break v ≡ true → all is_safe v ≡ false
break_unsafe [] h = cc
break_unsafe (c ∷ v) h = ground (arith, break_unsafe v)

break_not_atom : (v : Bytes) → has_break v ≡ true → atom_safe v ≡ false
unfolding atom_safe
break_not_atom v h = ground (arith, break_unsafe v h)

no_break_quotable : (v : Bytes) → has_break v ≡ false → all is_quotable v ≡ true
no_break_quotable [] h = refl
no_break_quotable (c ∷ v) h = ground (arith, no_break_quotable v)

abbrev mode_of : Bool → LiteralMode
mode_of literal_plus = if literal_plus then non_synchronizing else synchronizing

literal_text :
    (literal_plus : Bool) (v rest : Bytes)
    → (b'{' ∷ (to_chars (length v) ++ (plus literal_plus ++ (codes "}\r\n" ++ v)))) ++ rest
      ≡ render_literal v (mode_of literal_plus) ++ rest
unfolding render_literal
literal_text true v rest = refl
literal_text false v rest = refl

read_literal_text :
    (v rest : Bytes) (mode : LiteralMode)
    → length v < 2 ^ 64
    → read_astring (render_literal v mode ++ rest) ≡ (some v, rest)
unfolding read_astring read_string render_literal
read_literal_text v rest mode h = read_literal-render_literal v rest mode h

plain_text :
    (literal_plus : Bool) (v : Bytes)
    → has_break v ≡ false
    → login_text literal_plus v ≡ Select.append_arg v
unfolding Select.append_arg
plain_text literal_plus v h = rw h refl

-- Every user name and password is read back, as an atom, in quotes or as a literal.
read_login_text :
    (literal_plus : Bool) (v rest : Bytes)
    → (peek v == b'~') ≡ false
    → length v < 2 ^ 64
    → Stops is_atom_char rest
    → read_astring (login_text literal_plus v ++ rest) ≡ (some v, rest)
read_login_text literal_plus v rest t l s = elim (Bool-cases (has_break v)) [
  | inl broken ↦
      rw (break_not_atom v broken, broken)
        (ap read_astring (literal_text literal_plus v rest)
          ∙ read_literal_text v rest (mode_of literal_plus) l)
  | inr plain ↦
      ap (λ (x : Bytes). read_astring (x ++ rest)) (plain_text literal_plus v plain)
      ∙ read_astring-append_arg v rest (no_break_quotable v plain) t s
]

abbrev pub concat : List Bytes → Bytes
concat [] = []
concat (s ∷ ss) = s ++ concat ss

concat-snoc : (ss : List Bytes) (s : Bytes) → concat (ss ++ s ∷ []) ≡ concat ss ++ s
concat-snoc [] s = append-nil s
concat-snoc (x ∷ ss) s = rw (concat-snoc ss s) (simp append_assoc)

abbrev whole : Writer → Bytes
whole w = concat w.closed ++ w.current

whole-close :
    (w : Writer)
    → length w.closed < 4
    → (whole (close_segment w) ≡ whole w) × (length (close_segment w).closed ≤ length w.closed + 1)
unfolding close_segment
whole-close w h = rw (lt→ltb (length w.closed) 4 h) (
  ap (λ (t : Bytes). t ++ []) (concat-snoc w.closed w.current) ∙ append-nil (whole w),
  omega (arith, length-append {0} w.closed (w.current ∷ [])),
)

close_empty : (w : Writer) → (close_segment w).current ≡ []
unfolding close_segment
close_empty w = refl

write_lem : (text : Bytes) (w : Writer) → whole (write text w) ≡ whole w ++ text
write_lem text w = simp append_assoc

literal_written :
    (literal_plus : Bool) (v : Bytes) (w : Writer)
    → length w.closed < 4
    → let head : Bytes = b'{' ∷ (to_chars (length v) ++ (plus literal_plus ++ codes "}\r\n")) in
      let w' = write v (raise_wall (close_segment (write head w))) in
      (whole w'
        ≡ whole w ++ b'{' ∷ (to_chars (length v) ++ (plus literal_plus ++ (codes "}\r\n" ++ v))))
      × (length w'.closed ≤ length w.closed + 1)
literal_written literal_plus v w h =
    let head : Bytes = b'{' ∷ (to_chars (length v) ++ (plus literal_plus ++ codes "}\r\n")) in
    let (kept, few) = whole-close (write head w) h in
    (
      write_lem v (close_segment (write head w))
          ∙ ap (λ (t : Bytes). t ++ v) (kept ∙ write_lem head w)
          ∙ simp append_assoc,
      few,
    )

append_arg_lem :
    (literal_plus : Bool) (v : Bytes) (w : Writer)
    → length w.closed < 4
    → (whole (append_arg literal_plus v w) ≡ whole w ++ login_text literal_plus v)
      × (length (append_arg literal_plus v w).closed ≤ length w.closed + 1)
unfolding append_arg
append_arg_lem literal_plus v w h = elim (Bool-cases (atom_safe v)) [
  | inl safe ↦ rw safe (write_lem v w, omega arith)
  | inr unsafe ↦ elim (Bool-cases (has_break v)) [
    | inl broken ↦ rw (unsafe, broken) (literal_written literal_plus v w h)
    | inr plain ↦ rw (unsafe, plain) (write_lem (append_quoted v) w, omega arith)
  ]
]

abbrev pub operands : Bool → Bytes → Bytes → Bytes
operands literal_plus user_name password =
    b' '
    ∷ (login_text literal_plus user_name
        ++ b' ' ∷ (login_text literal_plus password ++ codes "\r\n"))

pub joined :
    (literal_plus : Bool) (user_name password tag : Bytes)
    → concat (written literal_plus user_name password tag).closed
      ≡ tag ++ (codes " LOGIN" ++ operands literal_plus user_name password)
joined literal_plus user_name password tag =
    let w0 = new_writer tag in
    let (e1, l1) = append_arg_lem literal_plus user_name w0 (omega arith) in
    let w1 = write (b' ' ∷ []) (append_arg literal_plus user_name w0) in
    let (e2, l2) = append_arg_lem literal_plus password w1 (omega (arith, l1)) in
    let w2 = write (codes "\r\n") (append_arg literal_plus password w1) in
    let (e3, l3) = whole-close w2 (omega (arith, l1, l2)) in
    sym (append-nil (concat (close_segment w2).closed))
    ∙ ap (λ (t : Bytes). concat (close_segment w2).closed ++ t) (sym (close_empty w2))
    ∙ e3
    ∙ write_lem (codes "\r\n") (append_arg literal_plus password w1)
    ∙ ap (λ (t : Bytes). t ++ codes "\r\n")
        (e2
          ∙ ap (λ (t : Bytes). t ++ login_text literal_plus password)
              (write_lem (b' ' ∷ []) (append_arg literal_plus user_name w0)
                ∙ ap (λ (t : Bytes). t ++ b' ' ∷ []) e1))
    ∙ simp append_assoc

read_operands :
    (literal_plus : Bool) (user_name password : Bytes)
    → (peek user_name == b'~') ≡ false
    → (peek password == b'~') ≡ false
    → length user_name < 2 ^ 64
    → length password < 2 ^ 64
    → read_arguments 3 (operands literal_plus user_name password) ≡ some (user_name ∷ password ∷ [])
unfolding read_arguments is_atom_char is_atom_special
read_operands literal_plus user_name password t u l k =
    rw
      (
        read_login_text literal_plus user_name
            (b' ' ∷ (login_text literal_plus password ++ codes "\r\n")) t l refl,
        read_login_text literal_plus password (codes "\r\n") u k refl,
      )
      refl

-- The segments of LOGIN together are the tag, the word, and two arguments that a server reads back as the
-- user name and the password, whatever bytes they hold, if they do not start with `~` and their lengths
-- fit into 64 bits.
pub read_arguments-login_command :
    (literal_plus : Bool) (user_name password tag : Bytes)
    → (peek user_name == b'~') ≡ false
    → (peek password == b'~') ≡ false
    → length user_name < 2 ^ 64
    → length password < 2 ^ 64
    → (rest : Bytes) × (concat (login_command literal_plus user_name password tag).segments
        ≡ tag ++ (codes " LOGIN" ++ rest))
      × (read_arguments 3 rest ≡ some (user_name ∷ password ∷ []))
unfolding login_command
read_arguments-login_command literal_plus user_name password tag t u l k = (
  operands literal_plus user_name password,
  joined literal_plus user_name password tag,
  read_operands literal_plus user_name password t u l k,
)
