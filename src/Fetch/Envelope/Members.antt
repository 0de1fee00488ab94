-- ===== src/Fetch/Envelope/Members.antt =====
-- The members of an envelope, nstrings and address lists, as fetch_parse.h reads them.
use bkmail.Prelude.{
  ℕ, zero, suc, ◌<◌, ◌≡◌, refl, sym, ap, ◌∙◌, true, false, List, [], ◌∷◌, ◌++◌, append_assoc,
  append-nil, some, Bytes, codes, length, length-append, all, All, Stops, arith,
}
use bkmail.Astring.{is_atom_char, is_atom_special, render_quoted, quoted_body, ascii_iequals}
use bkmail.Cursor.{skip_spaces, read_quoted, read_string, read_nstring, at_nil, present}
use bkmail.Cursor.RoundTrip.{is_quotable, read_quoted-render_quoted}
use bkmail.Cursor.{try_consume_ci}
use bkmail.Cursor.Monad.{continue_with}
use bkmail.Fetch.Loop.{until_close}
use bkmail.Fetch.Value.{read_nstr, assigned, consume_nil}
use bkmail.Fetch.Envelope.{Address, address_item, address_tuples, parse_address_list}

-- An empty string is NIL.
unfoldable pub render_nstr : Bytes → Bytes
unfolding render_quoted
render_nstr [] = codes "NIL"
render_nstr (c ∷ v) = render_quoted (c ∷ v)

unfoldable pub render_address : Address → Bytes → Bytes
unfolding render_nstr
render_address a rest =
    b'('
    ∷ (render_nstr a.display_name
        ++ b' '
          ∷ (render_nstr a.adl
              ++ b' '
                ∷ (render_nstr a.mailbox_name ++ b' ' ∷ (render_nstr a.host_name ++ b')' ∷ rest))))

unfoldable pub render_tuples : List Address → Bytes → Bytes
unfolding render_address
render_tuples [] rest = b')' ∷ rest
render_tuples (a ∷ found) rest = render_address a (render_tuples found rest)

-- An empty list is NIL.
unfoldable pub render_addresses : List Address → Bytes → Bytes
unfolding render_tuples
render_addresses [] rest = codes "NIL" ++ rest
render_addresses (a ∷ found) rest = b'(' ∷ render_tuples (a ∷ found) rest

read_nil :
    (rest : Bytes) → Stops is_atom_char rest → read_nstr [] (codes "NIL" ++ rest) ≡ (some [], rest)
unfolding read_nstr read_nstring at_nil ascii_iequals
read_nil [] s = refl
read_nil (c ∷ rest) s = ground (arith, s)

at_nil_quote : (cs : Bytes) → at_nil (b'"' ∷ cs) ≡ false
unfolding at_nil ascii_iequals
at_nil_quote cs = ground arith

read_nstring_quote : (cs : Bytes) → read_nstring (b'"' ∷ cs) ≡ present (read_quoted (b'"' ∷ cs))
unfolding read_nstring read_string
read_nstring_quote cs = rw (at_nil_quote cs) refl

read_text :
    (c : ℕ) (v rest : Bytes)
    → all is_quotable (c ∷ v) ≡ true
    → read_nstr [] (render_quoted (c ∷ v) ++ rest) ≡ (some (c ∷ v), rest)
unfolding read_nstr render_quoted
read_text c v rest h = ap (assigned []) (
    read_nstring_quote (quoted_body (c ∷ v) ++ rest)
    ∙ ap present (read_quoted-render_quoted (c ∷ v) rest h))

pub skip_spaces-render_nstr :
    (v rest : Bytes) → skip_spaces (render_nstr v ++ rest) ≡ render_nstr v ++ rest
unfolding render_nstr render_quoted
skip_spaces-render_nstr [] rest = refl
skip_spaces-render_nstr (c ∷ v) rest = refl

pub skip_spaces-render_addresses :
    (found : List Address) (rest : Bytes)
    → skip_spaces (render_addresses found rest) ≡ render_addresses found rest
unfolding render_addresses
skip_spaces-render_addresses [] rest = refl
skip_spaces-render_addresses (a ∷ found) rest = refl

pub read_nstr-render_nstr :
    (v rest : Bytes)
    → all is_quotable v ≡ true
    → Stops is_atom_char rest
    → read_nstr [] (render_nstr v ++ rest) ≡ (some v, rest)
unfolding render_nstr
read_nstr-render_nstr [] rest h s = read_nil rest s
read_nstr-render_nstr (c ∷ v) rest h s = read_text c v rest h

-- No member holds CR or LF.
abbrev pub IsAddress : Address → Type 0
IsAddress a =
    (all is_quotable a.display_name ≡ true)
    × (all is_quotable a.adl ≡ true)
    × (all is_quotable a.mailbox_name ≡ true)
    × (all is_quotable a.host_name ≡ true)

pub space-Stops : (rest : Bytes) → Stops is_atom_char (b' ' ∷ rest)
unfolding is_atom_char is_atom_special
space-Stops rest = refl

pub close-Stops : (rest : Bytes) → Stops is_atom_char (b')' ∷ rest)
unfolding is_atom_char is_atom_special
close-Stops rest = refl

address_item-render_address :
    (found : List Address) (a : Address) (rest : Bytes)
    → IsAddress a
    → address_item found (render_address a rest) ≡ (some (found ++ a ∷ []), rest)
unfolding address_item render_address
address_item-render_address found a rest (d, l, m, h) =
    let close = b')' ∷ rest in
    let host = render_nstr a.host_name ++ close in
    let mailbox = render_nstr a.mailbox_name ++ b' ' ∷ host in
    let route = render_nstr a.adl ++ b' ' ∷ mailbox in
    rw
      (
        read_nstr-render_nstr a.display_name (b' ' ∷ route) d (space-Stops route),
        skip_spaces-render_nstr a.adl (b' ' ∷ mailbox),
        read_nstr-render_nstr a.adl (b' ' ∷ mailbox) l (space-Stops mailbox),
        skip_spaces-render_nstr a.mailbox_name (b' ' ∷ host),
        read_nstr-render_nstr a.mailbox_name (b' ' ∷ host) m (space-Stops host),
        skip_spaces-render_nstr a.host_name close,
        read_nstr-render_nstr a.host_name close h (close-Stops rest),
      )
      refl

tuples_shorter :
    (f : ℕ) (a : Address) (cs : Bytes) → length (render_address a cs) < suc f → length cs < f
unfolding render_address render_nstr
tuples_shorter f a cs h = omega (
  arith,
  h,
  length-append (render_nstr a.display_name) (
      b' '
      ∷ (render_nstr a.adl
          ++ b' ' ∷ (render_nstr a.mailbox_name ++ b' ' ∷ (render_nstr a.host_name ++ b')' ∷ cs)))),
  length-append (render_nstr a.adl)
      (b' ' ∷ (render_nstr a.mailbox_name ++ b' ' ∷ (render_nstr a.host_name ++ b')' ∷ cs))),
  length-append (render_nstr a.mailbox_name) (b' ' ∷ (render_nstr a.host_name ++ b')' ∷ cs)),
  length-append (render_nstr a.host_name) (b')' ∷ cs),
)

tuples_end :
    (f : ℕ) (found : List Address) (rest : Bytes)
    → until_close (suc f) address_item found (b')' ∷ rest) ≡ (some found, rest)
unfolding until_close
tuples_end f found rest = refl

tuple_round :
    (f : ℕ) (found : List Address) (a : Address) (rest : Bytes)
    → IsAddress a
    → until_close (suc f) address_item found (render_address a rest)
      ≡ until_close f address_item (found ++ a ∷ []) rest
unfolding until_close render_address
tuple_round f found a rest h =
    ap (λ r. continue_with r (until_close f address_item))
      (address_item-render_address found a rest h)

tuples_loop :
    (f : ℕ) (found more : List Address) (rest : Bytes)
    → All IsAddress more
    → length (render_tuples more rest) < f
    → until_close f address_item found (render_tuples more rest) ≡ (some (found ++ more), rest)
unfolding render_tuples
tuples_loop zero found more rest h b = elim b [ ]
tuples_loop (suc f) found [] rest h b =
    tuples_end f found rest ∙ ap (λ t. (some t, rest)) (sym (append-nil found))
tuples_loop (suc f) found (a ∷ more) rest (ha, hs) b =
    tuple_round f found a (render_tuples more rest) ha
    ∙ tuples_loop f (found ++ a ∷ []) more rest hs (tuples_shorter f a (render_tuples more rest) b)
    ∙ ap (λ t. (some t, rest)) (append_assoc found (a ∷ []) more)

list_nil :
    (rest : Bytes)
    → Stops is_atom_char rest
    → parse_address_list [] (codes "NIL" ++ rest) ≡ (some [], rest)
unfolding parse_address_list consume_nil try_consume_ci ascii_iequals
list_nil [] s = refl
list_nil (c ∷ rest) s = ground (arith, s)

consume_nil_paren : (cs : Bytes) → consume_nil (b'(' ∷ cs) ≡ (false, b'(' ∷ cs)
unfolding consume_nil ascii_iequals
consume_nil_paren cs = ground arith

list_tuples :
    (more : List Address) (rest : Bytes)
    → All IsAddress more
    → parse_address_list [] (b'(' ∷ render_tuples more rest) ≡ (some more, rest)
unfolding parse_address_list address_tuples
list_tuples more rest h =
    rw (consume_nil_paren (render_tuples more rest))
      (tuples_loop (suc (length (render_tuples more rest))) [] more rest h (omega arith))

pub parse_address_list-render_addresses :
    (found : List Address) (rest : Bytes)
    → All IsAddress found
    → Stops is_atom_char rest
    → parse_address_list [] (render_addresses found rest) ≡ (some found, rest)
unfolding parse_address_list render_addresses
parse_address_list-render_addresses [] rest h s = list_nil rest s
parse_address_list-render_addresses (a ∷ found) rest h s = list_tuples (a ∷ found) rest h
