-- ===== src/Line/Arguments.antt =====
-- How a server reads the arguments of a command line: each an astring behind a space, then CRLF.
use bkmail.Prelude.{
  ℕ, zero, suc, ◌<◌, ◌≡◌, refl, true, false, List, [], ◌∷◌, ◌++◌, Option, none, some, ◌==◌,
  if◌then◌else◌, Bytes, codes, length, length-append, all, is_empty, arith, All,
}
use bkmail.Astring.{is_atom_char, is_atom_special}
use bkmail.Cursor.{peek, read_astring}
use bkmail.Cursor.RoundTrip.{is_quotable}
use bkmail.Select.{append_arg}
use bkmail.Select.Wire.{read_astring-append_arg}

abbrev prepend : Bytes → Option (List Bytes) → Option (List Bytes)
prepend a none = none
prepend a (some args) = some (a ∷ args)

abbrev collect : (Bytes → Option (List Bytes)) → Option Bytes × Bytes → Option (List Bytes)
collect again (none, rest) = none
collect again (some a, rest) = prepend a (again rest)

abbrev line_end : Bytes → Option (List Bytes)
line_end [] = none
line_end (c ∷ cs) = if c == b'\n' then (if is_empty cs then some [] else none) else none

unfoldable pub read_arguments : ℕ → Bytes → Option (List Bytes)
read_arguments zero text = none
read_arguments (suc fuel) [] = none
read_arguments (suc fuel) (c ∷ cs) =
    let more = collect (read_arguments fuel) (read_astring cs) in
    if c == b' ' then more else if c == b'\r' then line_end cs else none

-- The arguments as `append_arg` writes them, with the end of the line.
abbrev pub arguments : List Bytes → Bytes
arguments [] = codes "\r\n"
arguments (a ∷ args) = b' ' ∷ (append_arg a ++ arguments args)

-- Without CR and LF, and not starting with `~`.
abbrev pub IsReadable : Bytes → Type 0
IsReadable a = (all is_quotable a ≡ true) × ((peek a == b'~') ≡ false)

read_first :
    (a : Bytes) (args : List Bytes)
    → IsReadable a
    → read_astring (append_arg a ++ arguments args) ≡ (some a, arguments args)
unfolding is_atom_char is_atom_special
read_first a [] (q, t) = read_astring-append_arg a (codes "\r\n") q t refl
read_first a (b ∷ args) (q, t) =
    read_astring-append_arg a (b' ' ∷ (append_arg b ++ arguments args)) q t refl

pub read_arguments-arguments :
    (fuel : ℕ) (args : List Bytes)
    → length args < fuel
    → All IsReadable args
    → read_arguments fuel (arguments args) ≡ some args
unfolding read_arguments
read_arguments-arguments zero args h r = elim h [ ]
read_arguments-arguments (suc fuel) [] h r = refl
read_arguments-arguments (suc fuel) (a ∷ args) h (ra, r) =
    rw (read_first a args ra, read_arguments-arguments fuel args (omega arith) r) refl

pub length-arguments : (args : List Bytes) → length args < length (arguments args)
length-arguments [] = omega arith
length-arguments (a ∷ args) =
    omega (arith, length-append {0} (append_arg a) (arguments args), length-arguments args)
