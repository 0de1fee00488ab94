-- ===== src/Fetch/Value.antt =====
-- The values of fetch_parse.h: nstrings, the skipper, and flag lists.
pub mod Rendered
use bkmail.Prelude.{
  ℕ, zero, suc, ◌+◌, Bool, true, false, ◌&&◌, ◌||◌, not, List, [], ◌∷◌, Option, none, some, ◌==◌,
  leb, ltb, if◌then◌else◌, Bytes, codes, length, take, drop, is_empty,
}
use bkmail.Astring.{ascii_iequals, is_atom_char}
use bkmail.Cursor.{
  peek, try_consume, try_consume_ci, skip_spaces, read_until_any, read_atom, read_quoted,
  read_literal, read_nstring,
}
use bkmail.Cursor.Monad.{Reader, continue_with}
use bkmail.Flags.{FlagSet, map_flag}
use bkmail.Fetch.Loop.{until_close}

unfoldable pub consume_nil : Bytes → Bool × Bytes
unfolding ascii_iequals try_consume_ci
consume_nil rest =
    if ltb (length rest) 3 || not (ascii_iequals (take 3 rest) (codes "NIL"))
    then (false, rest)
    else if ltb 3 (length rest) && is_atom_char (peek (drop 3 rest))
    then (false, rest)
    else try_consume_ci (codes "NIL") rest

-- NIL leaves the member as it is.
abbrev pub assigned : Bytes → Option (Option Bytes) × Bytes → Option Bytes × Bytes
assigned member (none, rest) = (none, rest)
assigned member (some none, rest) = (some member, rest)
assigned member (some (some value), rest) = (some value, rest)

unfoldable pub read_nstr : Bytes → Reader Bytes
unfolding read_nstring
read_nstr member cs = assigned member (read_nstring cs)

-- `has_value` of what a reader returned.
abbrev pub has_value {ℓ} : {A : Type ℓ} → Option A × Bytes → Option (Unit {0}) × Bytes
has_value (none, rest) = (none, rest)
has_value (some a, rest) = (some tt, rest)

-- The recursion goes as deep as the parentheses do, so `levels` above the length is enough.
unfoldable pub skip_value_in : ℕ → Reader (Unit {0})
unfolding read_quoted read_literal read_atom until_close
skip_value_in zero cs = (none, cs)
skip_value_in (suc levels) cs =
    let inner = until_close (suc (length cs)) (λ s. skip_value_in levels) tt (drop 1 cs) in
    if peek cs == b'('
    then inner
    else if peek cs == b'"'
    then has_value (read_quoted cs)
    else if peek cs == b'{' || peek cs == b'~'
    then has_value (read_literal cs)
    else if is_empty cs
    then (none, cs)
    else let (word, rest) = read_atom cs in (if is_empty word then none else some tt, rest)

unfoldable pub skip_value : Reader (Unit {0})
unfolding skip_value_in
skip_value cs = skip_value_in (suc (length cs)) cs

-- One flag; a keyword that is not a system flag is dropped.
unfoldable pub flag_item : FlagSet → Reader FlagSet
unfolding read_until_any map_flag
flag_item flags cs =
    let (name, rest) = read_until_any (codes " ()") cs in
    (if is_empty name then none else some (map_flag name flags), rest)

unfoldable pub parse_flag_list : FlagSet → Reader FlagSet
unfolding flag_item until_close
parse_flag_list flags cs =
    let (opened, rest) = try_consume b'(' cs in
    let inner = until_close (suc (length rest)) flag_item flags rest in
    if opened then inner else (none, rest)
