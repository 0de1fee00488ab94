-- ===== src/Parser/Code.antt =====
-- `parse_resp_code` of response_parser.h: the inside of a `[resp-text-code]` bracket.
pub mod Loops
use bkmail.Prelude.{
  ℕ, suc, zero, ◌%◌, ◌^◌, ◌||◌, List, [], ◌∷◌, ◌++◌, Option, none, some, if◌then◌else◌, Bytes,
  codes, is_empty, length,
}
use bkmail.Astring.{ascii_iequals}
use bkmail.Cursor.{try_consume, skip_spaces, read_until_any, read_atom, read_number, read_astring}
use bkmail.Flags.{FlagSet, empty_flags, map_flag}
use bkmail.Response.{
  ResponseCode, alert_code, parse_code, read_only_code, read_write_code, trycreate_code,
  badcharset_code, capability_code, permanentflags_code, uidnext_code, uidvalidity_code,
  unseen_code, unknown_code,
}

unfoldable pub make_unknown : Bytes → Bytes → ResponseCode
make_unknown atom arguments =
    unknown_code (record { atom = atom; arguments = (try_consume b' ' arguments).1 })

-- `*n & 0xffffffff`.
abbrev low_word : ℕ → ℕ
low_word n = n % 2 ^ 32

abbrev numeric_code : Bytes → ℕ → ResponseCode
numeric_code atom v =
    if ascii_iequals atom (codes "UIDNEXT")
    then uidnext_code v
    else if ascii_iequals atom (codes "UIDVALIDITY")
    then uidvalidity_code v
    else unseen_code v

number_code : Bytes → Option ℕ × Bytes → ResponseCode
unfolding make_unknown ascii_iequals
number_code atom (some n, rest) = numeric_code atom (low_word n)
number_code atom (none, rest) = make_unknown atom rest

number_argument : Bytes → Bytes → ResponseCode
unfolding number_code read_number
number_argument atom rest =
    let (spaced, digits) = try_consume b' ' rest in
    if spaced then number_code atom (read_number digits) else make_unknown atom digits

-- Every name takes at least one byte, so the length of the text bounds the rounds.
unfoldable pub capabilities : ℕ → Bytes → List Bytes
unfolding read_atom
capabilities zero cs = []
capabilities (suc fuel) cs =
    let (spaced, rest) = try_consume b' ' cs in
    let (cap, behind) = read_atom rest in
    let more = cap ∷ capabilities fuel behind in
    if spaced then if is_empty cap then [] else more else []

-- The rest of a loop that ended in `make_unknown`, or the collected list.
abbrev charset_code : Bytes → List Bytes → Option Bytes → ResponseCode
charset_code atom found none = badcharset_code found
charset_code atom found (some rest) = make_unknown atom rest

charsets_next :
    (Bytes → List Bytes → List Bytes × Option Bytes)
    → List Bytes
    → Option Bytes × Bytes
    → List Bytes × Option Bytes
charsets_next again found (none, rest) = (found, some rest)
charsets_next again found (some name, rest) = again rest (found ++ name ∷ [])

-- The charsets up to the closing parenthesis, and where the cursor stands if a name is malformed.
unfoldable pub charsets : ℕ → Bytes → List Bytes → List Bytes × Option Bytes
unfolding charsets_next read_astring
charsets zero cs found = (found, some cs)
charsets (suc fuel) cs found =
    let (closed, rest) = try_consume b')' (skip_spaces cs) in
    let next = charsets_next (charsets fuel) found (read_astring rest) in
    if closed then (found, none) else next

charset_list : Bytes → Bytes → ResponseCode
unfolding charsets make_unknown
charset_list atom rest =
    let (spaced, listed) = try_consume b' ' rest in
    let (opened, inner) = try_consume b'(' listed in
    let (found, failed) = charsets (suc (length inner)) inner [] in
    if spaced
    then if opened then charset_code atom found failed else make_unknown atom inner
    else badcharset_code []

-- Likewise for flags.
unfoldable pub flag_loop : ℕ → Bytes → FlagSet → FlagSet × Option Bytes
unfolding read_until_any map_flag
flag_loop zero cs flags = (flags, some cs)
flag_loop (suc fuel) cs flags =
    let (closed, rest) = try_consume b')' (skip_spaces cs) in
    let (flag, behind) = read_until_any (codes " )") rest in
    let next = flag_loop fuel behind (map_flag flag flags) in
    if closed then (flags, none) else if is_empty flag then (flags, some behind) else next

permanent_code : Bytes → FlagSet × Option Bytes → ResponseCode
unfolding make_unknown
permanent_code atom (flags, none) = permanentflags_code flags
permanent_code atom (flags, some rest) = make_unknown atom rest

permanent_flags : Bytes → Bytes → ResponseCode
unfolding flag_loop make_unknown permanent_code
permanent_flags atom rest =
    let (spaced, listed) = try_consume b' ' rest in
    let (opened, inner) = try_consume b'(' listed in
    if spaced
    then if opened
      then permanent_code atom (flag_loop (suc (length inner)) inner empty_flags)
      else make_unknown atom inner
    else make_unknown atom listed

code_of : Bytes → Bytes → ResponseCode
unfolding ascii_iequals number_argument capabilities charset_list permanent_flags make_unknown
code_of atom rest =
    if ascii_iequals atom (codes "ALERT")
    then alert_code
    else if ascii_iequals atom (codes "PARSE")
    then parse_code
    else if ascii_iequals atom (codes "READ-ONLY")
    then read_only_code
    else if ascii_iequals atom (codes "READ-WRITE")
    then read_write_code
    else if ascii_iequals atom (codes "TRYCREATE")
    then trycreate_code
    else if ascii_iequals atom (codes "UIDNEXT")
        || ascii_iequals atom (codes "UIDVALIDITY")
        || ascii_iequals atom (codes "UNSEEN")
    then number_argument atom rest
    else if ascii_iequals atom (codes "CAPABILITY")
    then capability_code (capabilities (suc (length rest)) rest)
    else if ascii_iequals atom (codes "BADCHARSET")
    then charset_list atom rest
    else if ascii_iequals atom (codes "PERMANENTFLAGS")
    then permanent_flags atom rest
    else make_unknown atom rest

unfoldable pub parse_resp_code : Bytes → ResponseCode
unfolding code_of read_atom
parse_resp_code inner = let (atom, rest) = read_atom inner in code_of atom rest
