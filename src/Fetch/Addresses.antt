-- ===== src/Fetch/Addresses.antt =====
-- `parse_rfc5322_addresses` of fetch_parse.h.
use bkmail.Prelude.{
  ℕ, zero, suc, ◌+◌, ◌-◌, Bool, false, ◌&&◌, ◌||◌, not, List, [], ◌∷◌, Option, none, some, ◌==◌,
  if◌then◌else◌, Bytes, length, take, drop, is_empty, drop_while, reverse,
}
use bkmail.Fetch.Envelope.{Address}

abbrev is_blank : ℕ → Bool
is_blank c = c == b' ' || c == b'\t' || c == b'\r' || c == b'\n'

unfoldable pub trim : Bytes → Bytes
trim v = reverse (drop_while is_blank (reverse (drop_while is_blank v)))

abbrev in_front : ℕ → Bytes × Bytes → Bytes × Bytes
in_front c (item, rest) = (c ∷ item, rest)

abbrev angles_after : ℕ → Bool → ℕ → ℕ
angles_after c in_quote angles =
    if in_quote
    then angles
    else if c == b'<'
    then angles + 1
    else if c == b'>'
    then angles - 1
    else angles

-- The text up to the next comma outside quotes and angle brackets, and the rest from that comma on.
unfoldable pub split_item : Bool → ℕ → Bytes → Bytes × Bytes
split_item in_quote angles [] = ([], [])
split_item in_quote angles (c ∷ cs) =
    let quote = if c == b'"' then not in_quote else in_quote in
    let more = in_front c (split_item quote (angles_after c quote angles) cs) in
    if not quote && (angles_after c quote angles == 0 && c == b',') then ([], c ∷ cs) else more

abbrev in_first : ℕ → Option (Bytes × Bytes) → Option (Bytes × Bytes)
in_first c none = none
in_first c (some (a, b)) = some (c ∷ a, b)

-- `find` and `rfind` of one character: what stands before it and behind it.
unfoldable pub split_first : ℕ → Bytes → Option (Bytes × Bytes)
split_first x [] = none
split_first x (c ∷ cs) =
    let further = in_first c (split_first x cs) in if c == x then some ([], cs) else further

unfoldable pub split_last : ℕ → Bytes → Option (Bytes × Bytes)
split_last x [] = none
split_last x (c ∷ cs) = elim (split_last x cs) [
  | none ↦ if c == x then some ([], cs) else none
  | some (a, b) ↦ some (c ∷ a, b)
]

abbrev is_quoted : Bytes → Bool
is_quoted [] = false
is_quoted (c ∷ []) = false
is_quoted (c ∷ d ∷ cs) = c == b'"' && last_of (d ∷ cs) == b'"'
  where
    last_of : Bytes → ℕ
    last_of [] = 0
    last_of (x ∷ []) = x
    last_of (x ∷ y ∷ xs) = last_of (y ∷ xs)

abbrev unquoted : Bytes → Bytes
unquoted v = if is_quoted v then take (length v - 2) (drop 1 v) else v

-- `local@host`, at the last `@`.
spec_address : Bytes → Option (Bytes × Bytes) → Bytes → Address
spec_address display (some (mailbox, host)) spec = record {
  display_name = display;
  adl = [];
  mailbox_name = mailbox;
  host_name = host;
}
spec_address display none spec = record {
  display_name = display;
  adl = [];
  mailbox_name = spec;
  host_name = [];
}

unfoldable pub address_of : Bytes → Bytes → Address
unfolding spec_address split_last trim
address_of display spec = spec_address display (split_last b'@' (trim spec)) (trim spec)

-- The display name in front of the first `<`, and the text from there to the last `>` of the item.
angle_address : Bytes → Option (Bytes × Bytes) → Address
unfolding address_of trim split_last
angle_address item none = address_of [] item
angle_address item (some (display, inner)) = elim (split_last b'>' inner) [
  | none ↦ address_of [] item
  | some (spec, _) ↦ address_of (unquoted (trim display)) spec
]

unfoldable pub item_address : Bytes → Address
unfolding angle_address split_first
item_address item = angle_address item (split_first b'<' item)

abbrev add_item : Bytes → List Address → List Address
add_item item rest = if is_empty item then rest else item_address item ∷ rest

-- Every round but the last takes a comma.
unfoldable pub addresses_in : ℕ → Bytes → List Address
unfolding split_item trim
addresses_in zero text = []
addresses_in (suc fuel) text =
    let (item, rest) = split_item false 0 text in
    let more = addresses_in fuel (drop 1 rest) in
    add_item (trim item) (if is_empty rest then [] else more)

unfoldable pub parse_rfc5322_addresses : Bytes → List Address
unfolding addresses_in
parse_rfc5322_addresses text = addresses_in (suc (length text)) text
