-- ===== src/Flags.antt =====
-- include/bkmail/imap/flags.h: the six system flags and their bitmask, and the flag names that
-- response_parser.h and fetch_parse.h map onto it.
pub mod Laws
use Prim.Native.Nat.{bit_and, bit_or}
use bkmail.Prelude.{
  ℕ, zero, suc, ◌+◌, ◌-◌, ◌*◌, ◌/◌, ◌%◌, ◌^◌, Bool, true, false, not, ◌==◌, if◌then◌else◌, Bytes,
  codes,
}
use bkmail.Astring.{ascii_iequals}

pub data MessageFlag : Type 0 where
  seen answered flagged deleted draft recent : MessageFlag

-- `static_cast<unsigned>(f)`.
abbrev pub flag_index : MessageFlag → ℕ
flag_index seen = 0
flag_index answered = 1
flag_index flagged = 2
flag_index deleted = 3
flag_index draft = 4
flag_index recent = 5

-- `std::uint8_t bits_`.
pub record FlagSet : Type 0 where
  pub bits : ℕ

abbrev pub empty_flags : FlagSet
empty_flags = record { bits = 0 }

abbrev pub bit_of : MessageFlag → ℕ
bit_of f = 2 ^ flag_index f

unfoldable pub test : MessageFlag → FlagSet → Bool
test f s = not (bit_and s.bits (bit_of f) == 0)

-- `static_cast<std::uint8_t>(~bit)` is 255 - bit.
unfoldable pub set : MessageFlag → Bool → FlagSet → FlagSet
set f value s =
    if value
    then record { bits = bit_or s.bits (bit_of f) }
    else record { bits = bit_and s.bits (255 - bit_of f) }

unfoldable pub reset : MessageFlag → FlagSet → FlagSet
unfolding set
reset f s = set f false s

unfoldable pub any : FlagSet → Bool
any s = not (s.bits == 0)

-- `response_parser::map_flag`, which `parse_flag_list` repeats: unknown flags are ignored.
unfoldable pub map_flag : Bytes → FlagSet → FlagSet
unfolding set ascii_iequals
map_flag flag flags =
    if ascii_iequals flag (codes "\\Seen")
    then set seen true flags
    else if ascii_iequals flag (codes "\\Answered")
    then set answered true flags
    else if ascii_iequals flag (codes "\\Flagged")
    then set flagged true flags
    else if ascii_iequals flag (codes "\\Deleted")
    then set deleted true flags
    else if ascii_iequals flag (codes "\\Draft")
    then set draft true flags
    else if ascii_iequals flag (codes "\\Recent")
    then set recent true flags
    else flags
