-- ===== src/FetchItems.antt =====
-- include/bkmail/imap/fetch_items.h: the selection of FETCH data items, a mask in 32 bits and the
-- requested sections in the order of their insertion.
pub mod Laws
use Prim.Native.Nat.{bit_and, bit_or}
use bkmail.Prelude.{
  ℕ, ◌-◌, ◌^◌, Bool, true, false, not, ◌||◌, List, [], ◌∷◌, ◌++◌, ◌==◌, Bytes, is_empty,
}

pub data Item : Type 0 where
  envelope body_structure flags uid internal_date rfc822_size : Item

abbrev pub item_bit : Item → ℕ
item_bit envelope = 1
item_bit body_structure = 2
item_bit flags = 4
item_bit uid = 8
item_bit internal_date = 16
item_bit rfc822_size = 32

pub record Section : Type 0 where
  pub specifier : Bytes
  pub peek : Bool

pub record FetchItems : Type 0 where
  pub bits : ℕ
  pub sections : List Section

unfoldable pub no_items : FetchItems
no_items = record { bits = 0; sections = [] }

unfoldable pub add : Item → FetchItems → FetchItems
add i s = record s { bits = bit_or s.bits (item_bit i) }

-- `~` of a bit in 32 bits.
unfoldable pub remove : Item → FetchItems → FetchItems
remove i s = record s { bits = bit_and s.bits (2 ^ 32 - 1 - item_bit i) }

unfoldable pub test : Item → FetchItems → Bool
test i s = not (bit_and s.bits (item_bit i) == 0)

unfoldable pub add_section : Bytes → Bool → FetchItems → FetchItems
add_section specifier peek s = record s {
  sections = s.sections ++ record { specifier = specifier; peek = peek } ∷ [];
}

unfoldable pub any : FetchItems → Bool
any s = not (s.bits == 0) || not (is_empty s.sections)

unfoldable pub clear : FetchItems → FetchItems
clear s = record { bits = 0; sections = [] }
