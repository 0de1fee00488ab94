-- ===== src/Store/Flags.antt =====
-- The flags of a STORE, read back by the flag list parser of FETCH.
use bkmail.Prelude.{
  ℕ, ◌<◌, ◌≡◌, refl, Bool, true, false, ◌&&◌, [], ◌∷◌, ◌++◌, Option, none, some, ◌==◌, Bytes, codes,
  is_empty, arith,
}
use bkmail.Flags.{FlagSet, empty_flags}
use bkmail.Flags.Laws.{every_mask, every_mask_sound}
use bkmail.Fetch.Value.{parse_flag_list}
use bkmail.Store.{append_flag_names}

abbrev names_read : ℕ → Option FlagSet × Bytes
names_read bits =
    parse_flag_list empty_flags (b'(' ∷ (append_flag_names (record { bits = bits }) ++ codes ")"))

is_same : ℕ → Option FlagSet × Bytes → Bool
is_same bits (none, rest) = false
is_same bits (some flags, rest) = flags.bits == bits && is_empty rest

is_same_lem :
    (bits : ℕ) (r : Option FlagSet × Bytes)
    → is_same bits r ≡ true
    → r ≡ (some (record { bits = bits }), [])
unfolding is_same
is_same_lem bits (none, rest) h = cc
is_same_lem bits (some flags, []) h = ground arith
is_same_lem bits (some flags, c ∷ rest) h = ground arith

masks : every_mask (λ bits. is_same bits (names_read bits)) 64 ≡ true
unfolding every_mask is_same parse_flag_list append_flag_names
masks = refl

-- The flag list that STORE sends, for each of the 64 sets of system flags, is read by the parser of flag
-- lists as that very set.
pub parse_flag_list-append_flag_names :
    (bits : ℕ)
    → bits < 64
    → parse_flag_list empty_flags (b'(' ∷ (append_flag_names (record { bits = bits }) ++ codes ")"))
      ≡ (some (record { bits = bits }), [])
parse_flag_list-append_flag_names bits h =
    is_same_lem bits (names_read bits) (every_mask_sound (λ b. is_same b (names_read b)) 64 h masks)
