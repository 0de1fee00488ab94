-- ===== src/Flags/Laws.antt =====
-- The bitmask of flags.h against the set of flags that it stands for. A mask is a byte, so a law is
-- checked at every mask and every flag.
use bkmail.Prelude.{
  ℕ, zero, suc, ◌<◌, Bool, true, false, not, ◌&&◌, ◌≡◌, refl, arith, if◌then◌else◌, ltb,
}
use bkmail.Flags.{MessageFlag, seen, answered, flagged, deleted, draft, recent, FlagSet, test, set}

unfoldable pub same_flag : MessageFlag → MessageFlag → Bool
same_flag seen seen = true
same_flag answered answered = true
same_flag flagged flagged = true
same_flag deleted deleted = true
same_flag draft draft = true
same_flag recent recent = true
same_flag _ _ = false

unfoldable pub same : Bool → Bool → Bool
same true b = b
same false b = not b

pub same_sound : (a b : Bool) → same a b ≡ true → a ≡ b
unfolding same
same_sound true true h = refl
same_sound true false h = cc
same_sound false true h = cc
same_sound false false h = refl

all_flags : (MessageFlag → Bool) → Bool
all_flags p = p seen && p answered && p flagged && p deleted && p draft && p recent

all_flags_sound : (p : MessageFlag → Bool) (f : MessageFlag) → all_flags p ≡ true → p f ≡ true
unfolding all_flags
all_flags_sound p seen h = ground arith
all_flags_sound p _ h = ground arith

-- The masks below a bound, checked from the highest down.
unfoldable pub every_mask : (ℕ → Bool) → ℕ → Bool
every_mask law zero = true
every_mask law (suc mask) = every_mask law mask && law mask

pub every_mask_sound :
    (law : ℕ → Bool) (bound : ℕ) {mask : ℕ}
    → mask < bound
    → every_mask law bound ≡ true
    → law mask ≡ true
unfolding every_mask
every_mask_sound law zero below all = absurd (omega (arith, below))
every_mask_sound law (suc bound) {mask} below all =
    ground (arith, every_mask_sound law bound {mask = mask})

-- The law at one mask and two flags.
law : Bool → ℕ → MessageFlag → MessageFlag → Bool
unfolding same same_flag
law value bits f g =
    same (test g (set f value (record { bits = bits })))
      (if same_flag f g then value else test g (record { bits = bits }))
    && ltb (set f value (record { bits = bits })).bits 256

-- The law at one mask, for every two flags.
written : Bool → ℕ → Bool
written value bits = all_flags λ f. all_flags (law value bits f)

written_table : (value : Bool) → every_mask (written value) 256 ≡ true
unfolding written all_flags law test set every_mask
written_table true = refl
written_table false = refl

-- `set` writes the one flag that it names: it leaves every other flag as it was, and the mask a byte.
pub test-set :
    (f g : MessageFlag) (value : Bool) (s : FlagSet)
    → s.bits < 256
    → (test g (set f value s) ≡ (if same_flag f g then value else test g s))
      × ((set f value s).bits < 256)
unfolding written law
test-set f g value s h =
    let row = all_flags_sound _ f (every_mask_sound (written value) 256 h (written_table value)) in
    let cell : law value s.bits f g ≡ true = all_flags_sound (law value s.bits f) g row in
    ground
      (arith, cell, same_sound (test g (set f value s)) (if same_flag f g then value else test g s))
