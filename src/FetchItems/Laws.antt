-- ===== src/FetchItems/Laws.antt =====
-- The mask of the six items as a set.
use Prim.Native.Nat.{bit_and, bit_or}
use bkmail.Prelude.{ℕ, ◌-◌, ◌^◌, ◌<◌, ◌≡◌, refl, Bool, true, not, ◌&&◌, ◌||◌, ◌==◌, arith}
use bkmail.Flags.Laws.{every_mask, every_mask_sound, same, same_sound}
use bkmail.FetchItems.{
  Item, envelope, body_structure, flags, uid, internal_date, rfc822_size, item_bit, FetchItems, add,
  remove, test,
}

abbrev has_bit : Item → ℕ → Bool
has_bit i bits = not (bit_and bits (item_bit i) == 0)

abbrev pub same_item : Item → Item → Bool
same_item i j = item_bit i == item_bit j

abbrev each_item : (Item → Bool) → Bool
each_item p =
    p envelope && (p body_structure && (p flags && (p uid && (p internal_date && p rfc822_size))))

each_item_lem : (p : Item → Bool) (i : Item) → each_item p ≡ true → p i ≡ true
each_item_lem p envelope h = ground arith
each_item_lem p body_structure h = ground arith
each_item_lem p flags h = ground arith
each_item_lem p uid h = ground arith
each_item_lem p internal_date h = ground arith
each_item_lem p rfc822_size h = ground arith

-- What adding and removing an item does to the test of an item and to the range.
abbrev mask_law : Item → Item → ℕ → Bool
mask_law i j bits =
    let added = bit_or bits (item_bit i) in
    let removed = bit_and bits (2 ^ 32 - 1 - item_bit i) in
    same (has_bit j added) (same_item i j || has_bit j bits)
    && same (has_bit j removed) (not (same_item i j) && has_bit j bits)

mask_table : every_mask (λ bits. each_item (λ i. each_item (λ j. mask_law i j bits))) 64 ≡ true
unfolding every_mask same
mask_table = refl

mask_laws : (i j : Item) (bits : ℕ) → bits < 64 → mask_law i j bits ≡ true
mask_laws i j bits h =
    each_item_lem (λ l. mask_law i l bits) j
      (each_item_lem (λ k. each_item (λ l. mask_law k l bits)) i
        (every_mask_sound (λ b. each_item (λ k. each_item (λ l. mask_law k l b))) 64 h mask_table))

-- On a selection of the six items, `add` and `remove` change the test of the item given, to true and to
-- false, and of no other.
pub test-add-remove :
    (i j : Item) (s : FetchItems)
    → s.bits < 64
    → (test j (add i s) ≡ (same_item i j || test j s))
      × (test j (remove i s) ≡ (not (same_item i j) && test j s))
unfolding test add remove
test-add-remove i j s h =
    let law = mask_laws i j s.bits h in
    (same_sound _ _ (ground arith), same_sound _ _ (ground arith))
