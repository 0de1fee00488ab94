-- ===== src/Capability/Members.antt =====
-- Insertion and membership in the capability set of capability_set.h.
use bkmail.Prelude.{
  ℕ, ◌≡◌, refl, true, false, ◌||◌, List, [], ◌∷◌, ◌++◌, Bytes, is_empty, map, arith,
}
use bkmail.Astring.{ascii_to_upper, ascii_iequals}
use bkmail.Capability.{capability_name_equals, capability_name_to_upper, contains, insert}

to_upper_twice : (c : ℕ) → ascii_to_upper (ascii_to_upper c) ≡ ascii_to_upper c
unfolding ascii_to_upper
to_upper_twice c = ground arith

upper_equals : (a b : Bytes) → ascii_iequals (map ascii_to_upper a) b ≡ ascii_iequals a b
unfolding ascii_iequals
upper_equals [] [] = refl
upper_equals [] (y ∷ b) = refl
upper_equals (x ∷ a) [] = refl
upper_equals (x ∷ a) (y ∷ b) = rw (to_upper_twice x, upper_equals a b) refl

equals_trans : (a b c : Bytes) → ascii_iequals a b ≡ true → ascii_iequals b c ≡ ascii_iequals a c
unfolding ascii_iequals
equals_trans [] [] c h = refl
equals_trans [] (y ∷ b) c h = cc
equals_trans (x ∷ a) [] c h = cc
equals_trans (x ∷ a) (y ∷ b) [] h = refl
equals_trans (x ∷ a) (y ∷ b) (z ∷ c) h = ground (arith, h, equals_trans a b c)

contains-append :
    (name : Bytes) (xs ys : List Bytes)
    → contains name (xs ++ ys) ≡ contains name xs || contains name ys
unfolding contains
contains-append name [] ys = refl
contains-append name (x ∷ xs) ys = ground (arith, contains-append name xs ys)

-- A name equal to a stored one is found when that one is.
contains_equal :
    (cap name : Bytes) (set : List Bytes)
    → contains cap set ≡ true
    → ascii_iequals cap name ≡ true
    → contains name set ≡ true
unfolding contains capability_name_equals
contains_equal cap name [] h e = cc
contains_equal cap name (s ∷ set) h e =
    ground (arith, h, e, contains_equal cap name set, equals_trans s cap name)

equals_refl : (a : Bytes) → ascii_iequals a a ≡ true
unfolding ascii_iequals
equals_refl [] = refl
equals_refl (x ∷ a) = ground (arith, equals_refl a)

contains_inserted :
    (cap name : Bytes) (set : List Bytes)
    → is_empty cap ≡ false
    → contains name (insert cap set) ≡ contains name set || capability_name_equals cap name
unfolding insert capability_name_equals capability_name_to_upper contains
contains_inserted cap name set h = ground (
  arith,
  h,
  contains-append name set (map ascii_to_upper cap ∷ []),
  upper_equals cap name,
  contains_equal cap name set,
)

insert_again : (cap : Bytes) (set : List Bytes) → contains cap set ≡ true → insert cap set ≡ set
unfolding insert
insert_again cap set h = ground (arith, h)

-- After a non-empty name is inserted, a name is in the set if it was before or is equal to the new one
-- up to case, and to insert the name a second time changes nothing.
pub contains-insert :
    (cap name : Bytes) (set : List Bytes)
    → is_empty cap ≡ false
    → (contains name (insert cap set) ≡ contains name set || capability_name_equals cap name)
      × (insert cap (insert cap set) ≡ insert cap set)
unfolding capability_name_equals
contains-insert cap name set h = (
  contains_inserted cap name set h,
  insert_again cap (insert cap set)
      (ground (arith, contains_inserted cap cap set h, equals_refl cap)),
)
