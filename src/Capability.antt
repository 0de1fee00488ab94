-- ===== src/Capability.antt =====
-- include/bkmail/imap/capability_set.h and src/capabilities.cpp: the interned capability names. The
-- set is the list of its stored names.
pub mod Members
use bkmail.Prelude.{Bool, false, ◌||◌, List, [], ◌∷◌, ◌++◌, if◌then◌else◌, Bytes, is_empty, map}
use bkmail.Astring.{ascii_to_upper, ascii_iequals}

-- `capability_set`.
abbrev pub CapabilitySet : Type 0
CapabilitySet = List Bytes

-- `capability_name_equals`: the comparison of astring.h once more.
unfoldable pub capability_name_equals : Bytes → Bytes → Bool
unfolding ascii_iequals
capability_name_equals a b = ascii_iequals a b

unfoldable pub capability_name_to_upper : Bytes → Bytes
unfolding ascii_to_upper
capability_name_to_upper name = map ascii_to_upper name

unfoldable pub contains : Bytes → List Bytes → Bool
unfolding capability_name_equals
contains name [] = false
contains name (stored ∷ rest) = capability_name_equals stored name || contains name rest

unfoldable pub insert : Bytes → List Bytes → List Bytes
unfolding contains capability_name_to_upper
insert cap set =
    if is_empty cap
    then set
    else if contains cap set
    then set
    else set ++ capability_name_to_upper cap ∷ []
