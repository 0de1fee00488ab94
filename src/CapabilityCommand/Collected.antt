-- ===== src/CapabilityCommand/Collected.antt =====
-- What CAPABILITY collects.
use bkmail.Prelude.{
  ◌≡◌, refl, Bool, true, false, ◌&&◌, ◌||◌, not, List, [], ◌∷◌, Option, some, inl, inr, Bool-cases,
  Bytes, is_empty, arith,
}
use bkmail.Response.{ResponseStatus, UntaggedKind, ResponseCode, capability_code, UntaggedResponse}
use bkmail.Error.{success}
use bkmail.Capability.{CapabilitySet, capability_name_equals, contains, insert}
use bkmail.Capability.Members.{contains-insert}
use bkmail.Rows.{words}
use bkmail.CapabilityCommand.{insert_all, add_atoms, add_code_atoms, absorb, on_untagged, on_tagged}

-- Whether an atom of the list names the capability.
unfoldable pub mentions : Bytes → List Bytes → Bool
mentions name [] = false
mentions name (atom ∷ atoms) =
    (not (is_empty atom) && capability_name_equals atom name) || mentions name atoms

abbrev pub code_atoms : Option ResponseCode → List Bytes
code_atoms (some (capability_code capabilities)) = capabilities
code_atoms _ = []

-- The atoms that a response announces.
abbrev pub announced : UntaggedKind → Option ResponseCode → Bytes → List Bytes
announced UntaggedKind.capability code payload = words payload
announced UntaggedKind.ok code payload = code_atoms code
announced _ code payload = []

abbrev pub absorb_all : List UntaggedResponse → CapabilitySet → CapabilitySet
absorb_all [] set = set
absorb_all (r ∷ rs) set = absorb_all rs (on_untagged r set)

abbrev pub mentioned : Bytes → List UntaggedResponse → Bool
mentioned name [] = false
mentioned name (r ∷ rs) = mentions name (announced r.kind r.code r.payload) || mentioned name rs

insert_empty : (atom : Bytes) (set : CapabilitySet) → is_empty atom ≡ true → insert atom set ≡ set
unfolding insert
insert_empty atom set h = rw h refl

contains-insert_all :
    (name : Bytes) (atoms : List Bytes) (set : CapabilitySet)
    → contains name (insert_all atoms set) ≡ (contains name set || mentions name atoms)
unfolding insert_all mentions
contains-insert_all name [] set = ground arith
contains-insert_all name (atom ∷ atoms) set = elim (Bool-cases (is_empty atom)) [
  | inl empty ↦
      ground (arith, contains-insert_all name atoms (insert atom set), insert_empty atom set)
  | inr there ↦
      let (added, _) = contains-insert atom name set there in
      ground (arith, contains-insert_all name atoms (insert atom set), added)
]

code_contains :
    (name : Bytes) (code : Option ResponseCode) (set : CapabilitySet)
    → contains name (add_code_atoms code set)
      ≡ (contains name set || mentions name (code_atoms code))
unfolding add_code_atoms mentions
code_contains name (some (capability_code capabilities)) set =
    contains-insert_all name capabilities set
code_contains name _ set = ground arith

contains-absorb :
    (name : Bytes) (kind : UntaggedKind) (code : Option ResponseCode) (payload : Bytes)
    (set : CapabilitySet)
    → contains name (absorb kind code payload set)
      ≡ (contains name set || mentions name (announced kind code payload))
unfolding absorb add_atoms mentions
contains-absorb name UntaggedKind.capability code payload set =
    contains-insert_all name (words payload) set
contains-absorb name UntaggedKind.ok code payload set = code_contains name code set
contains-absorb name _ code payload set = ground arith

all_contain :
    (name : Bytes) (rs : List UntaggedResponse) (set : CapabilitySet)
    → contains name (absorb_all rs set) ≡ (contains name set || mentioned name rs)
unfolding on_untagged
all_contain name [] set = ground arith
all_contain name (r ∷ rs) set = ground (
  arith,
  all_contain name rs (on_untagged r set),
  contains-absorb name r.kind r.code r.payload set,
)

-- After a tagged OK, the result of CAPABILITY contains a name exactly if an atom of an untagged CAPABILITY,
-- of the code of an untagged OK or of the code of the tagged OK is that name, up to case.
pub on_tagged-absorb_all :
    (name : Bytes) (rs : List UntaggedResponse) (code : Option ResponseCode)
    → (set : CapabilitySet) × (on_tagged ResponseStatus.ok code (absorb_all rs [])
        ≡ (success, some set))
      × (contains name set ≡ (mentioned name rs || mentions name (code_atoms code)))
unfolding on_tagged contains
on_tagged-absorb_all name rs code = (
  add_code_atoms code (absorb_all rs []),
  refl,
  ground (arith, code_contains name code (absorb_all rs []), all_contain name rs []),
)
