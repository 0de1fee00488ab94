-- ===== src/Parser/Code/Loops.antt =====
-- The fuel of the three loops of `parse_resp_code` in response_parser.h.
use bkmail.Prelude.{
  ℕ, zero, suc, ◌<◌, ◌≤◌, ◌≡◌, refl, ap, not, Bool, List, [], ◌∷◌, ◌++◌, Option, none, some, Bytes,
  codes, length, is_empty, take_while, drop_while, arith, if◌then◌else◌, Bool-cases, inl, inr,
}
use bkmail.Astring.{is_atom_char}
use bkmail.Cursor.{
  contains, try_consume, skip_spaces, is_space, read_atom, read_astring, read_until_any,
}
use bkmail.Cursor.Progress.{length-drop_while, drop_while_shorter, read_astring_shorter}
use bkmail.Flags.{FlagSet, map_flag}
use bkmail.Parser.Code.{capabilities, charsets, charsets_next, flag_loop}

capabilities_fuel :
    (f g : ℕ) (cs : Bytes) → length cs < f → length cs < g → capabilities f cs ≡ capabilities g cs
unfolding capabilities read_atom
capabilities_fuel zero g cs hf hg = elim hf [ ]
capabilities_fuel (suc f) zero cs hf hg = elim hg [ ]
capabilities_fuel (suc f) (suc g) [] hf hg = refl
capabilities_fuel (suc f) (suc g) (c ∷ cs) hf hg = ground (
  arith,
  length-drop_while is_atom_char cs,
  capabilities_fuel f g (drop_while is_atom_char cs)
      (omega (arith, length-drop_while is_atom_char cs))
      (omega (arith, length-drop_while is_atom_char cs)),
)

length-try_consume : (m : ℕ) (cs : Bytes) → length (try_consume m cs).1 ≤ length cs
length-try_consume m [] = omega arith
length-try_consume m (c ∷ cs) = ground arith

charsets_next_same :
    (again again' : Bytes → List Bytes → List Bytes × Option Bytes) (found : List Bytes)
    (r : Option Bytes × Bytes)
    → ((name : Bytes)
        → r.0 ≡ some name
        → again r.1 (found ++ name ∷ []) ≡ again' r.1 (found ++ name ∷ []))
    → charsets_next again found r ≡ charsets_next again' found r
unfolding charsets_next
charsets_next_same again again' found (none, rest) h = refl
charsets_next_same again again' found (some name, rest) h = h name refl

pair_of : {A B : Type 0} (r : A × B) {a : A} → r.0 ≡ a → r ≡ (a, r.1)
pair_of (x, y) e = ap (λ a. (a, y)) e

charsets_fuel :
    (f g : ℕ) (cs : Bytes) (found : List Bytes)
    → length cs < f
    → length cs < g
    → charsets f cs found ≡ charsets g cs found
unfolding charsets
charsets_fuel zero g cs found hf hg = elim hf [ ]
charsets_fuel (suc f) zero cs found hf hg = elim hg [ ]
charsets_fuel (suc f) (suc g) cs found hf hg =
    let rest = (try_consume b')' (skip_spaces cs)).1 in
    let r = read_astring rest in
    ap (λ next. if (try_consume b')' (skip_spaces cs)).0 then (found, none) else next)
      (charsets_next_same (charsets f) (charsets g) found r (λ name e.
        let shorter : length r.1 < length rest = read_astring_shorter rest (pair_of r e) in
        charsets_fuel f g r.1 (found ++ name ∷ [])
          (omega (
            arith,
            shorter,
            length-try_consume b')' (skip_spaces cs),
            length-drop_while is_space cs,
          ))
          (omega (
            arith,
            shorter,
            length-try_consume b')' (skip_spaces cs),
            length-drop_while is_space cs,
          ))))

-- A byte of a flag.
abbrev in_flag : ℕ → Bool
in_flag c = not (contains (codes " )") c)

flag_loop_fuel :
    (f g : ℕ) (cs : Bytes) (flags : FlagSet)
    → length cs < f
    → length cs < g
    → flag_loop f cs flags ≡ flag_loop g cs flags
unfolding flag_loop read_until_any
flag_loop_fuel zero g cs flags hf hg = elim hf [ ]
flag_loop_fuel (suc f) zero cs flags hf hg = elim hg [ ]
flag_loop_fuel (suc f) (suc g) cs flags hf hg =
    let (closed, rest) = try_consume b')' (skip_spaces cs) in
    let bound : length rest ≤ length cs =
      omega (arith, length-try_consume b')' (skip_spaces cs), length-drop_while is_space cs) in
    elim (Bool-cases (is_empty (take_while in_flag rest))) [
      | inl e ↦ rw e refl
      | inr e ↦
          let shorter : length (drop_while in_flag rest) < length rest =
            drop_while_shorter in_flag rest e in
          ap
            (λ next.
              if closed
              then (flags, none)
              else if is_empty (take_while in_flag rest)
              then (flags, some (drop_while in_flag rest))
              else next)
            (flag_loop_fuel f g (drop_while in_flag rest) (map_flag (take_while in_flag rest) flags)
              (omega (arith, shorter, bound)) (omega (arith, shorter, bound)))
    ]

-- The loops that collect the capabilities, the charsets and the flags of a response code end: every
-- amount of fuel above the length of the text that is left gives the same result.
pub code_loops_fuel :
    (f g : ℕ) (cs : Bytes) (found : List Bytes) (flags : FlagSet)
    → length cs < f
    → length cs < g
    → (capabilities f cs ≡ capabilities g cs)
      × (charsets f cs found ≡ charsets g cs found)
      × (flag_loop f cs flags ≡ flag_loop g cs flags)
code_loops_fuel f g cs found flags hf hg = (
  capabilities_fuel f g cs hf hg,
  charsets_fuel f g cs found hf hg,
  flag_loop_fuel f g cs flags hf hg,
)
