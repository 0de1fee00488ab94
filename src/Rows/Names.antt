-- ===== src/Rows/Names.antt =====
-- The list of names that a command renders from a mask.
use bkmail.Prelude.{
  ◌≡◌, refl, ap, ◌∙◌, Bool, true, false, List, [], ◌∷◌, ◌++◌, append_assoc, append-nil,
  if◌then◌else◌, Bytes, All,
}
use bkmail.Rows.{words, emit}
use bkmail.Listing.Render.{spaced, is_attribute}
use bkmail.Listing.Attributes.{words-spaced}

-- The calls of `emit` in their order.
abbrev pub emit_all : List (Bool × Bytes) → Bool × Bytes → Bool × Bytes
emit_all [] s = s
emit_all ((wanted, name) ∷ names) s = emit_all names (emit wanted name s)

abbrev pub chosen : List (Bool × Bytes) → List Bytes
chosen [] = []
chosen ((wanted, name) ∷ names) = if wanted then name ∷ chosen names else chosen names

-- What is still to come, behind a text that is not empty.
abbrev trailing : List Bytes → Bytes
trailing [] = []
trailing (w ∷ ws) = b' ' ∷ (w ++ trailing ws)

spaced-trailing : (w : Bytes) (ws : List Bytes) → spaced (w ∷ ws) ≡ w ++ trailing ws
spaced-trailing w [] = rw append-nil refl
spaced-trailing w (v ∷ ws) = ap (λ t. w ++ b' ' ∷ t) (spaced-trailing v ws)

emit_later :
    (names : List (Bool × Bytes)) (out : Bytes)
    → emit_all names (false, out) ≡ (false, out ++ trailing (chosen names))
emit_later [] out = rw append-nil refl
emit_later ((true, name) ∷ names) out =
    emit_later names ((out ++ b' ' ∷ []) ++ name) ∙ ap (λ t. (false, t)) (simp append_assoc)
emit_later ((false, name) ∷ names) out = emit_later names out

emit_spaced : (names : List (Bool × Bytes)) → (emit_all names (true, [])).1 ≡ spaced (chosen names)
emit_spaced [] = refl
emit_spaced ((true, name) ∷ names) =
    ap (λ (p : Bool × Bytes). p.1) (emit_later names name)
    ∙ (rw (spaced-trailing name (chosen names)) refl)
emit_spaced ((false, name) ∷ names) = emit_spaced names

abbrev pub AllNames : List (Bool × Bytes) → Type 0
AllNames [] = Unit
AllNames ((wanted, name) ∷ names) = (is_attribute name ≡ true) × AllNames names

chosen_attributes :
    (names : List (Bool × Bytes)) → AllNames names → All (λ a. is_attribute a ≡ true) (chosen names)
chosen_attributes [] h = tt
chosen_attributes ((true, name) ∷ names) (h, rest) = (h, chosen_attributes names rest)
chosen_attributes ((false, name) ∷ names) (h, rest) = chosen_attributes names rest

-- The words of the rendered list are the chosen names.
pub words-emit_all :
    (names : List (Bool × Bytes))
    → AllNames names
    → words (emit_all names (true, [])).1 ≡ chosen names
words-emit_all names h =
    ap words (emit_spaced names) ∙ words-spaced (chosen names) (chosen_attributes names h)
