-- ===== src/Fetch/Body/Depth.antt =====
-- The recursion bound of `parse_body_structure` in fetch_parse.h.
use bkmail.Prelude.{ℕ, zero, suc, ◌+◌, ◌≡◌, refl, ◌∷◌, Option, none, some, Bytes, length}
use bkmail.Cursor.Monad.{Reader, continue_with, ◌>>=◌, ◌>>◌, return}
use bkmail.Fetch.Loop.{spaces}
use bkmail.Fetch.Body.{
  add_part, BodyStructure, parse_body_at, parse_body_structure, multipart_body, parts_loop,
  max_body_structure_depth,
}

-- So many opening parentheses.
unfoldable pub parens : ℕ → Bytes → Bytes
parens zero rest = rest
parens (suc n) rest = b'(' ∷ parens n rest

bind_failed :
    {A B : Type 0} (r : Option A × Bytes) (k : A → Reader B)
    → r.0 ≡ none
    → (continue_with r k).0 ≡ none
bind_failed (none, rest) k h = refl
bind_failed (some a, rest) k h = cc

parts_loop_failed :
    (fuel : ℕ) (child : Reader BodyStructure) (rest : Bytes)
    → (child (b'(' ∷ rest)).0 ≡ none
    → (parts_loop fuel child (b'(' ∷ rest)).0 ≡ none
unfolding parts_loop
parts_loop_failed zero child rest h = refl
parts_loop_failed (suc fuel) child rest h =
    bind_failed (child (b'(' ∷ rest))
      (λ part. (spaces >> parts_loop fuel child) >>= λ parts. return (add_part part parts)) h

too_deep : (n : ℕ) (rest : Bytes) → (parse_body_at n (parens (suc n) rest)).0 ≡ none
unfolding parse_body_at parens multipart_body parts_loop
too_deep zero rest = refl
too_deep (suc n) rest = bind_failed _ _ (
    parts_loop_failed (suc (suc (length (parens n rest)))) (parse_body_at n) (parens n rest)
      (too_deep n rest))

-- A body structure that opens more than 33 parentheses in a row is refused, whatever follows them.
pub parse_body_structure_bound :
    (rest : Bytes) → (parse_body_structure (parens (max_body_structure_depth + 2) rest)).0 ≡ none
unfolding parse_body_structure
parse_body_structure_bound rest = too_deep 33 rest
