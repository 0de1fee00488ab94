-- ===== src/Fetch/Body.antt =====
-- include/bkmail/common/body_structure.h, and its parser in fetch_parse.h. The parser refuses a node at
-- a depth above 32, so 33 levels stand above the root.
pub mod Depth
use bkmail.Prelude.{
  ℕ, zero, suc, ◌+◌, Bool, true, false, ◌||◌, List, [], ◌∷◌, ◌++◌, Option, none, some, ◌==◌,
  if◌then◌else◌, Bytes, codes, length, is_empty,
}
use bkmail.Cursor.{peek, try_consume, skip_spaces, read_astring, read_number}
use bkmail.Cursor.Monad.{Reader, continue_with, ◌>>=◌, ◌>>◌, return}
use bkmail.Fetch.Loop.{until_close, token, spaces}
use bkmail.Fetch.Value.{consume_nil, read_nstr, skip_value}

mutual
  pub data BodyStructure : Type 0 where
    -- type, subtype, parameters, id, description, encoding, octets
    leaf : Bytes → Bytes → List (Bytes × Bytes) → Bytes → Bytes → Bytes → ℕ → BodyStructure
    -- the media type is `multipart`
    multipart : Bytes → Parts → BodyStructure

  pub data Parts : Type 0 where
    no_parts : Parts
    add_part : BodyStructure → Parts → Parts

unfoldable pub param_item : List (Bytes × Bytes) → Reader (List (Bytes × Bytes))
unfolding read_astring
param_item found = do
  name ← read_astring
  spaces
  value ← read_astring
  return (found ++ (name, value) ∷ [])

param_pairs : Reader (List (Bytes × Bytes))
unfolding until_close param_item
param_pairs cs = until_close (suc (length cs)) param_item [] cs

unfoldable pub parse_body_params : Reader (List (Bytes × Bytes))
unfolding consume_nil param_pairs
parse_body_params cs =
    let (empty, rest) = consume_nil cs in
    let pairs = (token b'(' >> param_pairs) rest in if empty then (some [], rest) else pairs

-- The extension tail, up to the closing parenthesis.
unfoldable pub skip_tail : ℕ → Reader (Unit {0})
unfolding skip_value
skip_tail zero cs = (none, cs)
skip_tail (suc fuel) cs =
    let next = continue_with (skip_value cs) (λ _. λ rest. skip_tail fuel (skip_spaces rest)) in
    if is_empty cs || peek cs == b')' then (some tt, cs) else next

unfoldable pub end_of_body : {A : Type 0} → A → Reader A
unfolding skip_tail
end_of_body node cs =
    (do spaces; (λ rest. skip_tail (suc (length rest)) rest); token b')'; return node) cs

-- The child parts: one for each `(`.
unfoldable pub parts_loop : ℕ → Reader BodyStructure → Reader Parts
parts_loop zero child cs = (none, cs)
parts_loop (suc fuel) child cs =
    let next =
      (do part ← child; spaces; parts ← parts_loop fuel child; return (add_part part parts)) cs in
    if peek cs == b'(' then next else (some no_parts, cs)

unfoldable pub multipart_body : Reader BodyStructure → Reader BodyStructure
unfolding parts_loop read_astring end_of_body
multipart_body child cs =
    (do
      parts ← parts_loop (suc (length cs)) child
      subtype ← read_astring
      end_of_body (multipart subtype parts))
      cs

unfoldable pub basic_body : Reader BodyStructure
unfolding read_astring parse_body_params read_nstr read_number end_of_body
basic_body = do
  media_type ← read_astring
  spaces
  subtype ← read_astring
  spaces
  parameters ← parse_body_params
  spaces
  id ← read_nstr []
  spaces
  description ← read_nstr []
  spaces
  encoding ← read_astring
  spaces
  octets ← read_number
  end_of_body (leaf media_type subtype parameters id description encoding octets)

abbrev body_of : Reader BodyStructure → Reader BodyStructure
body_of child cs =
    let parts = multipart_body child cs in
    let basic = basic_body cs in if peek cs == b'(' then parts else basic

unfoldable pub parse_body_at : ℕ → Reader BodyStructure
unfolding multipart_body basic_body
parse_body_at zero cs = (none, cs)
parse_body_at (suc levels) cs = (do token b'('; spaces; body_of (parse_body_at levels)) cs

-- `kMaxBodyStructureDepth`.
abbrev pub max_body_structure_depth : ℕ
max_body_structure_depth = 32

unfoldable pub parse_body_structure : Reader BodyStructure
unfolding parse_body_at
parse_body_structure = parse_body_at (max_body_structure_depth + 1)
