-- ===== src/Fetch/Loop.antt =====
-- The loop that most list parsers of fetch_parse.h share: skip the spaces, leave at `)`, fail at the end
-- of the input, and take one item.
use bkmail.Prelude.{
  ℕ, zero, suc, Bool, true, false, Option, none, some, Bytes, is_empty, if◌then◌else◌,
}
use bkmail.Cursor.{try_consume, skip_spaces}
use bkmail.Cursor.Monad.{Reader, continue_with}

-- Every item takes at least a byte, so the length of the input bounds the rounds.
unfoldable pub until_close : {S : Type 0} → ℕ → (S → Reader S) → S → Reader S
until_close zero item s cs = (none, cs)
until_close (suc fuel) item s cs =
    let rest = skip_spaces cs in
    let next = continue_with (item s rest) (until_close fuel item) in
    let (closed, after) = try_consume b')' rest in
    if closed then (some s, after) else if is_empty rest then (none, rest) else next

-- The character itself, or a failure.
abbrev pub accept : Bool × Bytes → Option (Unit {0}) × Bytes
accept (true, rest) = (some tt, rest)
accept (false, rest) = (none, rest)

abbrev pub token : ℕ → Reader (Unit {0})
token c cs = accept (try_consume c cs)

abbrev pub spaces : Reader (Unit {0})
spaces cs = (some tt, skip_spaces cs)
