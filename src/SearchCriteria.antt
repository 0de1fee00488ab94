-- ===== src/SearchCriteria.antt =====
-- include/bkmail/imap/search_criteria.h. The depth is an int in the source, which a text of fewer than 2^31
-- characters does not overflow.
pub mod Grammar
use bkmail.Prelude.{
  ℕ, zero, suc, ◌+◌, ◌-◌, Bool, true, false, ◌&&◌, ◌||◌, not, [], ◌∷◌, Option, none, some, ◌==◌,
  if◌then◌else◌, Bytes, is_empty,
}

-- The variables of the loop.
pub record Scan : Type 0 where
  pub depth : ℕ
  pub quoted : Bool
  pub escaped : Bool

-- One character, other than CR and LF; `none` is the closing parenthesis that nothing opened.
unfoldable pub scan_char : ℕ → Scan → Option Scan
scan_char c s =
    if s.quoted
    then some (
        if s.escaped
        then record s { escaped = false }
        else if c == b'\\'
        then record s { escaped = true }
        else if c == b'"'
        then record s { quoted = false }
        else s)
    else if c == b'"'
    then some (record s { quoted = true })
    else if c == b'('
    then some (record s { depth = s.depth + 1 })
    else if c == b')'
    then (if s.depth == 0 then none else some (record s { depth = s.depth - 1 }))
    else some s

abbrev resumed : (Scan → Bool) → Option Scan → Bool
resumed again none = false
resumed again (some s) = again s

unfoldable pub scan : Bytes → Scan → Bool
unfolding scan_char
scan [] s = not s.quoted && s.depth == 0
scan (c ∷ cs) s =
    let later = resumed (scan cs) (scan_char c s) in
    if c == b'\r' || c == b'\n' then false else later

unfoldable pub is_valid : Bytes → Bool
unfolding scan
is_valid text =
    if is_empty text
    then false
    else scan text (record { depth = 0; quoted = false; escaped = false })
