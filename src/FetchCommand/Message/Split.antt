-- ===== src/FetchCommand/Message/Split.antt =====
-- Where a fetched message is split.
use bkmail.Prelude.{◌≡◌, [], ◌∷◌, ◌++◌, none, Bytes, codes}
use bkmail.FetchCommand.Message.{find}

-- The two styles of an empty line, behind the end of the line in front of it.
pub data Style : Type 0 where
  crlf lf : Style

-- An empty line without its last byte, and that byte.
abbrev pub opening : Style → Bytes
opening crlf = codes "\r\n\r"
opening lf = codes "\n"

abbrev pub blank_line : Style → Bytes
blank_line style = opening style ++ b'\n' ∷ []

-- No empty line of the style in the block, and none that begins in it and ends behind it.
abbrev pub NoBlankLine : Style → Bytes → Type 0
NoBlankLine style block = find (blank_line style) (block ++ opening style) ≡ none

-- The block is all that stands in front of the empty line that counts: the first of the style CRLF, or the
-- first of the style LF in a text that has none of the style CRLF.
abbrev pub IsFirst : Style → Bytes → Bytes → Type 0
IsFirst crlf block body = NoBlankLine crlf block
IsFirst lf block body =
    NoBlankLine lf block × (find (blank_line crlf) (block ++ (blank_line lf ++ body)) ≡ none)
