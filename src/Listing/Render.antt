-- ===== src/Listing/Render.antt =====
-- The rows that a server sends for LIST: attributes, a delimiter and a name in one of three forms.
use bkmail.Prelude.{
  ℕ, ◌<◌, ◌^◌, ◌≡◌, Bool, true, false, ◌&&◌, ◌||◌, not, List, [], ◌∷◌, ◌++◌, Option, none, some,
  ◌==◌, Bytes, codes, length, is_empty, all,
}
use bkmail.Astring.{render_quoted, render_literal, synchronizing, ascii_iequals}
use bkmail.Cursor.{peek}
use bkmail.Rows.{is_token_char}
use bkmail.Listing.{MailboxEntry}

pub data NameForm : Type 0 where
  word quoted literal : NameForm

unfoldable pub render_name : NameForm → Bytes → Bytes
render_name word v = v
render_name quoted v = render_quoted v
render_name literal v = render_literal v synchronizing

abbrev pub is_name_word : Bytes → Bool
is_name_word v =
    not (is_empty v) && (all is_token_char v && (not (peek v == b'"') && not (peek v == b'{')))

-- Which names a form can carry.
abbrev pub IsSendable : NameForm → Bytes → Type 0
IsSendable word v = is_name_word v ≡ true
IsSendable quoted v = Unit
IsSendable literal v = length v < 2 ^ 64

abbrev pub spaced : List Bytes → Bytes
spaced [] = []
spaced (w ∷ []) = w
spaced (w ∷ v ∷ ws) = w ++ b' ' ∷ spaced (v ∷ ws)

unfoldable pub render_delimiter : Option ℕ → Bytes
render_delimiter none = codes "NIL"
render_delimiter (some d) = render_quoted (d ∷ [])

unfoldable pub render_row : List Bytes → Option ℕ → NameForm → Bytes → Bytes
render_row attrs delimiter form name =
    b'('
    ∷ (spaced attrs ++ b')' ∷ b' ' ∷ (render_delimiter delimiter ++ b' ' ∷ render_name form name))

unfoldable pub has_attribute : Bytes → List Bytes → Bool
has_attribute name [] = false
has_attribute name (attr ∷ attrs) = ascii_iequals attr name || has_attribute name attrs

abbrev pub bytes_of : Option ℕ → Bytes
bytes_of none = []
bytes_of (some d) = d ∷ []

-- What the row says.
unfoldable pub entry_of : List Bytes → Option ℕ → Bytes → MailboxEntry
entry_of attrs delimiter name = record {
  name = name;
  delimiter = bytes_of delimiter;
  no_select = has_attribute (codes "\\Noselect") attrs;
  has_children = has_attribute (codes "\\HasChildren") attrs;
  has_no_children = has_attribute (codes "\\HasNoChildren") attrs;
}

-- An attribute is a word without a parenthesis.
abbrev pub is_attribute : Bytes → Bool
is_attribute attr = not (is_empty attr) && all is_token_char attr
