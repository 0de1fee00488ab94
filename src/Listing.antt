-- ===== src/Listing.antt =====
-- include/bkmail/imap/command/list_command.h and include/bkmail/imap/mailbox_entry.h. The line is a
-- one-line command; the rows that arrive are kept in order.
pub mod Render
pub mod Attributes
pub mod RoundTrip
use bkmail.Prelude.{
  ℕ, Bool, true, false, ◌&&◌, not, List, [], ◌∷◌, ◌++◌, Option, none, some, ◌==◌, leb,
  if◌then◌else◌, Bytes, codes, length, take, drop, is_empty, take_while, drop_while,
}
use bkmail.Astring.{ascii_iequals}
use bkmail.Cursor.{skip_spaces}
use bkmail.Select.{append_arg}
use bkmail.Response.{ResponseStatus, UntaggedKind, UntaggedResponse}
use bkmail.Error.{ErrorCode, map_status_to_ec}
use bkmail.Line.{LineCommand, deliver}
use bkmail.Rows.{string_token, words}

-- `mailbox_entry`.
pub record MailboxEntry : Type 0 where
  pub name : Bytes
  pub delimiter : Bytes
  pub no_select : Bool
  pub has_children : Bool
  pub has_no_children : Bool

abbrev pub new_entry : MailboxEntry
new_entry = record {
  name = [];
  delimiter = [];
  no_select = false;
  has_children = false;
  has_no_children = false;
}

-- `wants_untagged`.
abbrev pub wants_list : UntaggedKind → Bool
wants_list UntaggedKind.list = true
wants_list _ = false

unfoldable pub list_line : Bytes → Bytes → LineCommand
unfolding append_arg
list_line reference pattern = record {
  line = λ tag.
      tag
      ++ (codes " LIST " ++ (append_arg reference ++ b' ' ∷ (append_arg pattern ++ codes "\r\n")));
  rearms = false;
  blocks = false;
  wants = wants_list;
  reply = map_status_to_ec;
}

-- The body of the loop of `apply_row_flags`.
unfoldable pub apply_attribute : Bytes → MailboxEntry → MailboxEntry
unfolding ascii_iequals
apply_attribute [] entry = entry
apply_attribute (c ∷ attr) entry =
    if not (c == b'\\')
    then entry
    else if ascii_iequals attr (codes "Noselect")
    then record entry { no_select = true }
    else if ascii_iequals attr (codes "HasChildren")
    then record entry { has_children = true }
    else if ascii_iequals attr (codes "HasNoChildren")
    then record entry { has_no_children = true }
    else entry

unfoldable pub apply_attributes : List Bytes → MailboxEntry → MailboxEntry
unfolding apply_attribute
apply_attributes [] entry = entry
apply_attributes (attr ∷ attrs) entry = apply_attributes attrs (apply_attribute attr entry)

unfoldable pub apply_row_flags : Bytes → MailboxEntry → MailboxEntry
unfolding words apply_attributes
apply_row_flags body entry = apply_attributes (words body) entry

-- `NIL` is no delimiter.
unfoldable pub delimiter_token : Bytes → Bytes × Bytes
unfolding ascii_iequals string_token
delimiter_token rest =
    if leb 3 (length rest) && ascii_iequals (take 3 rest) (codes "NIL")
    then ([], drop 3 rest)
    else string_token rest

-- The delimiter and the name, from behind the closing parenthesis.
unfoldable pub row_tail : Bytes → MailboxEntry → MailboxEntry
unfolding delimiter_token string_token
row_tail rest entry =
    let (delimiter, named) = delimiter_token (skip_spaces rest) in
    record entry { delimiter = delimiter; name = (string_token (skip_spaces named)).0 }

abbrev pub is_inside : ℕ → Bool
is_inside c = not (c == b')')

-- `none` is a row that is dropped.
unfoldable pub parse_row : Bytes → Option MailboxEntry
unfolding apply_row_flags row_tail
parse_row [] = none
parse_row (c ∷ text) =
    let rest = drop_while is_inside text in
    if not (c == b'(')
    then none
    else if is_empty rest
    then none
    else some (row_tail (drop 1 rest) (apply_row_flags (take_while is_inside text) new_entry))

abbrev push_entry : List MailboxEntry → Option MailboxEntry → List MailboxEntry
push_entry entries none = entries
push_entry entries (some entry) = entries ++ entry ∷ []

unfoldable pub on_untagged : UntaggedResponse → List MailboxEntry → List MailboxEntry
unfolding parse_row
on_untagged r entries =
    if wants_list r.kind then push_entry entries (parse_row r.payload) else entries

-- The error code, and the result unless it stays as the caller made it.
unfoldable pub on_tagged :
    ResponseStatus → List MailboxEntry → ErrorCode × Option (List MailboxEntry)
on_tagged status entries = deliver status entries
