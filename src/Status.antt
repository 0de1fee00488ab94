-- ===== src/Status.antt =====
-- include/bkmail/imap/command/status_command.h with include/bkmail/imap/mailbox_status.h and the mask
-- `status_items` of include/bkmail/imap/mailbox_info.h.
pub mod RoundTrip
use Prim.Native.Nat.{bit_and}
use bkmail.Prelude.{
  ℕ, ◌+◌, ◌^◌, Bool, true, false, ◌&&◌, not, List, [], ◌∷◌, ◌++◌, Option, none, some, ltb, leb,
  ◌==◌, if◌then◌else◌, Bytes, codes, length, take, drop, is_empty, take_while, drop_while,
}
use bkmail.Astring.{ascii_iequals, is_digit}
use bkmail.Astring.Decimal.{decimal, from_chars}
use bkmail.Cursor.{skip_spaces}
use bkmail.Select.{append_arg}
use bkmail.Response.{ResponseStatus, UntaggedKind, UntaggedResponse}
use bkmail.Error.{ErrorCode, map_status_to_ec}
use bkmail.Line.{LineCommand, deliver}
use bkmail.Rows.{words, emit, is_open_count, octets, count_of}

-- `status_items`, a mask in a byte: messages 1, recent 2, uid_next 4, uid_validity 8, unseen 16.
unfoldable pub has_status_item : ℕ → ℕ → Bool
has_status_item set flag = bit_and set flag == flag

-- `mailbox_status`.
pub record MailboxStatus : Type 0 where
  pub messages : Option ℕ
  pub recent : Option ℕ
  pub uid_next : Option ℕ
  pub uid_validity : Option ℕ
  pub unseen : Option ℕ

abbrev pub new_status : MailboxStatus
new_status = record {
  messages = none;
  recent = none;
  uid_next = none;
  uid_validity = none;
  unseen = none;
}

unfoldable pub append_items : ℕ → Bytes
unfolding has_status_item
append_items items =
    (emit (has_status_item items 16) (codes "UNSEEN") (
      emit (has_status_item items 8) (codes "UIDVALIDITY") (
        emit (has_status_item items 4) (codes "UIDNEXT") (
          emit (has_status_item items 2) (codes "RECENT")
            (emit (has_status_item items 1) (codes "MESSAGES") (true, [])))))).1

abbrev pub wants_status : UntaggedKind → Bool
wants_status UntaggedKind.status = true
wants_status _ = false

unfoldable pub status_line : Bytes → ℕ → LineCommand
unfolding append_arg append_items
status_line mailbox items = record {
  line = λ tag.
      tag
      ++ (codes " STATUS "
          ++ (append_arg mailbox ++ (codes " (" ++ (append_items items ++ codes ")\r\n"))));
  rearms = false;
  blocks = false;
  wants = wants_status;
  reply = map_status_to_ec;
}

-- `skip_quoted`, behind the opening quote.
unfoldable pub skip_quoted : Bytes → Bytes
skip_quoted [] = []
skip_quoted (c ∷ []) = []
skip_quoted (c ∷ d ∷ cs) =
    let escape = skip_quoted cs in
    let plain = skip_quoted (d ∷ cs) in
    if c == b'"' then d ∷ cs else if c == b'\\' then escape else plain

-- `skip_literal`, behind the opening brace.
unfoldable pub skip_literal : Bytes → Bytes
unfolding from_chars
skip_literal text =
    let rest = drop_while is_open_count text in
    if is_empty rest
    then []
    else (octets (count_of (take_while is_open_count text)) (drop 1 rest)).1

abbrev pub is_name_char : ℕ → Bool
is_name_char c = not (c == b' ') && not (c == b'(')

unfoldable pub skip_string : Bytes → Bytes
unfolding skip_quoted skip_literal
skip_string [] = []
skip_string (c ∷ cs) =
    if c == b'"'
    then skip_quoted cs
    else if c == b'{'
    then skip_literal cs
    else drop_while is_name_char (c ∷ cs)

-- `std::from_chars` into 32 bits: the digits in front.
unfoldable pub value_of : Bytes → Option ℕ
unfolding decimal
value_of number =
    let digits = take_while is_digit number in
    if is_empty digits
    then none
    else if ltb (decimal 0 digits) (2 ^ 32)
    then some (decimal 0 digits)
    else none

unfoldable pub apply_value : Bytes → Option ℕ → MailboxStatus → MailboxStatus
unfolding ascii_iequals
apply_value name none status = status
apply_value name (some value) status =
    if ascii_iequals name (codes "MESSAGES")
    then record status { messages = some value }
    else if ascii_iequals name (codes "RECENT")
    then record status { recent = some value }
    else if ascii_iequals name (codes "UIDNEXT")
    then record status { uid_next = some value }
    else if ascii_iequals name (codes "UIDVALIDITY")
    then record status { uid_validity = some value }
    else if ascii_iequals name (codes "UNSEEN")
    then record status { unseen = some value }
    else status

unfoldable pub apply_pair : Bytes → Bytes → MailboxStatus → MailboxStatus
unfolding value_of apply_value
apply_pair name number status = apply_value name (value_of number) status

-- A name without a number ends the loop.
unfoldable pub apply_pairs : List Bytes → MailboxStatus → MailboxStatus
unfolding apply_pair
apply_pairs [] status = status
apply_pairs (name ∷ []) status = status
apply_pairs (name ∷ number ∷ rest) status = apply_pairs rest (apply_pair name number status)

abbrev pub is_inside : ℕ → Bool
is_inside c = not (c == b')')

-- From the opening parenthesis; without the closing one the status stays.
unfoldable pub parse_pairs : Bytes → MailboxStatus → MailboxStatus
unfolding words apply_pairs
parse_pairs [] status = status
parse_pairs (c ∷ text) status =
    if not (c == b'(')
    then status
    else if is_empty (drop_while is_inside text)
    then status
    else apply_pairs (words (take_while is_inside text)) new_status

unfoldable pub parse_row : Bytes → MailboxStatus → MailboxStatus
unfolding skip_string parse_pairs
parse_row text status = parse_pairs (skip_spaces (skip_string text)) status

unfoldable pub on_untagged : UntaggedResponse → MailboxStatus → MailboxStatus
unfolding parse_row
on_untagged r status = if wants_status r.kind then parse_row r.payload status else status

unfoldable pub on_tagged : ResponseStatus → MailboxStatus → ErrorCode × Option MailboxStatus
on_tagged reply status = deliver reply status
