-- ===== src/Select.antt =====
-- include/bkmail/imap/command/select_command.h and examine_command.h, which differ in the keyword and in
-- the default of read_only.
pub mod Snapshot
pub mod Wire
use bkmail.Prelude.{
  ℕ, zero, suc, ◌+◌, ◌%◌, ◌^◌, Bool, true, false, ◌&&◌, ◌||◌, not, List, [], ◌∷◌, ◌++◌, Option,
  none, some, ◌==◌, ltb, leb, if◌then◌else◌, Bytes, codes, length, is_empty, all, take_while,
  drop_while,
}
use bkmail.Astring.{ascii_iequals}
use bkmail.Flags.{FlagSet, empty_flags, set, seen, answered, flagged, deleted, draft, recent}
use bkmail.Response.{
  ResponseStatus, UntaggedKind, ResponseCode, uidvalidity_code, uidnext_code, unseen_code,
  permanentflags_code, read_only_code, read_write_code, UntaggedResponse,
}
use bkmail.Error.{ErrorCode, map_status_to_ec, is_error}
use bkmail.Session.{MailboxInfo}

-- `select_command`, with whether it is `examine_command`.
pub record SelectCommand : Type 0 where
  pub examine : Bool
  pub mailbox : Bytes
  pub wire : Bytes
  pub emitted : Bool
  pub exists : ℕ
  pub recent : ℕ
  pub unseen : Option ℕ
  pub uid_validity : ℕ
  pub uid_next : ℕ
  pub flags : FlagSet
  pub permanent_flags : FlagSet

abbrev pub new_select : Bool → Bytes → SelectCommand
new_select examine mailbox = record {
  examine = examine;
  mailbox = mailbox;
  wire = [];
  emitted = false;
  exists = 0;
  recent = 0;
  unseen = none;
  uid_validity = 0;
  uid_next = 0;
  flags = empty_flags;
  permanent_flags = empty_flags;
}

abbrev pub is_arg_special : ℕ → Bool
is_arg_special c = c == b'"' || c == b'\\'

abbrev pub is_safe : ℕ → Bool
is_safe c = not (
    ltb c 32
    || (leb 127 c
        || (c == b'('
            || c == b')'
            || c == b'{'
            || c == b' '
            || c == b'%'
            || c == b'*'
            || c == b'"'
            || c == b'\\'
            || c == b']')))

unfoldable pub atom_safe : Bytes → Bool
atom_safe v = not (is_empty v) && all is_safe v

unfoldable pub escaped_arg : Bytes → Bytes
escaped_arg [] = b'"' ∷ []
escaped_arg (c ∷ cs) =
    let rest = c ∷ escaped_arg cs in if is_arg_special c then b'\\' ∷ rest else rest

-- What `append_arg` appends to the line.
unfoldable pub append_arg : Bytes → Bytes
unfolding atom_safe escaped_arg
append_arg v = if atom_safe v then v else b'"' ∷ escaped_arg v

unfoldable pub render : Bytes → SelectCommand → SelectCommand
unfolding append_arg
render tag s = record s {
  wire =
      tag
      ++ ((if s.examine then codes " EXAMINE " else codes " SELECT ")
          ++ (append_arg s.mailbox ++ codes "\r\n"));
}

unfoldable pub next_segment : SelectCommand → Bytes
next_segment s = if s.emitted then [] else s.wire

unfoldable pub on_segment_flushed : SelectCommand → SelectCommand
on_segment_flushed s = record s { emitted = true }

unfoldable pub add_flag : Bytes → FlagSet → FlagSet
unfolding set ascii_iequals
add_flag [] out = out
add_flag (c ∷ atom) out =
    if not (c == b'\\')
    then out
    else if ascii_iequals atom (codes "Seen")
    then set seen true out
    else if ascii_iequals atom (codes "Answered")
    then set answered true out
    else if ascii_iequals atom (codes "Flagged")
    then set flagged true out
    else if ascii_iequals atom (codes "Deleted")
    then set deleted true out
    else if ascii_iequals atom (codes "Draft")
    then set draft true out
    else if ascii_iequals atom (codes "Recent")
    then set recent true out
    else out

abbrev pub is_word_char : ℕ → Bool
is_word_char c = not (c == b' ')

abbrev past_space : (Bytes → FlagSet → FlagSet) → Bytes → FlagSet → FlagSet
past_space again [] out = out
past_space again (space ∷ body) out = again body out

-- Every round takes a character of the body.
unfoldable pub flag_words : ℕ → Bytes → FlagSet → FlagSet
unfolding add_flag
flag_words zero body out = out
flag_words (suc fuel) [] out = out
flag_words (suc fuel) (c ∷ cs) out =
    past_space (flag_words fuel) (drop_while is_word_char (c ∷ cs))
      (add_flag (take_while is_word_char (c ∷ cs)) out)

abbrev is_close : ℕ → Bool
is_close c = c == b')'

-- Behind the opening parenthesis: the body, if a closing one follows.
unfoldable pub flag_body : Bytes → FlagSet → FlagSet
unfolding flag_words
flag_body [] out = out
flag_body (open_mark ∷ text) out =
    let body = take_while (λ c. not (is_close c)) text in
    if is_empty (drop_while (λ c. not (is_close c)) text)
    then out
    else flag_words (suc (length body)) body out

unfoldable pub parse_flag_list : Bytes → FlagSet → FlagSet
unfolding flag_body
parse_flag_list text out = flag_body (drop_while (λ c. not (c == b'(')) text) out

unfoldable pub apply_ok_code : Option ResponseCode → SelectCommand → SelectCommand
apply_ok_code (some (uidvalidity_code value)) s = record s { uid_validity = value }
apply_ok_code (some (uidnext_code value)) s = record s { uid_next = value }
apply_ok_code (some (unseen_code value)) s = record s { unseen = some value }
apply_ok_code (some (permanentflags_code flags)) s = record s { permanent_flags = flags }
apply_ok_code _ s = s

-- `on_untagged` on the kind, the number, the code and the payload of the response.
unfoldable pub absorb :
    UntaggedKind → ℕ → Option ResponseCode → Bytes → SelectCommand → SelectCommand
unfolding parse_flag_list apply_ok_code
absorb UntaggedKind.exists number code payload s = record s { exists = number % 2 ^ 32 }
absorb UntaggedKind.recent number code payload s = record s { recent = number % 2 ^ 32 }
absorb UntaggedKind.flags number code payload s = record s {
  flags = parse_flag_list payload s.flags;
}
absorb UntaggedKind.ok number code payload s = apply_ok_code code s
absorb _ number code payload s = s

unfoldable pub on_untagged : UntaggedResponse → SelectCommand → SelectCommand
unfolding absorb
on_untagged r s = absorb r.kind r.number r.code r.payload s

-- Without the code that says otherwise, SELECT is read-write and EXAMINE read-only.
unfoldable pub is_read_only : Bool → Option ResponseCode → Bool
is_read_only false (some read_only_code) = true
is_read_only false _ = false
is_read_only true (some read_write_code) = false
is_read_only true _ = true

unfoldable pub snapshot_of : Option ResponseCode → SelectCommand → MailboxInfo
unfolding is_read_only
snapshot_of code s = record {
  name = s.mailbox;
  exists = s.exists;
  recent = s.recent;
  unseen = s.unseen;
  uid_validity = s.uid_validity;
  uid_next = s.uid_next;
  flags = s.flags;
  permanent_flags = s.permanent_flags;
  read_only = is_read_only s.examine code;
}

-- The error code, and the result unless it stays as the caller made it.
unfoldable pub on_tagged :
    ResponseStatus → Option ResponseCode → SelectCommand → ErrorCode × Option MailboxInfo
unfolding snapshot_of
on_tagged status code s =
    let ec = map_status_to_ec status in
    (ec, if is_error ec then none else some (snapshot_of code s))
