-- ===== src/Fetch/Envelope.antt =====
-- include/bkmail/common/address.h and envelope.h, and their parsers in fetch_parse.h.
pub mod Members
pub mod Rendered
use bkmail.Prelude.{
  ℕ, suc, Bool, true, false, List, [], ◌∷◌, ◌++◌, Option, none, some, if◌then◌else◌, Bytes, length,
  is_empty,
}
use bkmail.Cursor.{try_consume, skip_spaces}
use bkmail.Cursor.Monad.{Reader, ◌>>=◌, ◌>>◌, return}
use bkmail.Fetch.Loop.{until_close, token, spaces}
use bkmail.Fetch.Value.{consume_nil, read_nstr}

pub record Address : Type 0 where
  pub display_name : Bytes
  pub adl : Bytes
  pub mailbox_name : Bytes
  pub host_name : Bytes

-- `email()`.
unfoldable pub email : Address → Bytes
email a = if is_empty a.host_name then a.mailbox_name else a.mailbox_name ++ b'@' ∷ a.host_name

pub record Envelope : Type 0 where
  pub date : Bytes
  pub subject : Bytes
  pub from : List Address
  pub sender : List Address
  pub reply_to : List Address
  pub to : List Address
  pub cc : List Address
  pub bcc : List Address
  pub in_reply_to : Bytes
  pub message_id : Bytes

unfoldable pub address_item : List Address → Reader (List Address)
unfolding read_nstr
address_item found = do
  token b'('
  display_name ← read_nstr []
  spaces
  adl ← read_nstr []
  spaces
  mailbox_name ← read_nstr []
  spaces
  host_name ← read_nstr []
  token b')'
  return (
      found
      ++ record {
        display_name = display_name;
        adl = adl;
        mailbox_name = mailbox_name;
        host_name = host_name;
      }
        ∷ [])

unfoldable pub address_tuples : List Address → Reader (List Address)
unfolding until_close address_item
address_tuples found cs = until_close (suc (length cs)) address_item found cs

unfoldable pub parse_address_list : List Address → Reader (List Address)
unfolding consume_nil address_tuples
parse_address_list found cs =
    let (empty, rest) = consume_nil cs in
    let tuples = (token b'(' >> address_tuples found) rest in
    if empty then (some found, rest) else tuples

abbrev pub empty_envelope : Envelope
empty_envelope = record {
  date = [];
  subject = [];
  from = [];
  sender = [];
  reply_to = [];
  to = [];
  cc = [];
  bcc = [];
  in_reply_to = [];
  message_id = [];
}

-- The fields are filled in one after the other, from those that are there.
unfoldable pub parse_envelope : Envelope → Reader Envelope
unfolding read_nstr parse_address_list
parse_envelope e = do
  token b'('
  date ← read_nstr e.date
  spaces
  subject ← read_nstr e.subject
  spaces
  from ← parse_address_list e.from
  spaces
  sender ← parse_address_list e.sender
  spaces
  reply_to ← parse_address_list e.reply_to
  spaces
  to ← parse_address_list e.to
  spaces
  cc ← parse_address_list e.cc
  spaces
  bcc ← parse_address_list e.bcc
  spaces
  in_reply_to ← read_nstr e.in_reply_to
  spaces
  message_id ← read_nstr e.message_id
  token b')'
  return (record {
    date = date;
    subject = subject;
    from = from;
    sender = sender;
    reply_to = reply_to;
    to = to;
    cc = cc;
    bcc = bcc;
    in_reply_to = in_reply_to;
    message_id = message_id;
  })
