-- ===== src/Fetch/Header.antt =====
-- include/bkmail/common/mail_header.h, and `parse_mail_header_block` of fetch_parse.h.
use bkmail.Prelude.{
  ℕ, zero, suc, Bool, ◌||◌, List, [], ◌∷◌, ◌++◌, Option, none, some, ◌==◌, if◌then◌else◌, Bytes,
  codes, length, is_empty, drop_while, reverse,
}
use bkmail.Astring.{ascii_iequals}
use bkmail.Fetch.Envelope.{Address}
use bkmail.Fetch.Addresses.{parse_rfc5322_addresses, split_first}

pub record MailHeader : Type 0 where
  pub subject : Bytes
  pub from : List Address
  pub to : List Address
  pub cc : List Address
  pub bcc : List Address
  pub date : Bytes
  pub message_id : Bytes
  pub in_reply_to : Bytes

abbrev pub empty_header : MailHeader
empty_header = record {
  subject = [];
  from = [];
  to = [];
  cc = [];
  bcc = [];
  date = [];
  message_id = [];
  in_reply_to = [];
}

abbrev is_blank : ℕ → Bool
is_blank c = c == b' ' || c == b'\t'

unfoldable pub trim_end : Bytes → Bytes
trim_end v = reverse (drop_while is_blank (reverse v))

-- `assign_field`, with the value trimmed. An address field adds to the list that is there.
set_field : Bytes → Bytes → MailHeader → MailHeader
unfolding ascii_iequals parse_rfc5322_addresses
set_field name value h =
    if ascii_iequals name (codes "Subject")
    then record h { subject = value }
    else if ascii_iequals name (codes "Date")
    then record h { date = value }
    else if ascii_iequals name (codes "Message-ID")
    then record h { message_id = value }
    else if ascii_iequals name (codes "In-Reply-To")
    then record h { in_reply_to = value }
    else if ascii_iequals name (codes "From")
    then record h { from = h.from ++ parse_rfc5322_addresses value }
    else if ascii_iequals name (codes "To")
    then record h { to = h.to ++ parse_rfc5322_addresses value }
    else if ascii_iequals name (codes "Cc")
    then record h { cc = h.cc ++ parse_rfc5322_addresses value }
    else if ascii_iequals name (codes "Bcc")
    then record h { bcc = h.bcc ++ parse_rfc5322_addresses value }
    else h

unfoldable pub assign_field : Bytes → Bytes → MailHeader → MailHeader
unfolding set_field trim_end
assign_field name value h = set_field name (trim_end value) h

-- The field that is being collected, and the header so far.
pub record HeaderState : Type 0 where
  pub name : Bytes
  pub value : Bytes
  pub header : MailHeader

unfoldable pub flush : HeaderState → HeaderState
unfolding assign_field
flush s = record {
  name = [];
  value = [];
  header = if is_empty s.name then s.header else assign_field s.name s.value s.header;
}

abbrev drop_cr : Bytes → Bytes
drop_cr [] = []
drop_cr (c ∷ []) = if c == b'\r' then [] else c ∷ []
drop_cr (c ∷ d ∷ cs) = c ∷ drop_cr (d ∷ cs)

-- A value of blanks only is left as it is.
abbrev lead_trimmed : Bytes → Bytes
lead_trimmed v = if is_empty (drop_while is_blank v) then v else drop_while is_blank v

field_line : Option (Bytes × Bytes) → HeaderState → HeaderState
field_line none s = s
field_line (some (name, value)) s = record s { name = name; value = lead_trimmed value }

-- One line without its end: the end of a field, a continuation, or a new field.
unfoldable pub header_line : Bytes → HeaderState → HeaderState
unfolding flush field_line split_first
header_line [] s = flush s
header_line (c ∷ cs) s =
    if is_blank c
    then record s { value = s.value ++ b' ' ∷ drop_while is_blank (c ∷ cs) }
    else field_line (split_first b':' (c ∷ cs)) (flush s)

abbrev first_line : Bytes → Option (Bytes × Bytes) → Bytes × Bytes
first_line block none = (block, [])
first_line block (some (line, rest)) = (line, rest)

-- Every round takes a line with its end, or the rest.
unfoldable pub header_lines : ℕ → Bytes → HeaderState → HeaderState
unfolding header_line split_first
header_lines zero block s = s
header_lines (suc fuel) block s =
    let (line, rest) = first_line block (split_first b'\n' block) in
    let next = header_lines fuel rest (header_line (drop_cr line) s) in
    if is_empty block then s else next

unfoldable pub parse_mail_header_block : Bytes → MailHeader → MailHeader
unfolding header_lines flush
parse_mail_header_block block h =
    (flush (
      header_lines (suc (length block)) block
        (record { name = []; value = []; header = h }))).header
