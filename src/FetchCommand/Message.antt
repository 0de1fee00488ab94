-- ===== src/FetchCommand/Message.antt =====
-- include/bkmail/imap/command/fetch_message_command.h with its twin for UIDs, and `mail` of
-- include/bkmail/common/mail.h and mail_body.h. The `envelope` of a mail is left out: no command here
-- reads or sets it.
pub mod Split
use bkmail.Prelude.{
  ℕ, Bool, true, false, ◌&&◌, List, [], ◌∷◌, ◌++◌, Option, none, some, ◌==◌, if◌then◌else◌, Bytes,
  codes,
}
use bkmail.Response.{UntaggedResponse}
use bkmail.Line.{LineCommand}
use bkmail.Fetch.Attributes.{parse_body_section_attribute}
use bkmail.Fetch.Header.{MailHeader, empty_header, parse_mail_header_block}
use bkmail.FetchCommand.{wants_fetch, fetch_word, fetch_class, push_some}

pub record Mail : Type 0 where
  pub header : MailHeader
  pub content_type : Bytes
  pub body : Bytes

unfoldable pub message_line : Bytes → LineCommand
message_line seq_set =
    fetch_class (λ tag. tag ++ (fetch_word false ++ (seq_set ++ codes " (BODY.PEEK[])\r\n")))

unfoldable pub uid_message_line : Bytes → LineCommand
uid_message_line uid_set =
    fetch_class (λ tag. tag ++ (fetch_word true ++ (uid_set ++ codes " (BODY.PEEK[])\r\n")))

abbrev pub starts : Bytes → Bytes → Option Bytes
starts [] text = some text
starts (p ∷ ps) [] = none
starts (p ∷ ps) (c ∷ cs) = if c == p then starts ps cs else none

abbrev pub in_front : ℕ → Option (Bytes × Bytes) → Option (Bytes × Bytes)
in_front c none = none
in_front c (some (front, rest)) = some (c ∷ front, rest)

abbrev pub or_later : Option Bytes → Option (Bytes × Bytes) → Option (Bytes × Bytes)
or_later none later = later
or_later (some rest) later = some ([], rest)

-- `text.find(mark)`: what stands in front of the first occurrence and what behind it.
unfoldable pub find : Bytes → Bytes → Option (Bytes × Bytes)
find mark [] = or_later (starts mark []) none
find mark (c ∷ cs) = or_later (starts mark (c ∷ cs)) (in_front c (find mark cs))

abbrev split_lf : Bytes → Option (Bytes × Bytes) → Bytes × Bytes
split_lf text none = (text, [])
split_lf text (some parts) = parts

-- The header block and the body. Without an empty line the whole text is the header block.
unfoldable pub split_message : Bytes → Option (Bytes × Bytes) → Bytes × Bytes
unfolding find
split_message text none = split_lf text (find (codes "\n\n") text)
split_message text (some parts) = parts

unfoldable pub mail_of : Bytes → Mail
unfolding split_message parse_mail_header_block
mail_of text =
    let (header_block, body_block) = split_message text (find (codes "\r\n\r\n") text) in
    record {
      header = parse_mail_header_block header_block empty_header;
      content_type = [];
      body = body_block;
    }

abbrev pub message_of : Option (Option Bytes) → Option Mail
message_of (some (some text)) = some (mail_of text)
message_of _ = none

unfoldable pub absorb_message : UntaggedResponse → List Mail → List Mail
unfolding parse_body_section_attribute mail_of
absorb_message r collected =
    if wants_fetch r.kind
    then push_some collected (message_of (parse_body_section_attribute (codes "BODY[]") r.payload))
    else collected

-- uid_fetch_message_command.h has the same text.
unfoldable pub uid_absorb_message : UntaggedResponse → List Mail → List Mail
unfolding absorb_message
uid_absorb_message r collected = absorb_message r collected
