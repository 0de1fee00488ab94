-- ===== src/Append.antt =====
-- include/bkmail/imap/command/append_command.h: the rendering of a mail and of the command's two
-- segments. How the segments are handed out is Command/Segmented.
pub mod Literal
use bkmail.Prelude.{
  ℕ, Bool, true, false, List, [], ◌∷◌, ◌++◌, if◌then◌else◌, Bytes, codes, length, is_empty,
}
use bkmail.Astring.Decimal.{to_chars}
use bkmail.Flags.{FlagSet, seen, answered, flagged, deleted, draft, recent, test, any}
use bkmail.Select.{escaped_arg}
use bkmail.Select
use bkmail.Fetch.Envelope.{Address, email}
use bkmail.Fetch.Header.{MailHeader}
use bkmail.FetchCommand.Message.{Mail}
use bkmail.Command.Segmented.{SegmentedCommand}
use bkmail.Line.{wants_none}
use bkmail.Rows.{emit}

-- `put_field`.
abbrev pub put_field : Bytes → Bytes → Bytes
put_field name value =
    if is_empty value then [] else name ++ (codes ": " ++ (value ++ codes "\r\n"))

-- The display name is not escaped.
unfoldable pub address_text : Address → Bytes
unfolding email
address_text addr =
    if is_empty addr.display_name
    then email addr
    else b'"' ∷ (addr.display_name ++ (codes "\" <" ++ (email addr ++ codes ">")))

unfoldable pub addresses_text : List Address → Bytes
unfolding address_text
addresses_text [] = []
addresses_text (addr ∷ []) = address_text addr
addresses_text (addr ∷ next ∷ addrs) =
    address_text addr ++ (codes ", " ++ addresses_text (next ∷ addrs))

-- `put_addresses`.
abbrev pub put_addresses : Bytes → List Address → Bytes
put_addresses name addrs =
    if is_empty addrs then [] else name ++ (codes ": " ++ (addresses_text addrs ++ codes "\r\n"))

unfoldable pub render_mail : Mail → Bytes
unfolding addresses_text
render_mail m =
    put_field (codes "Subject") m.header.subject
    ++ (put_addresses (codes "From") m.header.from
        ++ (put_addresses (codes "To") m.header.to
            ++ (put_addresses (codes "Cc") m.header.cc
                ++ (put_addresses (codes "Bcc") m.header.bcc
                    ++ (put_field (codes "Date") m.header.date
                        ++ (put_field (codes "Message-ID") m.header.message_id
                            ++ (put_field (codes "In-Reply-To") m.header.in_reply_to
                                ++ (put_field (codes "Content-Type") m.content_type
                                    ++ (codes "\r\n" ++ m.body)))))))))

unfoldable pub append_flags : FlagSet → Bytes
unfolding test
append_flags flags =
    codes " ("
    ++ ((emit (test seen flags) (codes "\\Seen") (
          emit (test recent flags) (codes "\\Recent") (
            emit (test flagged flags) (codes "\\Flagged") (
              emit (test draft flags) (codes "\\Draft") (
                emit (test deleted flags) (codes "\\Deleted")
                  (emit (test answered flags) (codes "\\Answered") (true, []))))))).1
        ++ codes ")")

pub record AppendArguments : Type 0 where
  pub mailbox : Bytes
  pub message : Bytes
  pub flags : FlagSet
  pub date_time : Bytes
  pub literal_plus : Bool

abbrev pub date_text : Bytes → Bytes
date_text date_time = if is_empty date_time then [] else b' ' ∷ b'"' ∷ escaped_arg date_time

abbrev pub literal_head : Bool → Bytes → Bytes
literal_head literal_plus message =
    b'{'
    ∷ (to_chars (length message) ++ ((if literal_plus then b'+' ∷ [] else []) ++ codes "}\r\n"))

-- The first segment, up to the announcement of the literal.
unfoldable pub head_segment : AppendArguments → Bytes → Bytes
unfolding append_flags Select.append_arg escaped_arg any
head_segment a tag =
    tag
    ++ (codes " APPEND "
        ++ (Select.append_arg a.mailbox
            ++ ((if any a.flags then append_flags a.flags else [])
                ++ (date_text a.date_time ++ b' ' ∷ literal_head a.literal_plus a.message))))

-- `render`.
unfoldable pub append_command : AppendArguments → Bytes → SegmentedCommand
unfolding head_segment
append_command a tag = record {
  segments = head_segment a tag ∷ (a.message ++ codes "\r\n") ∷ [];
  emitted = 0;
  unlocked = if a.literal_plus then 2 else 1;
  blocks = false;
  wants = wants_none;
}
