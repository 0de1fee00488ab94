-- ===== src/FetchCommand.antt =====
-- include/bkmail/imap/command/fetch_command.h, fetch_envelopes_command.h and fetch_headers_command.h, with
-- their twins for UIDs, which differ in the word UID.
pub mod Message
pub mod Request
use bkmail.Prelude.{
  ℕ, Bool, true, false, List, [], ◌∷◌, ◌++◌, Option, none, some, ◌==◌, if◌then◌else◌, Bytes, codes,
}
use bkmail.Astring.{render_astring}
use bkmail.Response.{ResponseStatus, UntaggedKind, UntaggedResponse}
use bkmail.Error.{ErrorCode, map_status_to_ec}
use bkmail.Line.{LineCommand, deliver}
use bkmail.FetchItems.{
  FetchItems, Section, envelope, body_structure, flags, uid, internal_date, rfc822_size, test,
}
use bkmail.Fetch.Attributes.{
  MessageAttributes, parse_fetch_attributes, parse_envelope_attribute, parse_body_section_attribute,
}
use bkmail.Fetch.Envelope.{Envelope}
use bkmail.Fetch.Header.{MailHeader, empty_header, parse_mail_header_block}

abbrev pub wants_fetch : UntaggedKind → Bool
wants_fetch UntaggedKind.fetch = true
wants_fetch _ = false

abbrev pub fetch_word : Bool → Bytes
fetch_word by_uid = if by_uid then codes " UID FETCH " else codes " FETCH "

abbrev pub fetch_class : (Bytes → Bytes) → LineCommand
fetch_class line = record {
  line = line;
  rearms = true;
  blocks = false;
  wants = wants_fetch;
  reply = map_status_to_ec;
}

abbrev pub item_text : Bool → Bytes → Bytes
item_text selected name = if selected then name ++ b' ' ∷ [] else []

unfoldable pub section_texts : List Section → Bytes
section_texts [] = []
section_texts (sec ∷ sections) =
    (if sec.peek then codes "BODY.PEEK[" else codes "BODY[")
    ++ (sec.specifier ++ (codes "] " ++ section_texts sections))

-- Each name with a space behind it.
unfoldable pub append_items : FetchItems → Bytes
unfolding test section_texts
append_items items =
    item_text (test envelope items) (codes "ENVELOPE")
    ++ (item_text (test body_structure items) (codes "BODYSTRUCTURE")
        ++ (item_text (test flags items) (codes "FLAGS")
            ++ (item_text (test uid items) (codes "UID")
                ++ (item_text (test internal_date items) (codes "INTERNALDATE")
                    ++ (item_text (test rfc822_size items) (codes "RFC822.SIZE")
                        ++ section_texts items.sections)))))

-- `if (line_.back() == ' ') line_.pop_back()`.
unfoldable pub trim_space : Bytes → Bytes
trim_space [] = []
trim_space (c ∷ []) = if c == b' ' then [] else c ∷ []
trim_space (c ∷ d ∷ cs) = c ∷ trim_space (d ∷ cs)

abbrev pub items_line : Bool → Bytes → FetchItems → Bytes → Bytes
items_line by_uid set items tag =
    trim_space (tag ++ (fetch_word by_uid ++ (set ++ (codes " (" ++ append_items items))))
    ++ codes ")\r\n"

unfoldable pub fetch_line : Bytes → FetchItems → LineCommand
unfolding append_items trim_space
fetch_line seq_set items = fetch_class (items_line false seq_set items)

unfoldable pub uid_fetch_line : Bytes → FetchItems → LineCommand
unfolding append_items trim_space
uid_fetch_line uid_set items = fetch_class (items_line true uid_set items)

abbrev pub push_some {ℓ} : {A : Type ℓ} → List A → Option A → List A
push_some collected none = collected
push_some collected (some a) = collected ++ a ∷ []

unfoldable pub on_untagged : UntaggedResponse → List MessageAttributes → List MessageAttributes
unfolding parse_fetch_attributes
on_untagged r collected =
    if wants_fetch r.kind then push_some collected (parse_fetch_attributes r.payload) else collected

-- uid_fetch_command.h has the same text.
unfoldable pub uid_on_untagged : UntaggedResponse → List MessageAttributes → List MessageAttributes
unfolding on_untagged
uid_on_untagged r collected = on_untagged r collected

unfoldable pub on_tagged :
    ResponseStatus → List MessageAttributes → ErrorCode × Option (List MessageAttributes)
on_tagged status collected = deliver status collected

unfoldable pub envelopes_line : Bytes → LineCommand
envelopes_line seq_set =
    fetch_class (λ tag. tag ++ (fetch_word false ++ (seq_set ++ codes " (ENVELOPE)\r\n")))

unfoldable pub uid_envelopes_line : Bytes → LineCommand
uid_envelopes_line uid_set =
    fetch_class (λ tag. tag ++ (fetch_word true ++ (uid_set ++ codes " (ENVELOPE)\r\n")))

unfoldable pub absorb_envelope : UntaggedResponse → List Envelope → List Envelope
unfolding parse_envelope_attribute
absorb_envelope r collected =
    if wants_fetch r.kind
    then push_some collected (parse_envelope_attribute r.payload)
    else collected

-- uid_fetch_envelopes_command.h has the same text.
unfoldable pub uid_absorb_envelope : UntaggedResponse → List Envelope → List Envelope
unfolding absorb_envelope
uid_absorb_envelope r collected = absorb_envelope r collected

-- The fields with a space between two.
unfoldable pub header_fields : List Bytes → Bytes
unfolding render_astring
header_fields [] = []
header_fields (field ∷ []) = render_astring field
header_fields (field ∷ next ∷ fields) = render_astring field ++ b' ' ∷ header_fields (next ∷ fields)

abbrev pub headers_text : Bool → Bytes → List Bytes → Bytes → Bytes
headers_text by_uid set fields tag =
    tag
    ++ (fetch_word by_uid
        ++ (set
            ++ (codes " (BODY.PEEK[HEADER.FIELDS (" ++ (header_fields fields ++ codes ")])\r\n"))))

unfoldable pub headers_line : Bytes → List Bytes → LineCommand
unfolding header_fields
headers_line seq_set fields = fetch_class (headers_text false seq_set fields)

unfoldable pub uid_headers_line : Bytes → List Bytes → LineCommand
unfolding header_fields
uid_headers_line uid_set fields = fetch_class (headers_text true uid_set fields)

-- A missing section or a NIL is no header.
abbrev pub header_of : Option (Option Bytes) → Option MailHeader
header_of (some (some block)) = some (parse_mail_header_block block empty_header)
header_of _ = none

unfoldable pub absorb_header : UntaggedResponse → List MailHeader → List MailHeader
unfolding parse_body_section_attribute parse_mail_header_block
absorb_header r collected =
    if wants_fetch r.kind
    then push_some collected
        (header_of (parse_body_section_attribute (codes "BODY[HEADER.FIELDS") r.payload))
    else collected

-- uid_fetch_headers_command.h has the same text.
unfoldable pub uid_absorb_header : UntaggedResponse → List MailHeader → List MailHeader
unfolding absorb_header
uid_absorb_header r collected = absorb_header r collected
