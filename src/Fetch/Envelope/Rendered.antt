-- ===== src/Fetch/Envelope/Rendered.antt =====
-- `parse_envelope` of fetch_parse.h against the ENVELOPE of RFC 3501, with quoted strings and NIL.
use bkmail.Prelude.{◌≡◌, refl, true, ◌∷◌, ◌++◌, some, Bytes, all, All}
use bkmail.Cursor.RoundTrip.{is_quotable}
use bkmail.Fetch.Envelope.{Envelope, empty_envelope, parse_envelope}
use bkmail.Fetch.Envelope.Members.{
  render_nstr, render_addresses, IsAddress, read_nstr-render_nstr, skip_spaces-render_nstr,
  skip_spaces-render_addresses, space-Stops, close-Stops, parse_address_list-render_addresses,
}

unfoldable pub render_envelope : Envelope → Bytes → Bytes
unfolding render_addresses render_nstr
render_envelope e rest =
    b'('
    ∷ (render_nstr e.date
        ++ b' '
          ∷ (render_nstr e.subject
              ++ b' '
                ∷ render_addresses e.from (
                    b' '
                    ∷ render_addresses e.sender (
                        b' '
                        ∷ render_addresses e.reply_to (
                            b' '
                            ∷ render_addresses e.to (
                                b' '
                                ∷ render_addresses e.cc (
                                    b' '
                                    ∷ render_addresses e.bcc (
                                        b' '
                                        ∷ (render_nstr e.in_reply_to
                                            ++ b' '
                                              ∷ (render_nstr e.message_id ++ b')' ∷ rest))))))))))

pub record IsEnvelope (e : Envelope) : Type 0 where
  pub date : all is_quotable e.date ≡ true
  pub subject : all is_quotable e.subject ≡ true
  pub from : All IsAddress e.from
  pub sender : All IsAddress e.sender
  pub reply_to : All IsAddress e.reply_to
  pub to : All IsAddress e.to
  pub cc : All IsAddress e.cc
  pub bcc : All IsAddress e.bcc
  pub in_reply_to : all is_quotable e.in_reply_to ≡ true
  pub message_id : all is_quotable e.message_id ≡ true

-- `parse_envelope` takes back every envelope from its ten fields in quoted strings, with NIL for what is
-- empty, whatever follows it, if no field and no member of an address holds CR or LF.
pub parse_envelope-render_envelope :
    (e : Envelope) (rest : Bytes)
    → IsEnvelope e
    → parse_envelope empty_envelope (render_envelope e rest) ≡ (some e, rest)
unfolding parse_envelope render_envelope
parse_envelope-render_envelope e rest v =
    let close = b')' ∷ rest in
    let t9 = render_nstr e.message_id ++ close in
    let t8 = render_nstr e.in_reply_to ++ b' ' ∷ t9 in
    let t7 = render_addresses e.bcc (b' ' ∷ t8) in
    let t6 = render_addresses e.cc (b' ' ∷ t7) in
    let t5 = render_addresses e.to (b' ' ∷ t6) in
    let t4 = render_addresses e.reply_to (b' ' ∷ t5) in
    let t3 = render_addresses e.sender (b' ' ∷ t4) in
    let t2 = render_addresses e.from (b' ' ∷ t3) in
    let t1 = render_nstr e.subject ++ b' ' ∷ t2 in
    rw
      (
        read_nstr-render_nstr e.date (b' ' ∷ t1) v.date (space-Stops t1),
        skip_spaces-render_nstr e.subject (b' ' ∷ t2),
        read_nstr-render_nstr e.subject (b' ' ∷ t2) v.subject (space-Stops t2),
        skip_spaces-render_addresses e.from (b' ' ∷ t3),
        parse_address_list-render_addresses e.from (b' ' ∷ t3) v.from (space-Stops t3),
        skip_spaces-render_addresses e.sender (b' ' ∷ t4),
        parse_address_list-render_addresses e.sender (b' ' ∷ t4) v.sender (space-Stops t4),
        skip_spaces-render_addresses e.reply_to (b' ' ∷ t5),
        parse_address_list-render_addresses e.reply_to (b' ' ∷ t5) v.reply_to (space-Stops t5),
        skip_spaces-render_addresses e.to (b' ' ∷ t6),
        parse_address_list-render_addresses e.to (b' ' ∷ t6) v.to (space-Stops t6),
        skip_spaces-render_addresses e.cc (b' ' ∷ t7),
        parse_address_list-render_addresses e.cc (b' ' ∷ t7) v.cc (space-Stops t7),
        skip_spaces-render_addresses e.bcc (b' ' ∷ t8),
        parse_address_list-render_addresses e.bcc (b' ' ∷ t8) v.bcc (space-Stops t8),
        skip_spaces-render_nstr e.in_reply_to (b' ' ∷ t9),
        read_nstr-render_nstr e.in_reply_to (b' ' ∷ t9) v.in_reply_to (space-Stops t9),
        skip_spaces-render_nstr e.message_id close,
        read_nstr-render_nstr e.message_id close v.message_id (close-Stops rest),
      )
      refl
