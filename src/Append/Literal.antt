-- ===== src/Append/Literal.antt =====
-- The literal of APPEND.
use bkmail.Prelude.{
  ◌<◌, ◌^◌, ◌≡◌, ap, ◌∙◌, Bool, true, false, [], ◌∷◌, ◌++◌, append_assoc, some, if◌then◌else◌,
  Bytes, codes, length,
}
use bkmail.Astring.{render_literal, LiteralMode, synchronizing, non_synchronizing}
use bkmail.Cursor.{read_literal}
use bkmail.Cursor.Literal.{read_literal-render_literal}
use bkmail.Flags.{any}
use bkmail.Select
use bkmail.Login.Wire.{concat}
use bkmail.Append.{
  AppendArguments, append_flags, date_text, literal_head, head_segment, append_command,
}

abbrev mode_of : Bool → LiteralMode
mode_of literal_plus = if literal_plus then non_synchronizing else synchronizing

abbrev pub front : AppendArguments → Bytes → Bytes
front a tag =
    tag
    ++ (codes " APPEND "
        ++ (Select.append_arg a.mailbox
            ++ ((if any a.flags then append_flags a.flags else []) ++ date_text a.date_time)))

head_literal :
    (literal_plus : Bool) (message rest : Bytes)
    → literal_head literal_plus message ++ (message ++ rest)
      ≡ render_literal message (mode_of literal_plus) ++ rest
unfolding render_literal
head_literal true message rest = simp append_assoc
head_literal false message rest = simp append_assoc

pub joined :
    (a : AppendArguments) (tag : Bytes)
    → concat (append_command a tag).segments
      ≡ (front a tag ++ b' ' ∷ [])
        ++ (literal_head a.literal_plus a.message ++ (a.message ++ codes "\r\n"))
unfolding append_command head_segment
joined a tag = simp append_assoc

-- The segments of APPEND together end in a literal that a server reads back as the message, whatever bytes
-- it holds, with CRLF behind it, if its length fits into 64 bits.
pub read_literal-append_command :
    (a : AppendArguments) (tag : Bytes)
    → length a.message < 2 ^ 64
    → (start rest : Bytes) × (concat (append_command a tag).segments ≡ start ++ rest)
      × (read_literal rest ≡ (some a.message, codes "\r\n"))
read_literal-append_command a tag h = (
  front a tag ++ b' ' ∷ [],
  literal_head a.literal_plus a.message ++ (a.message ++ codes "\r\n"),
  joined a tag,
  ap read_literal (head_literal a.literal_plus a.message (codes "\r\n"))
      ∙ read_literal-render_literal a.message (codes "\r\n") (mode_of a.literal_plus) h,
)
