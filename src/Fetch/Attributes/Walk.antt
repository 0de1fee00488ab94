-- ===== src/Fetch/Attributes/Walk.antt =====
-- What the attribute walk of fetch_parse.h makes of particular attribute lists.
use bkmail.Prelude.{◌≡◌, refl, true, [], ◌∷◌, ◌++◌, none, some, Bytes, codes, all, arith, Stops}
use bkmail.Astring.{render_quoted, ascii_iequals, is_atom_char, is_atom_special}
use bkmail.Cursor.RoundTrip.{is_quotable}
use bkmail.Fetch.Value.{skip_value, skip_value_in}
use bkmail.Fetch.Value.Rendered.{skip_value-render, text}
use bkmail.Fetch.Attributes.{
  no_attributes, split_key, walk_loop, walk_fetch_attributes, envelope_sink,
  parse_envelope_attribute, is_section_key, attribute_sink, parse_fetch_attributes, section_sink,
  parse_body_section_attribute,
}

close-Stops : (rest : Bytes) → Stops is_atom_char (b')' ∷ rest)
unfolding is_atom_char is_atom_special
close-Stops rest = refl

skip_quoted :
    (v rest : Bytes)
    → all is_quotable v ≡ true
    → skip_value (render_quoted v ++ b')' ∷ rest) ≡ (some tt, b')' ∷ rest)
unfolding bkmail.Fetch.Value.Rendered.render
skip_quoted v rest h = skip_value-render (text v) (b')' ∷ rest) h (close-Stops rest)

-- The section `BODY[]` is skipped like an unknown attribute: the list with it alone leaves every member
-- as it was, whatever quoted value it has.
pub parse_fetch_attributes_whole_body :
    (v : Bytes)
    → all is_quotable v ≡ true
    → parse_fetch_attributes (codes "(BODY[] " ++ (render_quoted v ++ b')' ∷ []))
      ≡ some no_attributes
unfolding parse_fetch_attributes walk_fetch_attributes walk_loop split_key attribute_sink
    is_section_key ascii_iequals render_quoted
parse_fetch_attributes_whole_body v h = rw (skip_quoted v [] h) refl

-- Neither an ENVELOPE nor a section is found in a list with flags in front of it that start with a
-- system flag, whatever follows: the skipper reads no value at the backslash, and the walk fails there.
pub parse_attribute_flags :
    (section_tail rest : Bytes)
    → (parse_envelope_attribute (codes "(FLAGS (\\" ++ rest) ≡ none)
      × (parse_body_section_attribute (b'B' ∷ section_tail) (codes "(FLAGS (\\" ++ rest) ≡ none)
unfolding parse_envelope_attribute parse_body_section_attribute walk_fetch_attributes walk_loop
    split_key envelope_sink section_sink ascii_iequals skip_value skip_value_in is_atom_char
    is_atom_special
parse_attribute_flags section_tail rest = (refl, ground arith)
