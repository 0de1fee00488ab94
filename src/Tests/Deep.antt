-- ===== src/Tests/Deep.antt =====
-- Runs of the FETCH parsers, the sequence sets, the handler table and the decoder of encoded words, and
-- their properties applied.
use bkmail.Prelude.{
  ℕ, ◌+◌, ◌≡◌, ◌↔◌, refl, true, false, List, [], ◌∷◌, ◌++◌, map, none, some, codes, arith, is_empty,
}
use bkmail.Astring.{render_quoted, synchronizing, LiteralMode}
use bkmail.Fetch.Value.{skip_value}
use bkmail.Fetch.Value.Rendered.{
  Value, word, text, octets, group, nil, cons, render, skip_value-render,
}
use bkmail.Fetch.Envelope.{Address, Envelope, empty_envelope, parse_envelope}
use bkmail.Fetch.Envelope.Members.{IsAddress}
use bkmail.Fetch.Envelope.Rendered.{IsEnvelope, render_envelope, parse_envelope-render_envelope}
use bkmail.Fetch.Attributes.{
  no_attributes, parse_fetch_attributes, parse_envelope_attribute, parse_body_section_attribute,
}
use bkmail.Fetch.Attributes.Walk.{parse_fetch_attributes_whole_body, parse_attribute_flags}
use bkmail.Fetch.Body.{parse_body_structure, max_body_structure_depth}
use bkmail.Fetch.Body.Depth.{parens, parse_body_structure_bound}
use bkmail.SequenceSet.{is_valid}
use bkmail.SequenceSet.Grammar.{SeqRange, IsSeqSet, render_set}
use bkmail.SequenceSet.Sound.{is_valid_grammar}
use bkmail.SearchCriteria
use bkmail.SearchCriteria.Grammar.{Items, are_items, render_items}
use bkmail.SearchCriteria.Grammar.Sound.{is_valid_balanced}
use bkmail.Unsolicited.{
  Anchor, Action, reset_token, register, new_anchor, run_actions, notify, active_ids,
}
use bkmail.Unsolicited.Table.{IsTable, run_actions-IsTable, new_anchor-IsTable}
use bkmail.Unsolicited.Dispatch.{all_resets, notify_resets}
use bkmail.Mime.{decode_encoded_words}

abbrev flag_group : Value
flag_group = group (
    cons (word (codes "NIL"))
      (cons (text (codes "a b")) (cons (octets (codes "x)") synchronizing) nil)))

skip_value-render_example :
    skip_value (render flag_group ++ codes " UID 7)") ≡ (some tt, codes " UID 7)")
unfolding bkmail.Astring.is_atom_char
skip_value-render_example =
    skip_value-render flag_group (codes " UID 7)") (((refl, refl, refl)), (refl, (omega arith, tt)))
      refl

abbrev sender : Address
sender = record {
  display_name = codes "A \"B\"";
  adl = [];
  mailbox_name = codes "ab";
  host_name = codes "example.org";
}

abbrev some_envelope : Envelope
some_envelope = record {
  date = codes "Mon";
  subject = codes "hello";
  from = sender ∷ [];
  sender = [];
  reply_to = [];
  to = sender ∷ sender ∷ [];
  cc = [];
  bcc = [];
  in_reply_to = [];
  message_id = codes "<1@b>";
}

sender_fits : IsAddress sender
sender_fits = (refl, refl, refl, refl)

IsEnvelope-fits : IsEnvelope some_envelope
IsEnvelope-fits = record {
  date = refl;
  subject = refl;
  from = (sender_fits, tt);
  sender = tt;
  reply_to = tt;
  to = (sender_fits, (sender_fits, tt));
  cc = tt;
  bcc = tt;
  in_reply_to = refl;
  message_id = refl;
}

parse_envelope-render_envelope_example :
    parse_envelope empty_envelope (render_envelope some_envelope (codes " UID 7)"))
    ≡ (some some_envelope, codes " UID 7)")
parse_envelope-render_envelope_example =
    parse_envelope-render_envelope some_envelope (codes " UID 7)") IsEnvelope-fits

parse_fetch_attributes_whole_body_example :
    parse_fetch_attributes (codes "(BODY[] " ++ (render_quoted (codes "text") ++ codes ")"))
    ≡ some no_attributes
parse_fetch_attributes_whole_body_example = parse_fetch_attributes_whole_body (codes "text") refl

parse_attribute_flags_example :
    (parse_envelope_attribute (codes "(FLAGS (\\" ++ codes "Seen) ENVELOPE NIL)") ≡ none)
    × (parse_body_section_attribute
          (codes "BODY[TEXT]")
          (codes "(FLAGS (\\" ++ codes "Seen) ENVELOPE NIL)")
        ≡ none)
parse_attribute_flags_example =
    parse_attribute_flags (codes "ODY[TEXT]") (codes "Seen) ENVELOPE NIL)")

parse_body_structure_bound_example :
    (parse_body_structure (parens (max_body_structure_depth + 2) (codes "\"TEXT\""))).0 ≡ none
parse_body_structure_bound_example = parse_body_structure_bound (codes "\"TEXT\"")

is_valid_grammar_example : (is_valid (codes "2:4,*") ≡ true) ↔ (
    (r : SeqRange) × (others : List SeqRange) × IsSeqSet r others
    × (codes "2:4,*" ≡ render_set r others))
is_valid_grammar_example = is_valid_grammar (codes "2:4,*")

is_valid_zero : is_valid (codes "0") ≡ false
unfolding is_valid
is_valid_zero = refl

is_valid_large : is_valid (codes "4294967295:*") ≡ true
unfolding is_valid
is_valid_large = refl

is_valid_too_large : is_valid (codes "4294967296") ≡ false
unfolding is_valid
is_valid_too_large = refl

is_valid_balanced_example : (SearchCriteria.is_valid (codes "OR (SEEN) FROM \"a)\"") ≡ true) ↔ (
    (is_empty (codes "OR (SEEN) FROM \"a)\"") ≡ false)
    × (items : Items) × (are_items items ≡ true)
    × (codes "OR (SEEN) FROM \"a)\"" ≡ render_items items []))
is_valid_balanced_example = is_valid_balanced (codes "OR (SEEN) FROM \"a)\"")

is_valid_unbalanced : SearchCriteria.is_valid (codes "(SEEN))") ≡ false
unfolding SearchCriteria.is_valid
is_valid_unbalanced = refl

is_valid_quotes : SearchCriteria.is_valid (codes "FROM \"a)\\\"\"") ≡ true
unfolding SearchCriteria.is_valid
is_valid_quotes = refl

-- Three handlers were registered and the second one was given up.
abbrev three_actions : List Action
three_actions = register ∷ register ∷ reset_token 2 ∷ register ∷ []

three_IsTable : IsTable (run_actions three_actions new_anchor)
three_IsTable = run_actions-IsTable three_actions new_anchor (omega arith) new_anchor-IsTable

-- The first handler destroys the token of the third one.
abbrev destroys_third : ℕ → List Action
destroys_third id = reset_token 3 ∷ []

destroys_only : (id : ℕ) → all_resets (destroys_third id) ≡ true
destroys_only id = refl

notify_resets_example :
    (after : Anchor) × (notify destroys_third (run_actions three_actions new_anchor)
      ≡ some (active_ids (run_actions three_actions new_anchor), after))
    × (after.disposed ≡ (run_actions three_actions new_anchor).disposed)
    × (map (λ e. e.id) after.entries
        ≡ map (λ e. e.id) (run_actions three_actions new_anchor).entries)
notify_resets_example =
    notify_resets destroys_third (run_actions three_actions new_anchor) three_IsTable destroys_only

-- A handler that destroys the token of a later one and registers another: the cell is called although it
-- is disposed of.
disposed_call :
    notify (λ id. reset_token 2 ∷ register ∷ []) (run_actions (register ∷ register ∷ []) new_anchor)
    ≡ none
unfolding notify
disposed_call = refl

decode_word_text : decode_encoded_words (codes "a =?utf-8?B?YWI=?= b") ≡ codes "a ab b"
unfolding decode_encoded_words bkmail.Astring.ascii_to_upper
decode_word_text = refl

decode_q_word : decode_encoded_words (codes "=?x?q?a_=41?=") ≡ codes "a A"
unfolding decode_encoded_words bkmail.Astring.ascii_to_upper
decode_q_word = refl
