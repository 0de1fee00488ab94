-- ===== src/FetchCommand/Request.antt =====
-- The line of a FETCH for any selection.
use bkmail.Prelude.{
  ◌≡◌, refl, ap, sym, ◌∙◌, Bool, true, false, List, [], ◌∷◌, ◌++◌, append_assoc, append-nil,
  if◌then◌else◌, Bytes, codes,
}
use bkmail.FetchItems.{
  FetchItems, Section, envelope, body_structure, flags, uid, internal_date, rfc822_size, test,
}
use bkmail.Listing.Render.{spaced}
use bkmail.Rows.Names.{chosen}
use bkmail.FetchCommand.{
  item_text, section_texts, append_items, trim_space, fetch_word, items_line, fetch_line,
  uid_fetch_line,
}

abbrev pub section_name : Section → Bytes
section_name sec =
    (if sec.peek then codes "BODY.PEEK[" else codes "BODY[") ++ (sec.specifier ++ codes "]")

abbrev pub section_names : List Section → List Bytes
section_names [] = []
section_names (sec ∷ sections) = section_name sec ∷ section_names sections

abbrev items_table : FetchItems → List (Bool × Bytes)
items_table items =
    (test envelope items, codes "ENVELOPE")
    ∷ (test body_structure items, codes "BODYSTRUCTURE")
    ∷ (test flags items, codes "FLAGS")
    ∷ (test uid items, codes "UID")
    ∷ (test internal_date items, codes "INTERNALDATE")
    ∷ (test rfc822_size items, codes "RFC822.SIZE")
    ∷ []

-- What the selection asks for, the items before the sections.
abbrev pub requested : FetchItems → List Bytes
requested items = chosen (items_table items) ++ section_names items.sections

abbrev terminated : List Bytes → Bytes
terminated [] = []
terminated (w ∷ ws) = w ++ b' ' ∷ terminated ws

sections_terminated :
    (sections : List Section) → section_texts sections ≡ terminated (section_names sections)
unfolding section_texts
sections_terminated [] = refl
sections_terminated (sec ∷ sections) = rw (sections_terminated sections) (simp append_assoc)

items_terminated :
    (table : List (Bool × Bytes)) (rest : List Bytes)
    → terminated (chosen table ++ rest) ≡ terminated (chosen table) ++ terminated rest
items_terminated [] rest = refl
items_terminated ((true, name) ∷ table) rest = rw (items_terminated table rest) (simp append_assoc)
items_terminated ((false, name) ∷ table) rest = items_terminated table rest

abbrev texts : List (Bool × Bytes) → Bytes → Bytes
texts [] rest = rest
texts ((selected, name) ∷ table) rest = item_text selected name ++ texts table rest

items_first :
    (table : List (Bool × Bytes)) (rest : Bytes)
    → texts table rest ≡ terminated (chosen table) ++ rest
items_first [] rest = refl
items_first ((true, name) ∷ table) rest = rw (items_first table rest) (simp append_assoc)
items_first ((false, name) ∷ table) rest = items_first table rest

append_items_lem : (items : FetchItems) → append_items items ≡ terminated (requested items)
unfolding append_items
append_items_lem items =
    items_first (items_table items) (section_texts items.sections)
    ∙ ap (λ t. terminated (chosen (items_table items)) ++ t) (sections_terminated items.sections)
    ∙ sym (items_terminated (items_table items) (section_names items.sections))

terminated-spaced :
    (w : Bytes) (ws : List Bytes) → terminated (w ∷ ws) ≡ spaced (w ∷ ws) ++ b' ' ∷ []
terminated-spaced w [] = refl
terminated-spaced w (v ∷ ws) = rw (terminated-spaced v ws) (simp append_assoc)

trim_snoc : (xs : Bytes) → trim_space (xs ++ b' ' ∷ []) ≡ xs
unfolding trim_space
trim_snoc [] = refl
trim_snoc (c ∷ []) = refl
trim_snoc (c ∷ d ∷ xs) = ap (◌∷◌ c) (trim_snoc (d ∷ xs))

trim_open : (xs : Bytes) → trim_space (xs ++ b'(' ∷ []) ≡ xs ++ b'(' ∷ []
unfolding trim_space
trim_open [] = refl
trim_open (c ∷ []) = refl
trim_open (c ∷ d ∷ xs) = ap (◌∷◌ c) (trim_open (d ∷ xs))

trimmed :
    (front : Bytes) (names : List Bytes)
    → trim_space ((front ++ b'(' ∷ []) ++ terminated names) ≡ (front ++ b'(' ∷ []) ++ spaced names
trimmed front [] = rw append-nil (trim_open front)
trimmed front (w ∷ ws) =
    ap (λ (t : Bytes). trim_space ((front ++ b'(' ∷ []) ++ t)) (terminated-spaced w ws)
    ∙ ap trim_space (sym (append_assoc (front ++ b'(' ∷ []) (spaced (w ∷ ws)) (b' ' ∷ [])))
    ∙ trim_snoc ((front ++ b'(' ∷ []) ++ spaced (w ∷ ws))

regrouped :
    (tag word set text : Bytes)
    → tag ++ (word ++ (set ++ (codes " (" ++ text)))
      ≡ ((tag ++ (word ++ (set ++ b' ' ∷ []))) ++ b'(' ∷ []) ++ text
regrouped tag word set text = simp append_assoc

items_line_lem :
    (by_uid : Bool) (set tag : Bytes) (items : FetchItems)
    → items_line by_uid set items tag
      ≡ tag
        ++ (fetch_word by_uid
            ++ (set ++ (codes " (" ++ (spaced (requested items) ++ codes ")\r\n"))))
items_line_lem by_uid set tag items =
    let front : Bytes = tag ++ (fetch_word by_uid ++ (set ++ b' ' ∷ [])) in
    ap (λ (t : Bytes). trim_space t ++ codes ")\r\n")
      (ap (λ (t : Bytes). tag ++ (fetch_word by_uid ++ (set ++ (codes " (" ++ t))))
          (append_items_lem items)
        ∙ regrouped tag (fetch_word by_uid) set (terminated (requested items)))
    ∙ ap (λ (t : Bytes). t ++ codes ")\r\n") (trimmed front (requested items))
    ∙ ap (λ (t : Bytes). t ++ codes ")\r\n")
        (sym (regrouped tag (fetch_word by_uid) set (spaced (requested items))))
    ∙ simp append_assoc

-- The line of FETCH and of UID FETCH names what is selected, first the items in the order of their bits and
-- then the sections in the order of their insertion, with one space between two and none at the ends, also
-- for an empty selection.
pub fetch_line_lem :
    (set tag : Bytes) (items : FetchItems)
    → ((fetch_line set items).line tag
        ≡ tag
          ++ (codes " FETCH "
              ++ (set ++ (codes " (" ++ (spaced (requested items) ++ codes ")\r\n")))))
      × ((uid_fetch_line set items).line tag
          ≡ tag
            ++ (codes " UID FETCH "
                ++ (set ++ (codes " (" ++ (spaced (requested items) ++ codes ")\r\n")))))
unfolding fetch_line uid_fetch_line
fetch_line_lem set tag items =
    (items_line_lem false set tag items, items_line_lem true set tag items)
