-- ===== src/Fetch/Attributes.antt =====
-- include/bkmail/imap/message_attributes.h, and the attribute walk of fetch_parse.h with its three sinks.
pub mod Walk
use bkmail.Prelude.{
  ℕ, zero, suc, ◌+◌, ◌-◌, ◌%◌, ◌^◌, Bool, true, false, ◌&&◌, ◌||◌, not, List, [], ◌∷◌, ◌++◌, Option,
  none, some, ◌==◌, ltb, leb, if◌then◌else◌, Bytes, codes, length, take, drop, is_empty,
}
use bkmail.Astring.{ascii_iequals}
use bkmail.Cursor.{peek, skip_spaces, read_astring, read_number, read_nstring}
use bkmail.Cursor.Monad.{Reader, ◌>>=◌, return}
use bkmail.Flags.{FlagSet, empty_flags}
use bkmail.Fetch.Value.{skip_value, parse_flag_list}
use bkmail.Fetch.Envelope.{Envelope, parse_envelope, empty_envelope}
use bkmail.Fetch.Body.{BodyStructure, parse_body_structure}

pub record BodySection : Type 0 where
  pub specifier : Bytes
  pub octets : Bytes

pub record MessageAttributes : Type 0 where
  pub flags : FlagSet
  pub internal_date : Bytes
  pub rfc822_size : ℕ
  pub envelope : Option Envelope
  pub body_structure : Option BodyStructure
  pub sections : List BodySection
  pub uid : ℕ

abbrev pub no_attributes : MessageAttributes
no_attributes = record {
  flags = empty_flags;
  internal_date = [];
  rfc822_size = 0;
  envelope = none;
  body_structure = none;
  sections = [];
  uid = 0;
}

-- How many brackets are open behind a character of a key.
abbrev pub depth_after : ℕ → ℕ → ℕ
depth_after c brackets =
    if c == b'[' then brackets + 1 else if c == b']' then brackets - 1 else brackets

abbrev in_front : ℕ → Bytes × Bytes → Bytes × Bytes
in_front c (key, rest) = (c ∷ key, rest)

-- The key up to a space or a `)` outside brackets, and what follows it.
unfoldable pub split_key : ℕ → Bytes → Bytes × Bytes
split_key brackets [] = ([], [])
split_key brackets (c ∷ cs) =
    let longer = in_front c (split_key (depth_after c brackets) cs) in
    if (c == b' ' || c == b')') && brackets == 0 then ([], c ∷ cs) else longer

-- The sink gets the key, what is collected, and a cursor at the value.
abbrev pub Sink : Type 0 → Type 0
Sink S = Bytes → S → Reader S

abbrev resume : {S : Type 0} → (S → Bytes → Option S) → Option S × Bytes → Option S
resume again (none, rest) = none
resume again (some s, rest) = again s rest

-- Every round takes a key of at least one character.
unfoldable pub walk_loop : {S : Type 0} → ℕ → Sink S → S → Bytes → Option S
unfolding split_key
walk_loop zero sink s cs = none
walk_loop (suc fuel) sink s cs =
    let start = skip_spaces cs in
    let (key, rest) = split_key 0 start in
    let next = resume (walk_loop fuel sink) (sink key s (skip_spaces rest)) in
    if is_empty start
    then none
    else if peek start == b')'
    then some s
    else if is_empty key
    then none
    else next

unfoldable pub walk_fetch_attributes : {S : Type 0} → Sink S → S → Bytes → Option S
unfolding walk_loop
walk_fetch_attributes sink s [] = none
walk_fetch_attributes sink s (c ∷ cs) =
    if c == b'(' then walk_loop (suc (length cs)) sink s cs else none

-- What a reader makes of its value.
abbrev filled : {A S : Type 0} → (A → S) → Reader A → Reader S
filled f m = m >>= λ a. return (f a)

-- A value that is consumed and dropped.
abbrev dropped : {S : Type 0} → S → Reader S
dropped s = skip_value >>= λ _. return s

abbrev or_fresh : Option Envelope → Envelope
or_fresh none = empty_envelope
or_fresh (some e) = e

unfoldable pub envelope_sink : Sink (Option Envelope)
unfolding parse_envelope skip_value ascii_iequals
envelope_sink key found =
    if ascii_iequals key (codes "ENVELOPE")
    then filled (λ e. some e) (parse_envelope (or_fresh found))
    else dropped found

-- The result is there exactly if one was found and the walk succeeded.
abbrev joined {ℓ} : {A : Type ℓ} → Option (Option A) → Option A
joined none = none
joined (some found) = found

unfoldable pub parse_envelope_attribute : Bytes → Option Envelope
unfolding walk_fetch_attributes envelope_sink
parse_envelope_attribute attr_list = joined (walk_fetch_attributes envelope_sink none attr_list)

-- Whether the section was found, and its value unless that is NIL.
abbrev keep_section : Option Bytes → Option Bytes → Bool × Option Bytes
keep_section old none = (true, old)
keep_section old (some value) = (true, some value)

unfoldable pub section_sink : Bytes → Sink (Bool × Option Bytes)
unfolding read_nstring skip_value ascii_iequals
section_sink section_prefix key (found, old) =
    if leb (length section_prefix) (length key)
      && ascii_iequals (take (length section_prefix) key) section_prefix
    then filled (λ value. keep_section old value) (read_nstring)
    else dropped (found, old)

abbrev if_found : Option (Bool × Option Bytes) → Option (Option Bytes)
if_found none = none
if_found (some (found, value)) = if found then some value else none

unfoldable pub parse_body_section_attribute : Bytes → Bytes → Option (Option Bytes)
unfolding walk_fetch_attributes section_sink
parse_body_section_attribute section_prefix attr_list =
    if_found (walk_fetch_attributes (section_sink section_prefix) (false, none) attr_list)

abbrev last_byte : Bytes → ℕ
last_byte [] = 0
last_byte (c ∷ []) = c
last_byte (c ∷ d ∷ cs) = last_byte (d ∷ cs)

-- A key that names a body section, by the test of the source.
unfoldable pub is_section_key : Bytes → Bool
unfolding ascii_iequals
is_section_key key =
    ltb 6 (length key) && ascii_iequals (take 5 key) (codes "BODY[") && last_byte key == b']'

section_of : Bytes → Option Bytes → BodySection
section_of key none = record { specifier = take (length key - 6) (drop 5 key); octets = [] }
section_of key (some value) = record {
  specifier = take (length key - 6) (drop 5 key);
  octets = value;
}

unfoldable pub attribute_sink : Sink MessageAttributes
unfolding is_section_key section_of read_nstring parse_flag_list read_number read_astring
    parse_envelope parse_body_structure skip_value ascii_iequals
attribute_sink key m =
    if is_section_key key
    then filled (λ value. record m { sections = m.sections ++ section_of key value ∷ [] })
        (read_nstring)
    else if ascii_iequals key (codes "FLAGS")
    then filled (λ flags. record m { flags = flags }) (parse_flag_list m.flags)
    else if ascii_iequals key (codes "UID")
    then filled (λ uid. record m { uid = uid % 2 ^ 32 }) (read_number)
    else if ascii_iequals key (codes "INTERNALDATE")
    then filled (λ value. record m { internal_date = value }) (read_astring)
    else if ascii_iequals key (codes "RFC822.SIZE")
    then filled (λ size. record m { rfc822_size = size }) (read_number)
    else if ascii_iequals key (codes "ENVELOPE")
    then filled (λ e. record m { envelope = some e }) (parse_envelope empty_envelope)
    else if ascii_iequals key (codes "BODYSTRUCTURE")
    then filled (λ node. record m { body_structure = some node }) (parse_body_structure)
    else dropped m

unfoldable pub parse_fetch_attributes : Bytes → Option MessageAttributes
unfolding walk_fetch_attributes attribute_sink
parse_fetch_attributes attr_list = walk_fetch_attributes attribute_sink no_attributes attr_list
