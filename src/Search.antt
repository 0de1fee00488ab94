-- ===== src/Search.antt =====
-- include/bkmail/imap/command/search_command.h and uid_search_command.h. A std::uint32_t is a number
-- below 2 ^ 32. A call that never returns is `none` for every fuel.
pub mod Numbers
pub mod Stuck
use bkmail.Prelude.{
  ℕ, zero, suc, ◌+◌, ◌-◌, ◌*◌, ◌%◌, ◌^◌, Bool, true, false, ◌||◌, List, [], ◌∷◌, ◌++◌, Option, none,
  some, ◌==◌, if◌then◌else◌, Bytes, codes, length, is_empty, take_while, drop_while,
}
use bkmail.Astring.{is_digit}
use bkmail.Response.{ResponseStatus, UntaggedKind, UntaggedResponse}
use bkmail.Error.{ErrorCode, map_status_to_ec}
use bkmail.Line.{LineCommand, deliver}

abbrev pub wants_search : UntaggedKind → Bool
wants_search UntaggedKind.search_kind = true
wants_search _ = false

unfoldable pub search_line : Bytes → LineCommand
search_line criteria = record {
  line = λ tag. tag ++ (codes " SEARCH " ++ (criteria ++ codes "\r\n"));
  rearms = true;
  blocks = false;
  wants = wants_search;
  reply = map_status_to_ec;
}

unfoldable pub uid_search_line : Bytes → LineCommand
uid_search_line criteria = record {
  line = λ tag. tag ++ (codes " UID SEARCH " ++ (criteria ++ codes "\r\n"));
  rearms = true;
  blocks = false;
  wants = wants_search;
  reply = map_status_to_ec;
}

abbrev pub is_blank : ℕ → Bool
is_blank c = c == b' ' || c == b'\r' || c == b'\n'

-- `number * 10 + digit` in 32 bits, over the digits.
unfoldable pub wrapped : ℕ → Bytes → ℕ
wrapped number [] = number
wrapped number (d ∷ ds) = wrapped ((number * 10 + (d - b'0')) % 2 ^ 32) ds

abbrev pub push_number : Bytes → List ℕ → List ℕ
push_number digits matches = if is_empty digits then matches else matches ++ wrapped 0 digits ∷ []

-- The outer loop. A round that meets another character moves nothing.
unfoldable pub scan : ℕ → Bytes → List ℕ → Option (List ℕ)
unfolding wrapped
scan zero text matches = if is_empty text then some matches else none
scan (suc fuel) text matches =
    let start = drop_while is_blank text in
    let next =
      scan fuel (drop_while is_digit start) (push_number (take_while is_digit start) matches) in
    if is_empty text then some matches else next

-- With one round for each byte.
unfoldable pub on_untagged : UntaggedResponse → List ℕ → Option (List ℕ)
unfolding scan
on_untagged r matches =
    if wants_search r.kind then scan (length r.payload) r.payload matches else some matches

-- uid_search_command.h has the same text.
unfoldable pub uid_on_untagged : UntaggedResponse → List ℕ → Option (List ℕ)
unfolding on_untagged
uid_on_untagged r matches = on_untagged r matches

unfoldable pub on_tagged : ResponseStatus → List ℕ → ErrorCode × Option (List ℕ)
on_tagged status matches = deliver status matches
