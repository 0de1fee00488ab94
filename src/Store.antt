-- ===== src/Store.antt =====
-- include/bkmail/imap/command/store_command.h and uid_store_command.h, with `store_mode` of
-- include/bkmail/imap/fetch_items.h.
pub mod Flags
use bkmail.Prelude.{ℕ, Bool, true, false, List, [], ◌∷◌, ◌++◌, Bytes, codes}
use bkmail.Flags.{FlagSet, seen, answered, flagged, deleted, draft, recent, test}
use bkmail.Error.{map_status_to_ec}
use bkmail.Line.{LineCommand, wants_none}
use bkmail.Rows.{emit}

pub data StoreMode : Type 0 where
  add remove replace : StoreMode

unfoldable pub append_flag_names : FlagSet → Bytes
unfolding test
append_flag_names flags =
    (emit (test recent flags) (codes "\\Recent") (
      emit (test draft flags) (codes "\\Draft") (
        emit (test deleted flags) (codes "\\Deleted") (
          emit (test flagged flags) (codes "\\Flagged") (
            emit (test answered flags) (codes "\\Answered")
              (emit (test seen flags) (codes "\\Seen") (true, []))))))).1

abbrev pub mode_word : StoreMode → Bytes
mode_word add = codes "+FLAGS"
mode_word remove = codes "-FLAGS"
mode_word replace = codes "FLAGS"

unfoldable pub store_command : Bytes → FlagSet → StoreMode → LineCommand
unfolding append_flag_names
store_command seq_set flags mode = record {
  line = λ tag.
      tag
      ++ (codes " STORE "
          ++ (seq_set
              ++ b' '
                ∷ (mode_word mode ++ (codes " (" ++ (append_flag_names flags ++ codes ")\r\n")))));
  rearms = true;
  blocks = false;
  wants = wants_none;
  reply = map_status_to_ec;
}

unfoldable pub uid_store_command : Bytes → FlagSet → StoreMode → LineCommand
unfolding append_flag_names
uid_store_command uid_set flags mode = record {
  line = λ tag.
      tag
      ++ (codes " UID STORE "
          ++ (uid_set
              ++ b' '
                ∷ (mode_word mode ++ (codes " (" ++ (append_flag_names flags ++ codes ")\r\n")))));
  rearms = true;
  blocks = false;
  wants = wants_none;
  reply = map_status_to_ec;
}
