-- ===== src/Line/Mailbox.antt =====
-- include/bkmail/imap/command/create_command.h, delete_command.h, rename_command.h,
-- subscribe_command.h and unsubscribe_command.h. Their private `atom_safe` and `append_arg` are those
-- of select_command.h, word for word.
use bkmail.Prelude.{false, ◌∷◌, ◌++◌, Bytes, codes}
use bkmail.Error.{map_status_to_ec}
use bkmail.Select.{append_arg}
use bkmail.Line.{LineCommand, wants_none}

unfoldable pub create_command : Bytes → LineCommand
unfolding append_arg
create_command mailbox = record {
  line = λ tag. tag ++ (codes " CREATE " ++ (append_arg mailbox ++ codes "\r\n"));
  rearms = false;
  blocks = false;
  wants = wants_none;
  reply = map_status_to_ec;
}

unfoldable pub delete_command : Bytes → LineCommand
unfolding append_arg
delete_command mailbox = record {
  line = λ tag. tag ++ (codes " DELETE " ++ (append_arg mailbox ++ codes "\r\n"));
  rearms = false;
  blocks = false;
  wants = wants_none;
  reply = map_status_to_ec;
}

unfoldable pub rename_command : Bytes → Bytes → LineCommand
unfolding append_arg
rename_command old_name new_name = record {
  line = λ tag.
      tag
      ++ (codes " RENAME "
          ++ (append_arg old_name ++ b' ' ∷ (append_arg new_name ++ codes "\r\n")));
  rearms = false;
  blocks = false;
  wants = wants_none;
  reply = map_status_to_ec;
}

unfoldable pub subscribe_command : Bytes → LineCommand
unfolding append_arg
subscribe_command mailbox = record {
  line = λ tag. tag ++ (codes " SUBSCRIBE " ++ (append_arg mailbox ++ codes "\r\n"));
  rearms = false;
  blocks = false;
  wants = wants_none;
  reply = map_status_to_ec;
}

unfoldable pub unsubscribe_command : Bytes → LineCommand
unfolding append_arg
unsubscribe_command mailbox = record {
  line = λ tag. tag ++ (codes " UNSUBSCRIBE " ++ (append_arg mailbox ++ codes "\r\n"));
  rearms = false;
  blocks = false;
  wants = wants_none;
  reply = map_status_to_ec;
}
