-- ===== src/Line/Message.antt =====
-- include/bkmail/imap/command/copy_command.h, move_command.h, uid_copy_command.h,
-- uid_move_command.h, close_command.h and expunge_command.h.
use bkmail.Prelude.{true, false, ◌∷◌, ◌++◌, Bytes, codes}
use bkmail.Error.{map_status_to_ec}
use bkmail.Astring.{render_astring}
use bkmail.Line.{LineCommand, wants_none}

unfoldable pub copy_command : Bytes → Bytes → LineCommand
unfolding render_astring
copy_command seq_set mailbox = record {
  line = λ tag.
      tag ++ (codes " COPY " ++ (seq_set ++ b' ' ∷ (render_astring mailbox ++ codes "\r\n")));
  rearms = true;
  blocks = false;
  wants = wants_none;
  reply = map_status_to_ec;
}

unfoldable pub move_command : Bytes → Bytes → LineCommand
unfolding render_astring
move_command seq_set mailbox = record {
  line = λ tag.
      tag ++ (codes " MOVE " ++ (seq_set ++ b' ' ∷ (render_astring mailbox ++ codes "\r\n")));
  rearms = true;
  blocks = false;
  wants = wants_none;
  reply = map_status_to_ec;
}

unfoldable pub uid_copy_command : Bytes → Bytes → LineCommand
unfolding render_astring
uid_copy_command uid_set mailbox = record {
  line = λ tag.
      tag ++ (codes " UID COPY " ++ (uid_set ++ b' ' ∷ (render_astring mailbox ++ codes "\r\n")));
  rearms = true;
  blocks = false;
  wants = wants_none;
  reply = map_status_to_ec;
}

unfoldable pub uid_move_command : Bytes → Bytes → LineCommand
unfolding render_astring
uid_move_command uid_set mailbox = record {
  line = λ tag.
      tag ++ (codes " UID MOVE " ++ (uid_set ++ b' ' ∷ (render_astring mailbox ++ codes "\r\n")));
  rearms = true;
  blocks = false;
  wants = wants_none;
  reply = map_status_to_ec;
}

unfoldable pub close_command : LineCommand
close_command = record {
  line = λ tag. tag ++ codes " CLOSE\r\n";
  rearms = true;
  blocks = false;
  wants = wants_none;
  reply = map_status_to_ec;
}

unfoldable pub expunge_command : LineCommand
expunge_command = record {
  line = λ tag. tag ++ codes " EXPUNGE\r\n";
  rearms = true;
  blocks = false;
  wants = wants_none;
  reply = map_status_to_ec;
}
