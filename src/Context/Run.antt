-- ===== src/Context/Run.antt =====
-- Histories of one context: the calls of its users, the completions that the stream delivers and the
-- tasks that the scheduler runs, in any order.
use bkmail.Prelude.{Bool, true, false, List, [], ◌∷◌, none, Bytes}
use bkmail.Error.{ErrorCode}
use bkmail.Command.{Command}
use bkmail.Lexer
use bkmail.Context.Defs.{Context, opened}
use bkmail.Context.Teardown.{close, abandon}
use bkmail.Context.Submit.{submit, cancel, post_kick, run_posted_stop}
use bkmail.Context.WritePump.{run_kick, arm, on_write_done}
use bkmail.Context.Read.{read_done}

pub data Event : Type 0 where
  -- the rendering of the command, the callback path, a stop that fired, and the kick of a sender
  submits : (Bytes → Command) → Bool → Bool → Bool → Event
  cancels : Bytes → Event
  flushes closes abandons arms stops : Event
  kicks writes_done : ErrorCode → Event
  reads_done : ErrorCode → Bytes → Event

unfoldable pub step : Event → Context → Context
unfolding submit cancel close abandon post_kick run_posted_stop run_kick arm on_write_done read_done
step (submits render callback_path stop_seen kick) c = submit render callback_path stop_seen kick c
step (cancels tag) c = cancel tag c
step flushes c = post_kick c
step closes c = close c
step abandons c = abandon c
step (kicks ec) c = run_kick ec c
step arms c = arm c
step stops c = run_posted_stop c
step (writes_done ec) c = on_write_done ec c
step (reads_done ec bytes) c = read_done ec bytes c

unfoldable pub run : List Event → Context → Context
unfolding step
run [] c = c
run (e ∷ es) c = run es (step e c)

-- The constructor, with the read pump armed.
abbrev pub initial : Context
initial = record {
  phase = opened;
  abandoned = false;
  tag_counter = 1;
  next_id = 0;
  registry = [];
  write_queue = [];
  write_staging = [];
  write_in_flight = false;
  arming = false;
  staged = [];
  kick_posted = false;
  continuation_target = none;
  posted_stops = [];
  read_buffer = [];
  lexer = Lexer.reset;
  read_running = true;
  suspend_read = false;
  bye_received = false;
  read_shut = false;
  descriptor_open = true;
  completions = [];
  dropped = [];
  events = [];
  writes = [];
}
