-- ===== src/Context/Defs.antt =====
-- The fields of `context_core` in include/bkmail/imap/imap_context.h, with the phases and the events.
use bkmail.Prelude.{ℕ, Bool, List, Option, Bytes}
use bkmail.Response.{ResponseStatus, ResponseCode}
use bkmail.Operation.{Operation, Completion}
use bkmail.Lexer.{Lexer}

pub data Phase : Type 0 where
  opened draining closed : Phase

-- include/bkmail/imap/unsolicited_event.h.
pub data UnsolicitedEvent : Type 0 where
  exists_event recent_event expunge_event flags_update_event : ℕ → UnsolicitedEvent
  capability_event : List Bytes → UnsolicitedEvent
  bye_event : Bytes → Option ResponseCode → UnsolicitedEvent
  greeting_event : ResponseStatus → Bytes → Option ResponseCode → UnsolicitedEvent

-- `posted_stops` are the cells that `post_complete_stopped` handed to the scheduler; `staged` is the
-- list that the armed write's receiver holds; `arming` says that a drain latched the write and has
-- not armed it yet.
pub record Context : Type 0 where
  pub phase : Phase
  pub abandoned : Bool
  pub tag_counter : ℕ
  pub next_id : ℕ
  pub registry : List (Bytes × ℕ)
  pub write_queue : List Operation
  pub write_staging : Bytes
  pub write_in_flight : Bool
  pub arming : Bool
  pub staged : List ℕ
  pub kick_posted : Bool
  pub continuation_target : Option ℕ
  pub posted_stops : List Operation
  pub read_buffer : Bytes
  pub lexer : Lexer
  pub read_running : Bool
  pub suspend_read : Bool
  pub bye_received : Bool
  pub read_shut : Bool
  pub descriptor_open : Bool
  pub completions : List (ℕ × Completion)
  pub dropped : List ℕ
  pub events : List UnsolicitedEvent
  pub writes : List Bytes
