-- ===== src/Context.antt =====
-- `context_core` of include/bkmail/imap/imap_context.h with its two pumps: the shared state of the
-- engine is one record (Defs), and each operation is a function from the state before the call to the
-- state after it. The mutex makes each of them one step; the order in which the steps of the pumps,
-- of the scheduler and of the callers follow one another is free (Run). What the targets are told,
-- the events that the unsolicited handlers get, the writes that are armed and the calls on the socket
-- are fields that grow; they stand for the effects.
pub mod Defs
pub mod Queue
pub mod Teardown
pub mod Submit
pub mod WritePump
pub mod ReadPump
pub mod Read
pub mod Run
mod Count
pub mod Ownership
pub mod Quiet
