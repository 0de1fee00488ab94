-- ===== src/Lib.antt =====
-- bkmail is an IMAP client library. One context owns the connection: commands are submitted as
-- cells of a write queue, the write pump batches what they render into one write at a time, and
-- the read pump frames, parses and dispatches what the server sends, until one of the teardown
-- paths ends the connection.
--
-- The parts, from the wire up:
--
-- Astring and Astring/Decimal: the character classes and renderers of
-- include/bkmail/imap/detail/astring.h, and the standard decimal conversions that they and the
-- parsers call. A char is its unsigned value, a view is its list of bytes.
--
-- Flags: the mask of include/bkmail/imap/flags.h, on a number below 256.
--
-- Cursor: parse_cursor of include/bkmail/imap/detail/parse_cursor.h. A cursor is the text that
-- remains; a reader returns its answer and the new remainder. RoundTrip, Literal and Rendered set
-- it against the renderers, Progress measures what a reader takes.
--
-- Lexer: response_lexer of include/bkmail/imap/detail/response_lexer.h, as rounds of its loop on
-- the committed bytes. Its fuel is two rounds for each byte and three more, since a literal takes
-- two rounds and its marker at least two bytes; Resume treats it. Trailer is literal_trailer, Wire
-- builds whole responses, Frames compares scans of a growing buffer.
--
-- Response, Capability, Parser and Parser/Code: the types of include/bkmail/imap/response.h,
-- capability_set of include/bkmail/imap/capability_set.h with src/capabilities.cpp, and
-- response_parser of include/bkmail/imap/detail/response_parser.h. The constructor for NO is
-- called refused, and the kind SEARCH search_kind. The three loops of parse_resp_code run on fuel
-- one above the length of the text, and each round takes at least one byte; Parser/Code/Loops
-- treats it.
--
-- Error: the conditions of include/bkmail/common/error.h and map_status_to_ec.
--
-- Command: the part of a command that the pumps drive. Segmented is the segment and wall counters
-- of include/bkmail/imap/command/login_command.h and append_command.h, given the rendered
-- segments; Idle is include/bkmail/imap/command/idle_command.h.
--
-- Line: the commands of include/bkmail/imap/command/ that send one line, a record for each.
-- Connection has noop_command.h, logout_command.h, starttls_command.h and raw_command.h, Mailbox
-- the commands on mailboxes, Message those on messages; Refines sets them against Segmented,
-- Arguments and Wire are a server that reads the lines.
--
-- Rows, Listing, Status, Search, Store, FetchItems, FetchCommand, CapabilityCommand:
-- list_command.h, status_command.h, search_command.h, store_command.h,
-- include/bkmail/imap/fetch_items.h, fetch_command.h with its kin for envelopes, headers and
-- messages, and capability_command.h, each with its twin for UIDs where there is one. Rows has the
-- string tokens and the word lists that they share; a loop over words is a recursion on the words
-- that it cuts. The loop of SEARCH runs on one unit of fuel for each byte of the answer.
--
-- Login, Append, Authenticate: what login_command.h, append_command.h and authenticate_command.h
-- render; the last has its own segment counters, since a challenge may add a segment.
--
-- Operation: the cell, operation_model of include/bkmail/imap/operation_base.h. A cell is named by
-- a number in place of its address.
--
-- Context: context_core of include/bkmail/imap/imap_context.h with the pumps of
-- include/bkmail/imap/detail/write_pump.h and read_pump.h. Defs is the state, Queue the queue and
-- the registry, Teardown the paths connection_lost, close, abandon and maybe_finish_close, Submit
-- the submission and cancellation, WritePump the drain, the arming and the completion of a write,
-- ReadPump the dispatch of one response, Read the completion of a read, Run the histories: lists
-- of calls, completions and scheduled tasks in any order. Each is one step, also the completion of a
-- read with all its frames, where the source releases the mutex between two of them and calls the
-- handlers without it: what another thread does in between comes before or behind the step here.
-- The fuel of the loop in Read is one above the length of the buffer. Ownership, Quiet,
-- WritePump/Batch, WritePump/Parked, Submit/Cancel, Submit/Tag and Read/Ends hold their
-- properties.
--
-- Fetch: include/bkmail/imap/detail/fetch_parse.h with include/bkmail/imap/message_attributes.h
-- and the records envelope.h, address.h and body_structure.h of include/bkmail/common/. Loop is
-- the loop that the list parsers share, Value the nstrings, the skipper and the flag lists,
-- Envelope, Body and Attributes the parsers of those items and the attribute walk, Addresses the
-- address lists of RFC 5322, Header the header block. Every round of a loop and every level of the
-- skipper takes a byte, so fuel one above the length of the text is enough; parse_body_structure
-- has the bound of the source. A parser that fails leaves nothing, where the source leaves its
-- output partly filled.
--
-- SequenceSet: include/bkmail/imap/sequence_set.h, with the grammar of RFC 3501 in Grammar. Its
-- loop runs on fuel one above the length, since a round takes a number.
--
-- SearchCriteria: the validation of include/bkmail/imap/search_criteria.h. Grammar has the
-- balanced texts, Grammar/Open those with groups and quotes still open.
--
-- Unsolicited: the handler table and the tokens of include/bkmail/imap/detail/unsolicited_table.h.
-- Table holds the invariant, Registrations and Dispatch what follows for tokens and for a
-- dispatch.
--
-- Mime: base64_encode of include/bkmail/imap/state/not_authenticated.h, and the decoder of encoded
-- words of include/bkmail/common/mail_header.h. The two nested loops of decode_encoded_words are
-- one with a flag; a round takes a character.
--
-- Session: the session layer over a context. Session itself has the connection of
-- include/bkmail/imap/imap_connection.h, the mailbox snapshot, the states and the successors of
-- include/bkmail/imap/state/; Operation and Idle are state_op_operation and idle_op_operation of
-- include/bkmail/imap/state/detail/state_op_sender.h, StartTls is start_tls_operation of
-- include/bkmail/imap/state/not_authenticated.h. Each has its events as lists: replies, pushes,
-- timers, a stop request whose forwarder is two steps that others may come between, and the posted
-- delivery. The cancel in a forwarder withdraws the handler of the command or not, which is an argument
-- of its event in Operation and StartTls; in Idle it always does, since a handler that stays finds the
-- completion claimed. Issued is what a member function of a state hands to its operation, the
-- segments, the capability and the successor, and Calls has the member functions; Order follows the
-- states along a chain of calls, Diagram sets them against the state diagram of RFC 3501, Permitted the
-- commands against its table, and Upgraded what start_tls ends with against StartTls. That a state has
-- only the member functions of its class is a matter of the types in the source; a call on another
-- state is `none` here.
--
-- Select: the commands of include/bkmail/imap/command/select_command.h and examine_command.h, with
-- a flag for which one it is: the line, the snapshot that the untagged responses fill, and the
-- reply. The loop over the flags runs on fuel one above the length of its text.
--
-- The transport, the scheduler and the senders (bnio and bexec) are the events of a history. A
-- command's rendering is an argument of its submission. Not modelled: allocation failure, stop
-- callbacks of the context other than by the cancel they end in, batch submission, and connection
-- setup; an event of FETCH carries its number, since the source leaves its flags empty.
pub mod Prelude
pub mod Astring
pub mod Cursor
pub mod Lexer
pub mod Line
pub mod Rows
pub mod Listing
pub mod Status
pub mod Search
pub mod Store
pub mod CapabilityCommand
pub mod Authenticate
pub mod Login
pub mod Append
pub mod FetchItems
pub mod FetchCommand
pub mod Flags
pub mod Response
pub mod Capability
pub mod Parser
pub mod Error
pub mod Command
pub mod Operation
pub mod Fetch
pub mod SequenceSet
pub mod SearchCriteria
pub mod Unsolicited
pub mod Mime
pub mod Session
pub mod Select
pub mod Context
mod Tests
