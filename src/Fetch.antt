-- ===== src/Fetch.antt =====
-- include/bkmail/imap/detail/fetch_parse.h: the deep parsers of FETCH payloads. A parser that fills an
-- argument is a reader of the value; what a failed one has filled in is not kept by its callers.
pub mod Loop
pub mod Value
pub mod Envelope
pub mod Body
pub mod Attributes
pub mod Addresses
pub mod Header
