-- ===== src/Response.antt =====
-- include/bkmail/imap/response.h: the wire types of one complete server response.
use bkmail.Prelude.{ℕ, List, Option, Bytes}
use bkmail.Flags.{FlagSet}

pub data ResponseStatus : Type 0 where
  ok refused bad preauth bye : ResponseStatus

pub data UntaggedKind : Type 0 where
  ok refused bad preauth bye capability flags list lsub status : UntaggedKind
  search_kind exists recent expunge fetch unknown : UntaggedKind

pub record UnknownCode : Type 0 where
  pub atom : Bytes
  pub arguments : Bytes

pub data ResponseCode : Type 0 where
  alert_code parse_code read_only_code read_write_code trycreate_code : ResponseCode
  badcharset_code capability_code : List Bytes → ResponseCode
  permanentflags_code : FlagSet → ResponseCode
  uidnext_code uidvalidity_code unseen_code : ℕ → ResponseCode
  unknown_code : UnknownCode → ResponseCode

pub record TaggedResponse : Type 0 where
  pub tag : Bytes
  pub status : ResponseStatus
  pub code : Option ResponseCode
  pub text : Bytes

pub record UntaggedResponse : Type 0 where
  pub kind : UntaggedKind
  pub number : ℕ
  pub status : ResponseStatus
  pub code : Option ResponseCode
  pub text : Bytes
  pub payload : Bytes

pub record ContinuationRequest : Type 0 where
  pub text : Bytes

pub data ServerResponse : Type 0 where
  tagged : TaggedResponse → ServerResponse
  untagged : UntaggedResponse → ServerResponse
  continuation : ContinuationRequest → ServerResponse
