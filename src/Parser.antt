-- ===== src/Parser.antt =====
-- include/bkmail/imap/detail/response_parser.h: one complete response, classified by its first
-- token and parsed as far as `ServerResponse` goes.
pub mod Code
pub mod Tagged
pub mod Untagged
use bkmail.Prelude.{
  ℕ, Bool, true, false, not, ◌&&◌, ◌||◌, [], ◌∷◌, Option, none, some, ◌==◌, if◌then◌else◌, Bytes,
  codes, is_empty, drop,
}
use bkmail.Astring.{ascii_iequals, is_digit}
use bkmail.Cursor.{peek, try_consume, read_until_any, read_atom, read_number}
use bkmail.Cursor.Monad.{Reader, ◌>>=◌, ◌>>◌, return, reject}
use bkmail.Response.{
  ResponseStatus, UntaggedKind, ResponseCode, TaggedResponse, UntaggedResponse, ContinuationRequest,
  ServerResponse, tagged, untagged, continuation,
}
unfoldable pub use Code.{parse_resp_code, make_unknown}

unfoldable pub classify_status : Bytes → Option ResponseStatus
unfolding ascii_iequals
classify_status word =
    if ascii_iequals word (codes "OK")
    then some ResponseStatus.ok
    else if ascii_iequals word (codes "NO")
    then some ResponseStatus.refused
    else if ascii_iequals word (codes "BAD")
    then some ResponseStatus.bad
    else if ascii_iequals word (codes "PREAUTH")
    then some ResponseStatus.preauth
    else if ascii_iequals word (codes "BYE")
    then some ResponseStatus.bye
    else none

abbrev pub kind_for : ResponseStatus → UntaggedKind
kind_for ResponseStatus.ok = UntaggedKind.ok
kind_for ResponseStatus.refused = UntaggedKind.refused
kind_for ResponseStatus.bad = UntaggedKind.bad
kind_for ResponseStatus.preauth = UntaggedKind.preauth
kind_for ResponseStatus.bye = UntaggedKind.bye

-- Behind the closing bracket.
unfoldable pub code_text : Bytes → Bytes → Option ResponseCode × Bytes
unfolding parse_resp_code
code_text inner rest =
    let (spaced, text) = try_consume b' ' rest in
    (some (parse_resp_code inner), if spaced then text else [])

unfoldable pub bracket_text : Bytes → Option (Option ResponseCode × Bytes)
unfolding read_until_any code_text
bracket_text rest =
    let (inner, behind) = read_until_any (codes "]") rest in
    let (closed, after) = try_consume b']' behind in
    if closed then some (code_text inner after) else none

-- The code and the text; `none` is the unterminated bracket.
unfoldable pub parse_resp_text : Bytes → Option (Option ResponseCode × Bytes)
unfolding bracket_text
parse_resp_text cs =
    let (spaced, rest) = try_consume b' ' cs in
    if not spaced
    then some (none, [])
    else if peek rest == b'['
    then bracket_text (drop 1 rest)
    else some (none, rest)

unfoldable pub parse_continuation : Bytes → Option ServerResponse
parse_continuation response =
    some (continuation (record { text = (try_consume b' ' (drop 1 response)).1 }))

-- Tagged replies are OK, NO and BAD only.
abbrev pub is_tagged_status : ResponseStatus → Bool
is_tagged_status ResponseStatus.preauth = false
is_tagged_status ResponseStatus.bye = false
is_tagged_status _ = true

unfoldable pub tagged_reply :
    Bytes → ResponseStatus → Option (Option ResponseCode × Bytes) → Option ServerResponse
tagged_reply tag status none = none
tagged_reply tag status (some (code, text)) =
    some (tagged (record { tag = tag; status = status; code = code; text = text }))

unfoldable pub tagged_status : Bytes → Option ResponseStatus → Bytes → Option ServerResponse
unfolding tagged_reply parse_resp_text
tagged_status tag none rest = none
tagged_status tag (some status) rest =
    if is_tagged_status status then tagged_reply tag status (parse_resp_text rest) else none

unfoldable pub parse_tagged : Bytes → Option ServerResponse
unfolding read_atom classify_status tagged_status
parse_tagged response =
    let (tag, rest) = read_atom response in
    let (spaced, body) = try_consume b' ' rest in
    if is_empty tag || not spaced
    then none
    else let (word, text) = read_atom body in tagged_status tag (classify_status word) text

-- The fields that the default constructor gives.
abbrev pub blank : UntaggedKind → UntaggedResponse
blank kind = record {
  kind = kind;
  number = 0;
  status = ResponseStatus.ok;
  code = none;
  text = [];
  payload = [];
}

abbrev pub payload_of : Bytes → Bytes
payload_of cs = let (spaced, rest) = try_consume b' ' cs in if spaced then rest else []

-- The keyword behind a number; `start` is the text from the number on.
unfoldable pub numbered : ℕ → Bytes → Bytes → Bytes → UntaggedResponse
unfolding ascii_iequals
numbered n start word rest =
    if ascii_iequals word (codes "EXISTS")
    then record (blank UntaggedKind.exists) { number = n }
    else if ascii_iequals word (codes "RECENT")
    then record (blank UntaggedKind.recent) { number = n }
    else if ascii_iequals word (codes "EXPUNGE")
    then record (blank UntaggedKind.expunge) { number = n }
    else if ascii_iequals word (codes "FETCH")
    then record (blank UntaggedKind.fetch) { number = n; payload = payload_of rest }
    else record (blank UntaggedKind.unknown) { number = n; payload = start }

unfoldable pub numbered_response : Bytes → Option ℕ × Bytes → Option ServerResponse
unfolding numbered read_atom
numbered_response start (none, rest) = none
numbered_response start (some n, rest) =
    let (spaced, body) = try_consume b' ' rest in
    let (word, behind) = read_atom body in
    if spaced then some (untagged (numbered n start word behind)) else none

unfoldable pub status_response :
    ResponseStatus → Option (Option ResponseCode × Bytes) → Option ServerResponse
status_response status none = none
status_response status (some (code, text)) =
    some (untagged (record (blank (kind_for status)) { status = status; code = code; text = text }))

-- The data keywords; anything else is kept whole.
unfoldable pub data_kind : Bytes → Option UntaggedKind
unfolding ascii_iequals
data_kind word =
    if ascii_iequals word (codes "CAPABILITY")
    then some UntaggedKind.capability
    else if ascii_iequals word (codes "FLAGS")
    then some UntaggedKind.flags
    else if ascii_iequals word (codes "LIST")
    then some UntaggedKind.list
    else if ascii_iequals word (codes "LSUB")
    then some UntaggedKind.lsub
    else if ascii_iequals word (codes "STATUS")
    then some UntaggedKind.status
    else if ascii_iequals word (codes "SEARCH")
    then some UntaggedKind.search_kind
    else none

unfoldable pub data_response : Bytes → Option UntaggedKind → Bytes → ServerResponse
data_response start none rest = untagged (record (blank UntaggedKind.unknown) { payload = start })
data_response start (some kind) rest = untagged (record (blank kind) { payload = payload_of rest })

unfoldable pub keyword_response :
    Bytes → Bytes → Option ResponseStatus → Bytes → Option ServerResponse
unfolding status_response data_response data_kind parse_resp_text
keyword_response start word (some status) rest = status_response status (parse_resp_text rest)
keyword_response start word none rest = some (data_response start (data_kind word) rest)

-- Behind `* `.
unfoldable pub untagged_body : Bytes → Option ServerResponse
unfolding numbered_response keyword_response read_number read_atom classify_status
untagged_body start =
    if is_digit (peek start)
    then numbered_response start (read_number start)
    else let (word, rest) = read_atom start in
      if is_empty word then none else keyword_response start word (classify_status word) rest

unfoldable pub parse_untagged : Bytes → Option ServerResponse
unfolding untagged_body
parse_untagged response =
    let (spaced, start) = try_consume b' ' (drop 1 response) in
    if spaced then untagged_body start else none

unfoldable pub parse : Bytes → Option ServerResponse
unfolding parse_continuation parse_untagged parse_tagged
parse [] = none
parse (c ∷ cs) =
    if c == b'+'
    then parse_continuation (c ∷ cs)
    else if c == b'*'
    then parse_untagged (c ∷ cs)
    else parse_tagged (c ∷ cs)
