-- ===== src/Cursor.antt =====
-- include/bkmail/imap/detail/parse_cursor.h: the deep-parse cursor. A cursor over a fixed text is
-- the text that remains (`remaining()`), and a member function that may move it returns its result
-- and the new remainder, on failure too: several readers leave the cursor past what they rejected.
pub mod Monad
pub mod RoundTrip
pub mod Literal
pub mod Rendered
pub mod Progress
use bkmail.Prelude.{
  ℕ, ◌+◌, ◌≡◌, Bool, true, false, ◌&&◌, ◌||◌, not, List, [], ◌∷◌, ◌++◌, Option, none, some, ltb,
  leb, ◌==◌, if◌then◌else◌, Bytes, codes, length, take, drop, is_empty, take_while, drop_while,
}
use bkmail.Astring.{is_digit, is_atom_char, is_quoted_special, ascii_iequals}
use bkmail.Astring.Decimal.{from_chars}
use Monad.{Reader, ◌>>=?◌}

-- `'\0'` at the end of the input.
abbrev pub peek : Bytes → ℕ
peek [] = 0
peek (c ∷ cs) = c

-- The answer and the cursor afterwards.
abbrev pub try_consume : ℕ → Bytes → Bool × Bytes
try_consume expected [] = (false, [])
try_consume expected (c ∷ cs) = if c == expected then (true, cs) else (false, c ∷ cs)

unfoldable pub try_consume_ci : Bytes → Bytes → Bool × Bytes
unfolding ascii_iequals
try_consume_ci word rest =
    if ltb (length rest) (length word) || not (ascii_iequals (take (length word) rest) word)
    then (false, rest)
    else (true, drop (length word) rest)

abbrev pub is_space : ℕ → Bool
is_space c = c == b' '

abbrev pub skip_spaces : Bytes → Bytes
skip_spaces = drop_while is_space

abbrev pub contains : Bytes → ℕ → Bool
contains [] c = false
contains (s ∷ stops) c = s == c || contains stops c

unfoldable pub read_until_any : Bytes → Bytes → Bytes × Bytes
read_until_any stops cs =
    (take_while (λ c. not (contains stops c)) cs, drop_while (λ c. not (contains stops c)) cs)

unfoldable pub read_atom : Bytes → Bytes × Bytes
read_atom cs = (take_while is_atom_char cs, drop_while is_atom_char cs)

-- The digits are consumed also where the value overflows 64 bits.
unfoldable pub read_number : Reader ℕ
unfolding from_chars
read_number cs =
    let digits = take_while is_digit cs in
    let rest = drop_while is_digit cs in
    if is_empty digits then (none, rest) else (from_chars digits, rest)

abbrev push_scanned : Bytes → Option Bytes × Bytes → Option Bytes × Bytes
push_scanned cs (none, rest) = (none, rest)
push_scanned cs (some body, rest) = (some (cs ++ body), rest)

-- The loop of `read_quoted`: the raw body up to the closing quote, where the cursor stops.
unfoldable pub scan_quoted : Reader Bytes
unfolding is_quoted_special
scan_quoted [] = (none, [])
scan_quoted (c ∷ []) =
    if c == b'"'
    then (some [], c ∷ [])
    else if c == b'\\'
    then (none, [])
    else if c == b'\r' || c == b'\n'
    then (none, c ∷ [])
    else (none, [])
scan_quoted (c ∷ d ∷ cs) =
    let escape = push_scanned (c ∷ d ∷ []) (scan_quoted cs) in
    let plain = push_scanned (c ∷ []) (scan_quoted (d ∷ cs)) in
    if c == b'"'
    then (some [], c ∷ d ∷ cs)
    else if c == b'\\'
    then if is_quoted_special d then escape else (none, d ∷ cs)
    else if c == b'\r' || c == b'\n'
    then (none, c ∷ d ∷ cs)
    else plain

-- The copy into `scratch_`: a backslash is skipped and the character behind it kept.
unfoldable pub unescape : Bytes → Bytes
unescape [] = []
unescape (c ∷ []) = if c == b'\\' then [] else c ∷ []
unescape (c ∷ d ∷ body) =
    let skipped = d ∷ unescape body in
    let kept = c ∷ unescape (d ∷ body) in if c == b'\\' then skipped else kept

-- `escaped` is whether the loop met a backslash.
unfoldable pub close_quoted : Option Bytes × Bytes → Option Bytes × Bytes
unfolding unescape
close_quoted (none, rest) = (none, rest)
close_quoted (some body, rest) =
    (some (if contains body b'\\' then unescape body else body), drop 1 rest)

unfoldable pub read_quoted : Reader Bytes
unfolding scan_quoted close_quoted
read_quoted cs =
    let (opened, inner) = try_consume b'"' cs in
    if opened then close_quoted (scan_quoted inner) else (none, inner)

-- A mark that may stand here.
abbrev pub skip_mark : ℕ → Bytes → Bytes
skip_mark m cs = (try_consume m cs).1

abbrev pub expect : ℕ → Bytes → Option Bytes
expect m [] = none
expect m (c ∷ cs) = if c == m then some cs else none

-- `~{n+}` or its shorter forms, CRLF: the announced count and what follows.
unfoldable pub literal_marker : Bytes → Option (ℕ × Bytes)
unfolding from_chars
literal_marker cs = expect b'{' (skip_mark b'~' cs) >>=? λ inner.
    let digits = take_while is_digit inner in
    (if is_empty digits then none else from_chars digits) >>=? λ count.
    expect b'}' (skip_mark b'+' (drop_while is_digit inner)) >>=? λ marked.
    expect b'\r' marked >>=? λ cr. expect b'\n' cr >>=? λ octets. some (count, octets)

-- A failure leaves the cursor where it was.
unfoldable pub take_octets : Bytes → Option (ℕ × Bytes) → Option Bytes × Bytes
take_octets cs none = (none, cs)
take_octets cs (some (count, octets)) =
    if ltb (length octets) count then (none, cs) else (some (take count octets), drop count octets)

unfoldable pub read_literal : Reader Bytes
unfolding literal_marker take_octets
read_literal cs = take_octets cs (literal_marker cs)

unfoldable pub read_string : Reader Bytes
unfolding read_quoted read_literal
read_string cs =
    if peek cs == b'"'
    then read_quoted cs
    else if peek cs == b'{' || peek cs == b'~'
    then read_literal cs
    else (none, cs)

unfoldable pub read_astring : Reader Bytes
unfolding read_string read_atom
read_astring cs =
    if peek cs == b'"' || peek cs == b'{' || peek cs == b'~'
    then read_string cs
    else let (word, rest) = read_atom cs in
      if is_empty word then (none, rest) else (some word, rest)

-- `NIL` at an atom boundary.
unfoldable pub at_nil : Bytes → Bool
unfolding ascii_iequals is_atom_char
at_nil rest =
    leb 3 (length rest)
    && ascii_iequals (take 3 rest) (codes "NIL")
    && (length rest == 3 || not (is_atom_char (peek (drop 3 rest))))

abbrev pub present : Option Bytes × Bytes → Option (Option Bytes) × Bytes
present (none, rest) = (none, rest)
present (some value, rest) = (some (some value), rest)

unfoldable pub read_nstring : Reader (Option Bytes)
unfolding at_nil read_string
read_nstring rest = if at_nil rest then (some none, drop 3 rest) else present (read_string rest)
