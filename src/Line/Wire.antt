-- ===== src/Line/Wire.antt =====
-- A server that reads the lines of the mailbox commands and of the commands without arguments.
use bkmail.Prelude.{
  ◌≡◌, refl, true, List, [], ◌∷◌, ◌++◌, Option, none, some, ◌==◌, if◌then◌else◌, Bytes, codes,
  length, all, take_while, drop_while, take_while-append, drop_while-append, Stops, All, ap, ◌∙◌,
}
use bkmail.Astring.{is_atom_char, is_atom_special}
use bkmail.Line.{LineCommand}
use bkmail.Line.Connection.{noop_command, logout_command, starttls_command}
use bkmail.Line.Mailbox.{
  create_command, delete_command, rename_command, subscribe_command, unsubscribe_command,
}
use bkmail.Line.Message.{close_command, expunge_command}
use bkmail.Line.Arguments.{
  read_arguments, arguments, IsReadable, read_arguments-arguments, length-arguments,
}

pub record RequestLine : Type 0 where
  pub tag : Bytes
  pub verb : Bytes
  pub operands : List Bytes

abbrev with_operands : Bytes → Bytes → Option (List Bytes) → Option RequestLine
with_operands tag verb none = none
with_operands tag verb (some args) = some (record { tag = tag; verb = verb; operands = args })

abbrev read_verb : Bytes → Bytes → Option RequestLine
read_verb tag [] = none
read_verb tag (c ∷ cs) =
    if c == b' '
    then with_operands tag (take_while is_atom_char cs)
        (let rest = drop_while is_atom_char cs in read_arguments (length rest) rest)
    else none

-- A tag, a space, the name of the command, and the arguments.
unfoldable pub read_request : Bytes → Option RequestLine
unfolding read_arguments
read_request text = read_verb (take_while is_atom_char text) (drop_while is_atom_char text)

pub data Request : Type 0 where
  noop logout starttls close expunge : Request
  create delete subscribe unsubscribe : Bytes → Request
  rename : Bytes → Bytes → Request

abbrev pub command_of : Request → LineCommand
command_of noop = noop_command
command_of logout = logout_command
command_of starttls = starttls_command
command_of close = close_command
command_of expunge = expunge_command
command_of (create m) = create_command m
command_of (delete m) = delete_command m
command_of (subscribe m) = subscribe_command m
command_of (unsubscribe m) = unsubscribe_command m
command_of (rename a b) = rename_command a b

abbrev pub verb_of : Request → Bytes
verb_of noop = codes "NOOP"
verb_of logout = codes "LOGOUT"
verb_of starttls = codes "STARTTLS"
verb_of close = codes "CLOSE"
verb_of expunge = codes "EXPUNGE"
verb_of (create m) = codes "CREATE"
verb_of (delete m) = codes "DELETE"
verb_of (subscribe m) = codes "SUBSCRIBE"
verb_of (unsubscribe m) = codes "UNSUBSCRIBE"
verb_of (rename a b) = codes "RENAME"

abbrev pub operands_of : Request → List Bytes
operands_of (create m) = m ∷ []
operands_of (delete m) = m ∷ []
operands_of (subscribe m) = m ∷ []
operands_of (unsubscribe m) = m ∷ []
operands_of (rename a b) = a ∷ b ∷ []
operands_of _ = []

line_shape :
    (r : Request) (tag : Bytes)
    → (command_of r).line tag ≡ tag ++ b' ' ∷ (verb_of r ++ arguments (operands_of r))
unfolding noop_command logout_command starttls_command close_command expunge_command create_command
    delete_command subscribe_command unsubscribe_command rename_command
line_shape noop tag = refl
line_shape logout tag = refl
line_shape starttls tag = refl
line_shape close tag = refl
line_shape expunge tag = refl
line_shape (create m) tag = refl
line_shape (delete m) tag = refl
line_shape (subscribe m) tag = refl
line_shape (unsubscribe m) tag = refl
line_shape (rename a b) tag = refl

verb_atom : (r : Request) → all is_atom_char (verb_of r) ≡ true
unfolding is_atom_char is_atom_special
verb_atom noop = refl
verb_atom logout = refl
verb_atom starttls = refl
verb_atom close = refl
verb_atom expunge = refl
verb_atom (create m) = refl
verb_atom (delete m) = refl
verb_atom (subscribe m) = refl
verb_atom (unsubscribe m) = refl
verb_atom (rename a b) = refl

arguments_stop : (args : List Bytes) → Stops is_atom_char (arguments args)
unfolding is_atom_char is_atom_special
arguments_stop [] = refl
arguments_stop (a ∷ args) = refl

space_stop : (cs : Bytes) → Stops is_atom_char (b' ' ∷ cs)
unfolding is_atom_char is_atom_special
space_stop cs = refl

read_shape :
    (tag verb : Bytes) (args : List Bytes)
    → all is_atom_char tag ≡ true
    → all is_atom_char verb ≡ true
    → All IsReadable args
    → read_request (tag ++ b' ' ∷ (verb ++ arguments args))
      ≡ some (record { tag = tag; verb = verb; operands = args })
unfolding read_request
read_shape tag verb args t v r =
    rw
      (
        take_while-append is_atom_char tag (b' ' ∷ (verb ++ arguments args)) t
            (space_stop (verb ++ arguments args)),
        drop_while-append is_atom_char tag (b' ' ∷ (verb ++ arguments args)) t
            (space_stop (verb ++ arguments args)),
        take_while-append is_atom_char verb (arguments args) v (arguments_stop args),
        drop_while-append is_atom_char verb (arguments args) v (arguments_stop args),
        read_arguments-arguments (length (arguments args)) args (length-arguments args) r,
      )
      refl

-- A server reads the rendered line of NOOP, LOGOUT, STARTTLS, CLOSE, EXPUNGE, CREATE, DELETE, SUBSCRIBE,
-- UNSUBSCRIBE and RENAME back to the tag, the command's name and the
-- operands it was made with, if the tag is a run of atom characters and no operand has a CR or LF or
-- starts with `~`.
pub read_request-line :
    (r : Request) (tag : Bytes)
    → all is_atom_char tag ≡ true
    → All IsReadable (operands_of r)
    → read_request ((command_of r).line tag)
      ≡ some (record { tag = tag; verb = verb_of r; operands = operands_of r })
read_request-line r tag t h =
    ap read_request (line_shape r tag)
    ∙ read_shape tag (verb_of r) (operands_of r) t (verb_atom r) h
