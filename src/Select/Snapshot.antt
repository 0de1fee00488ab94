-- ===== src/Select/Snapshot.antt =====
-- The snapshot of SELECT and EXAMINE.
use bkmail.Prelude.{ℕ, Bool, true, false, ◌&&◌, not, List, [], ◌∷◌, Option, none, some}
use bkmail.Response.{
  UntaggedKind, ResponseCode, uidvalidity_code, uidnext_code, unseen_code, read_only_code,
  read_write_code, UntaggedResponse,
}
use bkmail.Select.{SelectCommand, on_untagged}

abbrev pub is_exists : UntaggedKind → Bool
is_exists UntaggedKind.exists = true
is_exists _ = false

-- The responses in their order.
unfoldable pub absorb_all : List UntaggedResponse → SelectCommand → SelectCommand
unfolding on_untagged
absorb_all [] s = s
absorb_all (r ∷ rs) s = absorb_all rs (on_untagged r s)

unfoldable pub no_exists : List UntaggedResponse → Bool
no_exists [] = true
no_exists (r ∷ rs) = not (is_exists r.kind) && no_exists rs

-- What a response code says of the mailbox.
abbrev pub access : Option ResponseCode → Option Bool
access (some read_only_code) = some true
access (some read_write_code) = some false
access _ = none

abbrev pub validity : ResponseCode → Option ℕ
validity (uidvalidity_code value) = some value
validity _ = none

abbrev pub next_uid : ResponseCode → Option ℕ
next_uid (uidnext_code value) = some value
next_uid _ = none

abbrev pub first_unseen : ResponseCode → Option (Option ℕ)
first_unseen (unseen_code value) = some (some value)
first_unseen _ = none

abbrev pub or_else : {A : Type 0} → Option A → A → A
or_else none default = default
or_else (some a) default = a

-- What an untagged response says in its code, if it is an OK.
abbrev pub said :
    {A : Type 0} → (ResponseCode → Option A) → UntaggedKind → Option ResponseCode → Option A
said read UntaggedKind.ok (some code) = read code
said read _ _ = none

-- The last that the responses say, or what was there before.
abbrev pub last_said : {A : Type 0} → (ResponseCode → Option A) → List UntaggedResponse → A → A
last_said read [] known = known
last_said read (r ∷ rs) known = last_said read rs (or_else (said read r.kind r.code) known)
