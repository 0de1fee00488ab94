-- ===== src/Cursor/Monad.antt =====
-- The shape of the cursor's readers, `std::optional` results with the cursor passed on, and their
-- sequencing. A Boolean member function that fills an argument is a reader too: `none` is `false`.
use bkmail.Prelude.{Option, none, some, Bytes}

abbrev pub Reader : Type 0 → Type 0
Reader A = Bytes → Option A × Bytes

infixl 5 ◌>>=?◌
abbrev pub ◌>>=?◌ : {A B : Type 0} → Option A → (A → Option B) → Option B
none >>=? f = none
some a >>=? f = f a

abbrev pub continue_with : {A B : Type 0} → Option A × Bytes → (A → Reader B) → Option B × Bytes
continue_with (none, rest) f = (none, rest)
continue_with (some a, rest) f = f a rest

infixl 5 ◌>>=◌ ◌>>◌
abbrev pub ◌>>=◌ : {A B : Type 0} → Reader A → (A → Reader B) → Reader B
◌>>=◌ m f cs = continue_with (m cs) f

abbrev pub ◌>>◌ : {A B : Type 0} → Reader A → Reader B → Reader B
m >> k = m >>= λ _. k

abbrev pub return : {A : Type 0} → A → Reader A
return a cs = (some a, cs)

abbrev pub reject : {A : Type 0} → Reader A
reject cs = (none, cs)
