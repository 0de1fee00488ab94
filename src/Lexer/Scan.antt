-- ===== src/Lexer/Scan.antt =====
-- The search for CRLF in a buffer that grows.
use bkmail.Prelude.{
  ℕ, zero, suc, ◌+◌, ◌≤◌, [], ◌∷◌, ◌++◌, ◌≡◌, refl, Option, none, some, arith, Bytes, length, drop,
  inl, inr, Option-cases,
}
use bkmail.Lexer.{find_crlf}

drop_nil : (n : ℕ) → ◌≡◌ {A = Bytes} (drop n []) []
drop_nil zero = refl
drop_nil (suc n) = refl

-- Two slices in a row are one.
pub drop-drop : (m n k : ℕ) (xs : Bytes) → m + n ≡ k → drop n (drop m xs) ≡ drop k xs
drop-drop zero n k xs e = let e' : n ≡ k = omega arith in rw e'
drop-drop (suc m) n zero xs e = absurd (omega arith)
drop-drop (suc m) n (suc k) [] e = drop_nil n
drop-drop (suc m) n (suc k) (x ∷ xs) e = drop-drop m n k xs (omega arith)

pub find_crlf_bound : (xs : Bytes) {k : ℕ} → find_crlf xs ≡ some k → k + 2 ≤ length xs
unfolding find_crlf
find_crlf_bound [] h = cc
find_crlf_bound (a ∷ []) h = cc
find_crlf_bound (a ∷ b ∷ xs) h = elim (Option-cases (find_crlf (b ∷ xs))) [
  | inl e ↦ ground arith
  | inr (k, e) ↦ ground (arith, find_crlf_bound (b ∷ xs) e)
]

-- A line end that is there stays where it is.
pub find_crlf-append :
    (xs ys : Bytes) {k : ℕ} → find_crlf xs ≡ some k → find_crlf (xs ++ ys) ≡ some k
unfolding find_crlf
find_crlf-append [] ys h = cc
find_crlf-append (a ∷ []) ys h = cc
find_crlf-append (a ∷ b ∷ xs) ys h = elim (Option-cases (find_crlf (b ∷ xs))) [
  | inl e ↦ ground arith
  | inr (k, e) ↦ ground (arith, find_crlf-append (b ∷ xs) ys e)
]

abbrev pub shift : ℕ → Option ℕ → Option ℕ
shift n none = none
shift n (some k) = some (n + k)

-- After a search with no result only the last byte has to be searched again.
pub find_crlf_resume :
    (x : ℕ) (xs ys : Bytes)
    → find_crlf (x ∷ xs) ≡ none
    → find_crlf (x ∷ (xs ++ ys)) ≡ shift (length xs) (find_crlf (drop (length xs) (x ∷ (xs ++ ys))))
unfolding find_crlf
find_crlf_resume x [] ys h = ground arith
find_crlf_resume x (y ∷ xs) ys h = ground (arith, find_crlf_resume y xs ys)
