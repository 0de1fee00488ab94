-- ===== src/Astring/Decimal.antt =====
-- `std::to_chars` and `std::from_chars` in base ten, for the unsigned 64-bit numbers that astring.h,
-- parse_cursor.h and response_lexer.h convert: the shortest decimal text, and its value unless that
-- exceeds 64 bits.
use bkmail.Prelude.{
  ℕ, zero, suc, ◌+◌, ◌-◌, ◌*◌, ◌/◌, ◌%◌, ◌^◌, ◌<◌, ◌≤◌, ◌≡◌, refl, [], ◌∷◌, ◌++◌, Option, none,
  some, Bool, true, false, ◌&&◌, arith, ltb, leb, if◌then◌else◌, Bool-cases, inl, inr, Bytes, all,
  lt→ltb,
}

-- Every round drops one digit; `n + 1` rounds are enough.
digits : ℕ → ℕ → Bytes
digits zero n = []
digits (suc f) n = elim (ltb n 10) [
  | true ↦ (b'0' + n) ∷ []
  | false ↦ digits f (n / 10) ++ (b'0' + n % 10) ∷ []
]

unfoldable pub to_chars : ℕ → Bytes
unfolding digits
to_chars n = digits (suc n) n

-- The number that a run of digits denotes, on top of what was read.
unfoldable pub decimal : ℕ → Bytes → ℕ
decimal acc [] = acc
decimal acc (d ∷ ds) = decimal (acc * 10 + (d - b'0')) ds

-- `std::errc::result_out_of_range` is `none`.
unfoldable pub from_chars : Bytes → Option ℕ
unfolding decimal
from_chars ds = if ltb (decimal 0 ds) (2 ^ 64) then some (decimal 0 ds) else none

decimal-append : (acc : ℕ) (xs ys : Bytes) → decimal acc (xs ++ ys) ≡ decimal (decimal acc xs) ys
unfolding decimal
decimal-append acc [] ys = refl
decimal-append acc (x ∷ xs) ys = decimal-append (acc * 10 + (x - b'0')) xs ys

decimal-digits : (f n : ℕ) → n < f → decimal 0 (digits f n) ≡ n
unfolding digits decimal
decimal-digits zero n h = elim h [ ]
decimal-digits (suc f) n h =
    ground (
      arith,
      decimal-digits f (n / 10),
      decimal-append 0 (digits f (n / 10)) ((b'0' + n % 10) ∷ []),
    )

pub decimal-to_chars : (n : ℕ) → decimal 0 (to_chars n) ≡ n
unfolding to_chars
decimal-to_chars n = decimal-digits (suc n) n (omega arith)

-- Reading back the text of a 64-bit number gives the number.
pub from_chars-to_chars : (n : ℕ) → n < 2 ^ 64 → from_chars (to_chars n) ≡ some n
unfolding from_chars
from_chars-to_chars n h = rw decimal-to_chars (rw (lt→ltb n _ h))

abbrev pub is_decimal : ℕ → Bool
is_decimal c = leb b'0' c && leb c b'9'

all-append :
    (p : ℕ → Bool) (xs : Bytes) (d : ℕ) → all p xs ≡ true → p d ≡ true → all p (xs ++ d ∷ []) ≡ true
all-append p [] d h k = ground arith
all-append p (x ∷ xs) d h k = ground (arith, all-append p xs d)

digits_decimal : (f n : ℕ) → all is_decimal (digits f n) ≡ true
unfolding digits
digits_decimal zero n = refl
digits_decimal (suc f) n =
    ground
      (arith, digits_decimal f (n / 10), all-append is_decimal (digits f (n / 10)) (b'0' + n % 10))

pub to_chars_decimal : (n : ℕ) → all is_decimal (to_chars n) ≡ true
unfolding to_chars
to_chars_decimal n = digits_decimal (suc n) n

-- The text is not empty: it has a last digit.
pub to_chars_last :
    (n : ℕ) → (ds : Bytes) × (d : ℕ) × (to_chars n ≡ ds ++ d ∷ []) × (is_decimal d ≡ true)
unfolding to_chars digits
to_chars_last n = elim (Bool-cases (ltb n 10)) [
  | inl small ↦ ([], b'0' + n, ground arith, ground arith)
  | inr large ↦ (digits n (n / 10), b'0' + n % 10, ground arith, ground arith)
]

digits_fuel : (f g n : ℕ) → n < f → n < g → digits f n ≡ digits g n
unfolding digits
digits_fuel zero g n p q = elim p [ ]
digits_fuel (suc f) zero n p q = elim q [ ]
digits_fuel (suc f) (suc g) n p q = elim (Bool-cases (ltb n 10)) [
  | inl small ↦ ground arith
  | inr large ↦ ground (arith, digits_fuel f g (n / 10) (ground arith) (ground arith))
]

-- A further digit behind a number.
pub to_chars-snoc :
    (n d : ℕ) → 1 ≤ n → d < 10 → to_chars (n * 10 + d) ≡ to_chars n ++ (b'0' + d) ∷ []
unfolding to_chars digits
to_chars-snoc n d p q = ground (arith, digits_fuel (n * 10 + d) (suc n) n)

pub to_chars_digit : (d : ℕ) → d < 10 → to_chars d ≡ (b'0' + d) ∷ []
unfolding to_chars digits
to_chars_digit d h = ground arith

digits_head :
    (f n : ℕ)
    → 1 ≤ n
    → n < f
    → (c : ℕ) × (cs : Bytes) × (digits f n ≡ c ∷ cs) × (b'1' ≤ c) × (c ≤ b'9')
unfolding digits
digits_head zero n p q = elim q [ ]
digits_head (suc f) n p q = elim (Bool-cases (ltb n 10)) [
  | inl small ↦ (b'0' + n, [], ground arith, omega arith, ground arith)
  | inr large ↦
      let (c, cs, e, low, high) = digits_head f (n / 10) (ground arith) (ground arith) in
      (c, cs ++ (b'0' + n % 10) ∷ [], ground arith, low, high)
]

-- The text of a positive number starts with a digit other than zero.
pub to_chars_head :
    (n : ℕ) → 1 ≤ n → (c : ℕ) × (cs : Bytes) × (to_chars n ≡ c ∷ cs) × (b'1' ≤ c) × (c ≤ b'9')
unfolding to_chars
to_chars_head n h = digits_head (suc n) n h (omega arith)
