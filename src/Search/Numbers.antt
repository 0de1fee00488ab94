-- ===== src/Search/Numbers.antt =====
-- The numbers of an answer to SEARCH.
use bkmail.Prelude.{
  ℕ, zero, suc, ◌+◌, ◌-◌, ◌*◌, ◌%◌, ◌^◌, ◌<◌, ◌≤◌, ◌≡◌, refl, ap, ◌∙◌, true, false, List, [], ◌∷◌,
  ◌++◌, append_assoc, append-nil, some, Bytes, length, length-append, is_empty, all, All,
  drop_while, take_while-append, drop_while-append, Stops, arith,
}
use bkmail.Astring.{is_digit}
use bkmail.Astring.Decimal.{to_chars, decimal, decimal-to_chars, to_chars_decimal, is_decimal}
use bkmail.Response.{UntaggedKind, UntaggedResponse}
use bkmail.Cursor.Literal.{to_chars_digits, to_chars_nonempty}
use bkmail.Search.{is_blank, wrapped, scan, on_untagged}

wrapped_lem : (n : ℕ) (ds : Bytes) → wrapped (n % 2 ^ 32) ds ≡ decimal n ds % 2 ^ 32
unfolding wrapped decimal
wrapped_lem n [] = refl
wrapped_lem n (d ∷ ds) =
    ap (λ (m : ℕ). wrapped m ds)
      (let e : ((n % 2 ^ 32) * 10 + (d - b'0')) % 2 ^ 32 ≡ (n * 10 + (d - b'0')) % 2 ^ 32 =
          omega arith in
        e)
    ∙ wrapped_lem (n * 10 + (d - b'0')) ds

wrapped-to_chars : (n : ℕ) → n < 2 ^ 32 → wrapped 0 (to_chars n) ≡ n
wrapped-to_chars n h = wrapped_lem 0 (to_chars n) ∙ omega (arith, decimal-to_chars n)

-- The numbers behind a space each.
abbrev pub listed : List ℕ → Bytes
listed [] = []
listed (n ∷ ns) = b' ' ∷ (to_chars n ++ listed ns)

listed-Stops : (ns : List ℕ) → Stops is_digit (listed ns)
unfolding is_digit
listed-Stops [] = tt
listed-Stops (n ∷ ns) = refl

digits_not_blank :
    (ds rest : Bytes)
    → all is_decimal ds ≡ true
    → is_empty ds ≡ false
    → drop_while is_blank (ds ++ rest) ≡ ds ++ rest
digits_not_blank [] rest h e = cc
digits_not_blank (d ∷ ds) rest h e = ground arith

some_left : (ds rest : Bytes) → is_empty ds ≡ false → is_empty (ds ++ rest) ≡ false
some_left [] rest e = cc
some_left (d ∷ ds) rest e = refl

-- A round takes one number.
scan_number :
    (fuel n : ℕ) (rest : Bytes) (matches : List ℕ)
    → n < 2 ^ 32
    → Stops is_digit rest
    → scan (suc fuel) (b' ' ∷ (to_chars n ++ rest)) matches ≡ scan fuel rest (matches ++ n ∷ [])
unfolding scan
scan_number fuel n rest matches h s =
    let digits = to_chars_digits n in
    rw
      (
        digits_not_blank (to_chars n) rest (to_chars_decimal n) (to_chars_nonempty n),
        take_while-append is_digit (to_chars n) rest digits s,
        drop_while-append is_digit (to_chars n) rest digits s,
        to_chars_nonempty n,
        wrapped-to_chars n h,
      )
      refl

length_pos : (ds : Bytes) → is_empty ds ≡ false → 1 ≤ length ds
length_pos [] e = cc
length_pos (d ∷ ds) e = omega arith

-- The same without a space in front.
first_number :
    (fuel n : ℕ) (rest : Bytes) (matches : List ℕ)
    → n < 2 ^ 32
    → Stops is_digit rest
    → scan (suc fuel) (to_chars n ++ rest) matches ≡ scan fuel rest (matches ++ n ∷ [])
unfolding scan
first_number fuel n rest matches h s =
    let digits = to_chars_digits n in
    rw
      (
        digits_not_blank (to_chars n) rest (to_chars_decimal n) (to_chars_nonempty n),
        take_while-append is_digit (to_chars n) rest digits s,
        drop_while-append is_digit (to_chars n) rest digits s,
        some_left (to_chars n) rest (to_chars_nonempty n),
        to_chars_nonempty n,
        wrapped-to_chars n h,
      )
      refl

scan_nothing : (fuel : ℕ) (matches : List ℕ) → scan fuel [] matches ≡ some matches
unfolding scan
scan_nothing zero matches = refl
scan_nothing (suc fuel) matches = refl

abbrev pub All32 : List ℕ → Type 0
All32 ns = All (λ n. n < 2 ^ 32) ns

scan-listed :
    (fuel : ℕ) (ns matches : List ℕ)
    → length ns ≤ fuel
    → All32 ns
    → scan fuel (listed ns) matches ≡ some (matches ++ ns)
scan-listed fuel [] matches l h = rw append-nil (scan_nothing fuel matches)
scan-listed zero (n ∷ ns) matches l h = absurd (omega arith)
scan-listed (suc fuel) (n ∷ ns) matches l (h, rest) =
    scan_number fuel n (listed ns) matches h (listed-Stops ns)
    ∙ scan-listed fuel ns (matches ++ n ∷ []) (omega arith) rest
    ∙ ap (λ t. some t) (append_assoc matches (n ∷ []) ns)

length-listed : (ns : List ℕ) → length ns ≤ length (listed ns)
length-listed [] = omega arith
length-listed (n ∷ ns) = omega (arith, length-append {0} (to_chars n) (listed ns), length-listed ns)

-- The numbers with a space between two of them.
abbrev pub spaced : List ℕ → Bytes
spaced [] = []
spaced (n ∷ ns) = to_chars n ++ listed ns

-- The response that lists the numbers: the parser takes the space behind the word SEARCH.
abbrev pub search_response : List ℕ → UntaggedResponse → UntaggedResponse
search_response ns r = record r { kind = UntaggedKind.search_kind; payload = spaced ns }

-- The first round does not see whether a space stands in front.
scan-spaced :
    (fuel : ℕ) (ns matches : List ℕ)
    → length (spaced ns) ≤ fuel
    → All32 ns
    → scan fuel (spaced ns) matches ≡ some (matches ++ ns)
scan-spaced fuel [] matches l h = rw append-nil (scan_nothing fuel matches)
scan-spaced zero (n ∷ ns) matches l (h, rest) = absurd (
    omega (
      arith,
      length-append {0} (to_chars n) (listed ns),
      length_pos (to_chars n) (to_chars_nonempty n),
    ))
scan-spaced (suc fuel) (n ∷ ns) matches l (h, rest) =
    first_number fuel n (listed ns) matches h (listed-Stops ns)
    ∙ scan-listed fuel ns (matches ++ n ∷ [])
        (omega (
          arith,
          length-append {0} (to_chars n) (listed ns),
          length_pos (to_chars n) (to_chars_nonempty n),
          length-listed ns,
        ))
        rest
    ∙ ap (λ t. some t) (append_assoc matches (n ∷ []) ns)

-- An answer to SEARCH that lists 32-bit numbers with one space between two of them, none too, adds them in
-- their order to what other answers brought.
pub on_untagged-listed :
    (ns matches : List ℕ) (r : UntaggedResponse)
    → All32 ns
    → on_untagged (search_response ns r) matches ≡ some (matches ++ ns)
unfolding on_untagged
on_untagged-listed ns matches r h = scan-spaced (length (spaced ns)) ns matches (omega arith) h
