-- ===== src/Cursor/RoundTrip.antt =====
-- parse_cursor.h against astring.h: the readers take back what the renderers append, whatever
-- follows it.
use bkmail.Prelude.{
  ℕ, Bool, true, false, ◌||◌, not, [], ◌∷◌, ◌++◌, ◌≡◌, refl, ◌∙◌, ap, some, arith, ◌==◌, inl, inr,
  Bool-cases, Bytes, all, if◌then◌else◌,
}
use bkmail.Astring.{is_quoted_special, quoted_body, render_quoted}
use bkmail.Cursor.{contains, scan_quoted, unescape, close_quoted, read_quoted, push_scanned}

-- What a quoted string may hold: anything but CR and LF.
abbrev pub is_quotable : ℕ → Bool
is_quotable c = not (c == b'\r' || c == b'\n')

-- The raw text between the quotes.
escaped : Bytes → Bytes
escaped [] = []
escaped (c ∷ cs) = if is_quoted_special c then b'\\' ∷ c ∷ escaped cs else c ∷ escaped cs

scan_quoted_close : (rest : Bytes) → scan_quoted (b'"' ∷ rest) ≡ (some [], b'"' ∷ rest)
unfolding scan_quoted
scan_quoted_close [] = refl
scan_quoted_close (c ∷ rest) = refl

scan_quoted_plain :
    (c : ℕ) (ds : Bytes)
    → is_quotable c ≡ true
    → is_quoted_special c ≡ false
    → scan_quoted (c ∷ ds) ≡ push_scanned (c ∷ []) (scan_quoted ds)
unfolding scan_quoted is_quoted_special
scan_quoted_plain c [] q s = ground arith
scan_quoted_plain c (d ∷ ds) q s = ground arith

scan_quoted_escape :
    (c : ℕ) (ds : Bytes)
    → is_quoted_special c ≡ true
    → scan_quoted (b'\\' ∷ c ∷ ds) ≡ push_scanned (b'\\' ∷ c ∷ []) (scan_quoted ds)
unfolding scan_quoted
scan_quoted_escape c ds s = rw s

scan_quoted-quoted_body :
    (v rest : Bytes)
    → all is_quotable v ≡ true
    → scan_quoted (quoted_body v ++ rest) ≡ (some (escaped v), b'"' ∷ rest)
unfolding quoted_body escaped
scan_quoted-quoted_body [] rest h = scan_quoted_close rest
scan_quoted-quoted_body (c ∷ cs) rest h = elim (Bool-cases (is_quoted_special c)) [
  | inl s ↦ rw s (
      scan_quoted_escape c (quoted_body cs ++ rest) s
      ∙ ap (push_scanned (b'\\' ∷ c ∷ [])) (scan_quoted-quoted_body cs rest (ground arith)))
  | inr s ↦ rw s (
      scan_quoted_plain c (quoted_body cs ++ rest) (ground arith) s
      ∙ ap (push_scanned (c ∷ [])) (scan_quoted-quoted_body cs rest (ground arith)))
]

unescape_kept :
    (c : ℕ) (ds : Bytes) → is_quoted_special c ≡ false → unescape (c ∷ ds) ≡ c ∷ unescape ds
unfolding unescape is_quoted_special
unescape_kept c [] s = ground arith
unescape_kept c (d ∷ ds) s = ground arith

unescape_escape : (c : ℕ) (ds : Bytes) → unescape (b'\\' ∷ c ∷ ds) ≡ c ∷ unescape ds
unfolding unescape
unescape_escape c ds = refl

unescape-escaped : (v : Bytes) → unescape (escaped v) ≡ v
unfolding escaped
unescape-escaped [] = unfold unescape in refl
unescape-escaped (c ∷ cs) = elim (Bool-cases (is_quoted_special c)) [
  | inl s ↦ rw s (unescape_escape c (escaped cs) ∙ ap (◌∷◌ c) (unescape-escaped cs))
  | inr s ↦ rw s (unescape_kept c (escaped cs) s ∙ ap (◌∷◌ c) (unescape-escaped cs))
]

escaped_plain : (v : Bytes) → contains (escaped v) b'\\' ≡ false → escaped v ≡ v
unfolding escaped is_quoted_special
escaped_plain [] h = refl
escaped_plain (c ∷ cs) h = ground (arith, escaped_plain cs)

-- `read_quoted` takes back what `render_quoted` appends, whatever follows it, for every value with
-- no CR and no LF.
pub read_quoted-render_quoted :
    (v rest : Bytes)
    → all is_quotable v ≡ true
    → read_quoted (render_quoted v ++ rest) ≡ (some v, rest)
unfolding read_quoted render_quoted close_quoted
read_quoted-render_quoted v rest h =
    ap close_quoted (scan_quoted-quoted_body v rest h)
    ∙ elim (Bool-cases (contains (escaped v) b'\\')) [
      | inl e ↦ rw e (rw unescape-escaped)
      | inr e ↦ rw e (rw (escaped_plain v e))
    ]
