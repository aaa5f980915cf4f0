-- ===== src/Sid/Text.antt =====
-- Printing a SID, and reading it back.
use cssc.Common.{
  ℕ, zero, suc, ◌+◌, ◌/◌, ◌%◌, ◌^◌, ◌≤◌, ◌<◌, ◌≡◌, sym, ap, ◌∙◌, inl, inr, [], ◌∷◌, ◌++◌,
  append-nil, false, not, Bytes, arith, if◌then◌else◌, ◌==◌, ==_iff, Bool-cases,
}
use cssc.Common.Decimal.{digits, decimal}
use cssc.Common.Int.{ℤ, pos, negsuc}
use cssc.Sid.{Sid, sid, is_zero, get_id_comp, parse}

-- `%d` of a component.
abbrev pub comp_text : ℤ → Bytes
comp_text (pos n) = decimal n
comp_text (negsuc n) = b'-' ∷ decimal (suc n)

-- `ostream_insert`, and the text of `print`.
unfoldable pub print : Sid → Bytes
print a =
    comp_text a.rel
    ++ (if not (is_zero a.level)
        then b'.'
          ∷ (comp_text a.level
              ++ (if not (is_zero a.branch)
                  then b'.'
                    ∷ (comp_text a.branch
                        ++ (if not (is_zero a.sequence) then b'.' ∷ comp_text a.sequence else []))
                  else []))
        else [])

comp_digit :
    (n : ℕ) (s : Bytes) → n < 2 ^ 15 → get_id_comp ((b'0' + n % 10) ∷ s) (n / 10) ≡ get_id_comp s n
unfolding get_id_comp
comp_digit n s h = ground arith

comp-digits :
    (fuel n : ℕ) (out rest : Bytes)
    → n ≤ fuel
    → n < 2 ^ 15
    → get_id_comp (digits fuel n out ++ rest) 0 ≡ get_id_comp (out ++ rest) n
unfolding digits
comp-digits zero n out rest h small = let e : n ≡ 0 = omega arith in rw e
comp-digits (suc fuel) n out rest h small = elim (Bool-cases (n == 0)) [
  | inl z ↦ rw z (ap (get_id_comp (out ++ rest)) (sym ((==_iff n 0).0 z)))
  | inr p ↦ rw p (
      comp-digits fuel (n / 10) ((b'0' + n % 10) ∷ out) rest (ground arith) (omega arith)
      ∙ comp_digit n (out ++ rest) small)
]

comp-decimal :
    (n : ℕ) (rest : Bytes) → n < 2 ^ 15 → get_id_comp (decimal n ++ rest) 0 ≡ get_id_comp rest n
unfolding decimal
comp-decimal n rest small = elim (Bool-cases (n == 0)) [
  | inl z ↦ rw z (comp_digit 0 rest (omega arith) ∙ ap (get_id_comp rest) (sym ((==_iff n 0).0 z)))
  | inr p ↦ rw p (comp-digits n n [] rest (omega arith) small)
]

-- The component ends at the end of the text, or at a dot behind a positive number.
comp_end : (n : ℕ) → n < 2 ^ 15 → get_id_comp [] n ≡ (pos n, [])
unfolding get_id_comp
comp_end n h = ground arith

comp_dot : (n : ℕ) (s : Bytes) → 0 < n → n < 2 ^ 15 → get_id_comp (b'.' ∷ s) n ≡ (pos n, s)
unfolding get_id_comp
comp_dot n s p h = ground arith

last_comp : (n : ℕ) → n < 2 ^ 15 → get_id_comp (decimal n) 0 ≡ (pos n, [])
last_comp n h = rw (append-nil (decimal n)) at (comp-decimal n [] h ∙ comp_end n h)

next_comp :
    (n : ℕ) (s : Bytes) → 0 < n → n < 2 ^ 15 → get_id_comp (decimal n ++ b'.' ∷ s) 0 ≡ (pos n, s)
next_comp n s p h = comp-decimal n (b'.' ∷ s) h ∙ comp_dot n s p h

-- The SIDs whose text can be read: a component that is not zero follows none that is, and all are
-- less than 2 ^ 15 and not negative.
pub data IsPrintable : Sid → Type 0 where
  release_sid : (r : ℕ) → 0 < r → r < 2 ^ 15 → IsPrintable (sid (pos r) (pos 0) (pos 0) (pos 0))
  level_sid :
      (r l : ℕ)
      → 0 < r
      → r < 2 ^ 15
      → 0 < l
      → l < 2 ^ 15
      → IsPrintable (sid (pos r) (pos l) (pos 0) (pos 0))
  branch_sid :
      (r l b : ℕ)
      → 0 < r
      → r < 2 ^ 15
      → 0 < l
      → l < 2 ^ 15
      → 0 < b
      → b < 2 ^ 15
      → IsPrintable (sid (pos r) (pos l) (pos b) (pos 0))
  full_sid :
      (r l b s : ℕ)
      → 0 < r
      → r < 2 ^ 15
      → 0 < l
      → l < 2 ^ 15
      → 0 < b
      → b < 2 ^ 15
      → 0 < s
      → s < 2 ^ 15
      → IsPrintable (sid (pos r) (pos l) (pos b) (pos s))

present : (n : ℕ) → 0 < n → is_zero (pos n) ≡ false
present n h = ground arith

-- The text of a SID is read back as that SID, if its release is not zero, no component is negative or
-- 2^15 or more, and no component that is not zero follows one that is.
pub parse-print : (a : Sid) → IsPrintable a → parse (print a) ≡ a
unfolding parse print
parse-print _ (release_sid r p h) = rw (append-nil (decimal r), last_comp r h, present r p)
parse-print _ (level_sid r l p h p1 h1) =
    rw (
      present l p1,
      append-nil (decimal l),
      next_comp r (decimal l) p h,
      last_comp l h1,
      present r p,
    )
parse-print _ (branch_sid r l b p h p1 h1 p2 h2) = rw (
  present l p1,
  present b p2,
  append-nil (decimal b),
  next_comp r (decimal l ++ b'.' ∷ decimal b) p h,
  next_comp l (decimal b) p1 h1,
  last_comp b h2,
  present r p,
)
parse-print _ (full_sid r l b s p h p1 h1 p2 h2 p3 h3) = rw (
  present l p1,
  present b p2,
  present s p3,
  next_comp r (decimal l ++ b'.' ∷ (decimal b ++ b'.' ∷ decimal s)) p h,
  next_comp l (decimal b ++ b'.' ∷ decimal s) p1 h1,
  next_comp b (decimal s) p2 h2,
  last_comp s h3,
  present r p,
)
