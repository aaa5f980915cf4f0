-- ===== src/SidList/Text.antt =====
-- Printing a list of ranges of SIDs, and reading it back.
use cssc.Common.{
  ℕ, ◌+◌, ◌≤◌, ◌<◌, ◌≡◌, refl, sym, ap, ◌∙◌, inl, inr, List, [], ◌∷◌, ◌++◌, true, false, Bytes,
  none, some, ltb, arith, All, All-append, append-nil, Bool-cases, ◌==◌, length, length-append,
}
use cssc.Common.Cut.{cut, Lacks, cut-none, cut-some, pieces, pieces_last, pieces_more}
use cssc.Sid.{parse, is_le, is_lt, is_ne, increment, decrement}
use cssc.Sid.Order.{is_eq-is_ne}
use cssc.Sid.Text.{print, IsPrintable, parse-print}
use cssc.Sid.Chars.{IsPlain, print-IsPlain, length-print, print_some}
use cssc.Sid.Line.{Line}
use cssc.SidList.{
  Range, insert, absorb, clean_loop, clean, range_of, ranges, parse_list, range_text, list_text,
  print_list, ends, constructed, or_invalid,
}
use cssc.SidList.Clean.{IsSeparated, kept}

-- A character that is no comma.
abbrev IsCommaless : ℕ → Type 0
IsCommaless c = (c == b',') ≡ false

no_dash : (c : ℕ) → IsPlain c → (c == b'-') ≡ false
no_dash c h = ground arith

plain-IsCommaless : (s : Bytes) → All IsPlain s → All IsCommaless s
plain-IsCommaless [] h = tt
plain-IsCommaless (c ∷ s) h = (ground arith, plain-IsCommaless s h.1)

plain-Lacks_dash : (s : Bytes) → All IsPlain s → Lacks b'-' s
plain-Lacks_dash [] h = tt
plain-Lacks_dash (c ∷ s) h = (no_dash c h.0, plain-Lacks_dash s h.1)

-- Both ends can be printed.
abbrev pub IsPrintableRange : Range → Type 0
IsPrintableRange r = IsPrintable r.from × IsPrintable r.to

range_single :
    (buf f : Bytes)
    → cut b'-' buf ≡ (f, none)
    → range_of buf ≡ record { from = parse f; to = parse f }
unfolding range_of ends
range_single buf f h = rw h refl

range_pair :
    (buf f t : Bytes)
    → cut b'-' buf ≡ (f, some t)
    → range_of buf ≡ record { from = parse f; to = parse t }
unfolding range_of ends
range_pair buf f t h = rw h refl

same_ends : (r : Range) → is_ne r.to r.from ≡ false → r.to ≡ r.from
same_ends r f = let (same, negated) = is_eq-is_ne r.to r.from in same.0 (ground arith)

range_text_two :
    (r : Range) → is_ne r.to r.from ≡ true → range_text r ≡ print r.from ++ b'-' ∷ print r.to
range_text_two r t = unfold range_text in rw t refl

range_text_one : (r : Range) → is_ne r.to r.from ≡ false → range_text r ≡ print r.from
range_text_one r f = unfold range_text in rw (f, append-nil (print r.from)) refl

range_of-range_text : (r : Range) → IsPrintableRange r → range_of (range_text r) ≡ r
range_of-range_text r (a, b) = elim (Bool-cases (is_ne r.to r.from)) [
  | inl t ↦
      rw
        (
          range_text_two r t,
          range_pair _ (print r.from) (print r.to) (
              cut-some b'-' (print r.from) (print r.to)
                (plain-Lacks_dash _ (print-IsPlain r.from a)) refl),
          parse-print r.from a,
          parse-print r.to b,
        )
        refl
  | inr f ↦
      rw
        (
          range_text_one r f,
          range_single _ (print r.from)
              (cut-none b'-' (print r.from) (plain-Lacks_dash _ (print-IsPlain r.from a))),
          parse-print r.from a,
        )
        (λ i. record { from = r.from; to = sym (same_ends r f) i })
]

range_text-IsCommaless : (r : Range) → IsPrintableRange r → All IsCommaless (range_text r)
range_text-IsCommaless r (a, b) = elim (Bool-cases (is_ne r.to r.from)) [
  | inl t ↦ rw (range_text_two r t) (
      All-append IsCommaless (print r.from) (b'-' ∷ print r.to)
        (plain-IsCommaless _ (print-IsPlain r.from a))
        (refl, plain-IsCommaless _ (print-IsPlain r.to b)))
  | inr f ↦ rw (range_text_one r f) (plain-IsCommaless _ (print-IsPlain r.from a))
]

length-range_text : (r : Range) → IsPrintableRange r → length (range_text r) ≤ 47
length-range_text r (a, b) = elim (Bool-cases (is_ne r.to r.from)) [
  | inl t ↦ rw (range_text_two r t) (
      omega (
        arith,
        length-print r.from a,
        length-print r.to b,
        length-append (print r.from) (b'-' ∷ print r.to),
      ))
  | inr f ↦ rw (range_text_one r f) (omega (arith, length-print r.from a))
]

range_text_some : (r : Range) → IsPrintableRange r → 0 < length (range_text r)
range_text_some r (a, b) = elim (Bool-cases (is_ne r.to r.from)) [
  | inl t ↦
      rw (range_text_two r t)
        (omega (arith, print_some r.from a, length-append (print r.from) (b'-' ∷ print r.to)))
  | inr f ↦ rw (range_text_one r f) (print_some r.from a)
]

-- The texts of the ranges, one by one.
abbrev texts : List Range → List Bytes
texts [] = []
texts (r ∷ rs) = range_text r ∷ texts rs

pieces-list_text :
    (r : Range) (rs : List Range)
    → All IsPrintableRange (r ∷ rs)
    → pieces b',' (list_text (r ∷ rs)) ≡ texts (r ∷ rs)
unfolding list_text
pieces-list_text r [] h = pieces_last b',' (range_text r) (range_text-IsCommaless r h.0)
pieces-list_text r (q ∷ rs) h =
    pieces_more b',' (range_text r) (list_text (q ∷ rs)) (range_text-IsCommaless r h.0) refl
    ∙ ap (λ x. range_text r ∷ x) (pieces-list_text q rs h.1)

-- The ranges in the order of the code's chain, the last one first.
abbrev chained : List Range → List Range → List Range
chained [] head = head
chained (r ∷ rs) head = chained rs (r ∷ head)

ranges_one :
    (r : Range) (ps : List Bytes) (head : List Range)
    → IsPrintableRange r
    → ranges (range_text r ∷ ps) head ≡ ranges ps (r ∷ head)
ranges_one r ps head h =
    step (range_text r) ps head (range_text_some r h) (length-range_text r h)
    ∙ ap (λ x. ranges ps (x ∷ head)) (range_of-range_text r h)
  where
    step :
        (s : Bytes) (ps : List Bytes) (head : List Range)
        → 0 < length s
        → length s ≤ 47
        → ranges (s ∷ ps) head ≡ ranges ps (range_of s ∷ head)
    step [] ps head p q = elim p [ ]
    step (c ∷ s) ps head p q =
        (let fine : ltb 64 (length (c ∷ s) + 1) ≡ false = ground arith in
          unfold ranges in rw fine refl)

ranges-texts :
    (rs head : List Range)
    → All IsPrintableRange rs
    → ranges (texts rs) head ≡ some (chained rs head)
ranges-texts [] head h = unfold ranges in refl
ranges-texts (r ∷ rs) head h = ranges_one r (texts rs) head h.0 ∙ ranges-texts rs (r ∷ head) h.1

module _ (line : Line) where
  insert_front : (r : Range) (rs : List Range) → IsSeparated line (r ∷ rs) → insert r rs ≡ r ∷ rs
  unfolding insert absorb
  insert_front r [] s = refl
  insert_front r (d ∷ rest) s =
      (let (a, b, le) = s.0 in
        let (a', b', le') = s.2.0 in
        let gap = s.1.0 in
        let law1 = line.lt-decrement d.to r.from b' a in
        let law2 = line.le-increment d.from r.to a' b in
        let stays : is_lt d.to (decrement r.from) ≡ false = ground arith in
        let apart : is_le d.from (increment r.to) ≡ false = ground arith in rw (stays, apart) refl)

  clean_loop-chained :
      (rs acc : List Range)
      → IsSeparated line rs
      → clean_loop (chained rs acc) [] true ≡ clean_loop acc rs true
  clean_loop-chained [] acc s = refl
  clean_loop-chained (r ∷ rs) acc s =
      (let (a, b, le) = s.0 in
        let law = line.le_value r.from r.to a b in
        clean_loop-chained rs (r ∷ acc) s.2
        ∙ kept r acc rs true (ground arith)
        ∙ ap (λ x. clean_loop acc x true) (insert_front r rs s))

-- A list of ranges that is printed is read back as it is: for the ranges in order, with a gap between
-- any two, of SIDs that can be printed on one line of SIDs, the constructor from the printed text
-- gives the valid list with the same ranges.
pub parse_list-print_list :
    (line : Line) (rs : List Range)
    → IsSeparated line rs
    → All IsPrintableRange rs
    → parse_list (print_list (record { head = rs; valid_flag = true }))
      ≡ some (record { head = rs; valid_flag = true })
unfolding parse_list constructed print_list clean
parse_list-print_list line [] s h = unfold pieces ranges clean_loop in refl
parse_list-print_list line (r ∷ rs) s h =
    (let found : ranges (pieces b',' (list_text (r ∷ rs))) [] ≡ some (chained (r ∷ rs) []) =
        ap (λ x. ranges x []) (pieces-list_text r rs h) ∙ ranges-texts (r ∷ rs) [] h in
      ap constructed found ∙ ap (λ x. some (or_invalid x)) (cleaned line (r ∷ rs) s))
  where
    cleaned :
        (line : Line) (rs : List Range)
        → IsSeparated line rs
        → clean_loop (chained rs []) [] true ≡ record { head = rs; valid_flag = true }
    cleaned line rs s = unfold clean_loop in clean_loop-chained line rs [] s
