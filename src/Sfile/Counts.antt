-- ===== src/Sfile/Counts.antt =====
-- The numbers of lines of an entry, printed and read back.
use cssc.Common.{
  ℕ, zero, suc, ◌+◌, ◌-◌, ◌*◌, ◌/◌, ◌%◌, ◌^◌, ◌≤◌, ◌<◌, ◌≡◌, refl, sym, ap, ◌∙◌, inl, inr, [], ◌∷◌,
  ◌++◌, Bool, true, false, Bytes, some, ltb, leb, ◌==◌, ==_iff, is_digit, length, All, arith,
  Bool-cases,
}
use cssc.Common.Cut.{Lacks, cut-none, cut-some}
use cssc.Common.Decimal.{digits, decimal, decimal_pos}
use cssc.Common.Runs.{value}
use cssc.DeltaTable.{Delta}
use cssc.DeltaTable.Entry.{blank_delta, set_idu}
use cssc.Pfile.File.{split, parts}
use cssc.Sid.Chars.{decimal_some}
use cssc.Sfile.{
  digits_of, skip, is_space, strtoul, count_of, read_counts, padded, cap5, five_places, counts_text,
  control_text,
}

abbrev IsDigit : ℕ → Type 0
IsDigit c = is_digit c ≡ true

digits-IsDigit : (fuel n : ℕ) (out : Bytes) → All IsDigit out → All IsDigit (digits fuel n out)
unfolding digits
digits-IsDigit zero n out h = h
digits-IsDigit (suc fuel) n out h = elim (Bool-cases (n == 0)) [
  | inl z ↦ rw z h
  | inr p ↦ rw p (digits-IsDigit fuel (n / 10) ((b'0' + n % 10) ∷ out) (ground arith, h))
]

decimal-IsDigit : (n : ℕ) → All IsDigit (decimal n)
decimal-IsDigit zero = unfold decimal in (refl, tt)
decimal-IsDigit (suc n) =
    rw (decimal_pos (suc n) (omega arith)) (digits-IsDigit (suc n) (suc n) [] tt)

digits_of_digit : (n : ℕ) (s : Bytes) → digits_of ((b'0' + n % 10) ∷ s) (n / 10) ≡ digits_of s n
unfolding digits_of
digits_of_digit n s =
    (let digit : is_digit (b'0' + n % 10) ≡ true = ground arith in
      let back : n / 10 * 10 + (b'0' + n % 10 - b'0') ≡ n = omega arith in rw (digit, back) refl)

digits_of-digits :
    (fuel n : ℕ) (out : Bytes) → n ≤ fuel → digits_of (digits fuel n out) 0 ≡ digits_of out n
unfolding digits
digits_of-digits zero n out h = let e : n ≡ 0 = omega arith in rw e refl
digits_of-digits (suc fuel) n out h = elim (Bool-cases (n == 0)) [
  | inl z ↦ rw z (ap (digits_of out) (sym ((==_iff n 0).0 z)))
  | inr p ↦ rw p (
      digits_of-digits fuel (n / 10) ((b'0' + n % 10) ∷ out) (ground arith) ∙ digits_of_digit n out)
]

digits_of-decimal : (n : ℕ) → digits_of (decimal n) 0 ≡ (n, [])
digits_of-decimal zero = unfold decimal digits_of in refl
digits_of-decimal (suc n) =
    rw (decimal_pos (suc n) (omega arith))
      (digits_of-digits (suc n) (suc n) [] (omega arith) ∙ (unfold digits_of in refl))

-- Zeros in front change nothing.
padded-Keeps :
    (k n : ℕ) (s : Bytes)
    → All IsDigit s
    → 0 < length s
    → digits_of s 0 ≡ (n, [])
    → All IsDigit (padded k s) × (0 < length (padded k s)) × (digits_of (padded k s) 0 ≡ (n, []))
unfolding padded
padded-Keeps zero n s h p e = (h, p, e)
padded-Keeps (suc k) n s h p e = elim (Bool-cases (ltb (length s) 5)) [
  | inl t ↦ rw t (padded-Keeps k n (b'0' ∷ s) (refl, h) (omega arith) (unfold digits_of in e))
  | inr f ↦ rw f (h, p, e)
]

skip_nothing : (kind : ℕ → Bool) (c : ℕ) (s : Bytes) → kind c ≡ false → skip kind (c ∷ s) ≡ c ∷ s
unfolding skip
skip_nothing kind c s h = rw h refl

strtoul_digits :
    (n c : ℕ) (s : Bytes)
    → is_digit c ≡ true
    → digits_of (c ∷ s) 0 ≡ (n, [])
    → n < 2 ^ 64
    → strtoul (c ∷ s) ≡ (n, [])
unfolding strtoul
strtoul_digits n c s h e small =
    (let space : is_space c ≡ false = ground arith in
      let no_dash : (c == b'-') ≡ false = ground arith in
      let no_plus : (c == b'+') ≡ false = ground arith in
      let fits : leb (2 ^ 64) n ≡ false = ground arith in
      rw (skip_nothing is_space c s space, no_dash, no_plus, e, h, fits) refl)

count_of_digits :
    (n : ℕ) (s : Bytes)
    → All IsDigit s
    → 0 < length s
    → digits_of s 0 ≡ (n, [])
    → n < 2 ^ 64
    → count_of s ≡ value n
count_of_digits n [] h p e small = elim p [ ]
count_of_digits n (c ∷ s) h p e small =
    unfold count_of in
    (let no_space : (c == b' ') ≡ false = ground arith in
      let no_dash : (c == b'-') ≡ false = ground arith in
      rw (skip_nothing (λ c. c == b' ') c s no_space, no_dash, strtoul_digits n c s h.0 e small)
        refl)

-- A number of lines in five places.
five_places-Keeps :
    (n : ℕ)
    → All IsDigit (five_places n)
      × (0 < length (five_places n))
      × (count_of (five_places n) ≡ value (cap5 n))
five_places-Keeps n =
    (let (h, p, e) =
        padded-Keeps 5 (cap5 n) (decimal (cap5 n)) (decimal-IsDigit (cap5 n))
          (decimal_some (cap5 n)) (digits_of-decimal (cap5 n)) in
      (h, p, count_of_digits (cap5 n) (five_places n) h p e (ground arith)))

digit-Lacks : (s : Bytes) → All IsDigit s → Lacks b'/' s
digit-Lacks [] h = tt
digit-Lacks (c ∷ s) h = (ground arith, digit-Lacks s h.1)

split_slash :
    (n : ℕ) (f s : Bytes) → All IsDigit f → split (suc n) b'/' (f ++ b'/' ∷ s) ≡ f ∷ split n b'/' s
split_slash n f s h =
    unfold split parts in rw (cut-some b'/' f s (digit-Lacks f h) refl) (cut_start f s)
  where
    cut_start : (f s : Bytes) → parts (f, some s) (split n b'/') ≡ f ∷ split n b'/' s
    cut_start [] s = unfold parts in refl
    cut_start (c ∷ f) s = unfold parts in refl

split_last : (n : ℕ) (f : Bytes) → All IsDigit f → 0 < length f → split (suc n) b'/' f ≡ f ∷ []
split_last n [] h p = elim p [ ]
split_last n (c ∷ f) h p =
    unfold split parts in rw (cut-none b'/' (c ∷ f) (digit-Lacks (c ∷ f) h)) refl

counts_split :
    (d : Delta)
    → split 3 b'/' (counts_text d)
      ≡ five_places d.inserted ∷ five_places d.deleted ∷ five_places d.unchanged ∷ []
counts_split d =
    (let (h1, p1, e1) = five_places-Keeps d.inserted in
      let (h2, p2, e2) = five_places-Keeps d.deleted in
      let (h3, p3, e3) = five_places-Keeps d.unchanged in
      split_slash 2 _ _ h1
      ∙ ap (λ s. five_places d.inserted ∷ s)
          (split_slash 1 _ _ h2 ∙ ap (λ s. five_places d.deleted ∷ s) (split_last 0 _ h3 p3)))

pub read_counts-counts_text :
    (d : Delta)
    → read_counts (control_text b's' (counts_text d))
      ≡ value (set_idu blank_delta (cap5 d.inserted) (cap5 d.deleted) (cap5 d.unchanged))
unfolding read_counts
read_counts-counts_text d =
    rw
      (
        counts_split d,
        (five_places-Keeps d.inserted).2,
        (five_places-Keeps d.deleted).2,
        (five_places-Keeps d.unchanged).2,
      )
      refl
