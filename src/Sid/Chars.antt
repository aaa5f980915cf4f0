-- ===== src/Sid/Chars.antt =====
-- The characters of a printed SID, and how many they are.
use cssc.Common.{
  ℕ, zero, suc, ◌+◌, ◌*◌, ◌/◌, ◌%◌, ◌^◌, ◌≤◌, ◌<◌, ◌≡◌, refl, inl, inr, [], ◌∷◌, ◌++◌, true, false,
  ◌||◌, Bytes, arith, ◌==◌, is_digit, length, length-append, append-nil, All, All-append,
  Bool-cases,
}
use cssc.Common.Decimal.{digits, decimal, decimal_pos}
use cssc.Common.Int.{pos}
use cssc.Sid.{Sid, is_zero, valid}
use cssc.Sid.Text.{print, IsPrintable, release_sid, level_sid, branch_sid, full_sid}

-- A digit or a dot.
abbrev pub IsPlain : ℕ → Type 0
IsPlain c = (is_digit c || c == b'.') ≡ true

digits-IsPlain : (fuel n : ℕ) (out : Bytes) → All IsPlain out → All IsPlain (digits fuel n out)
unfolding digits
digits-IsPlain zero n out h = h
digits-IsPlain (suc fuel) n out h = elim (Bool-cases (n == 0)) [
  | inl z ↦ rw z h
  | inr p ↦ rw p (digits-IsPlain fuel (n / 10) ((b'0' + n % 10) ∷ out) (ground arith, h))
]

pub decimal-IsPlain : (n : ℕ) → All IsPlain (decimal n)
unfolding decimal
decimal-IsPlain n = elim (Bool-cases (n == 0)) [
  | inl z ↦ rw z (refl, tt)
  | inr p ↦ rw p (digits-IsPlain n n [] tt)
]

present : (n : ℕ) → 0 < n → is_zero (pos n) ≡ false
present n h = ground arith

-- The texts of SIDs with one to four components.
data Shape : Bytes → Type 0 where
  last_number : (n : ℕ) → n < 2 ^ 15 → Shape (decimal n)
  number : (n : ℕ) (s : Bytes) → n < 2 ^ 15 → Shape s → Shape (decimal n ++ b'.' ∷ s)

abbrev count : {s : Bytes} → Shape s → ℕ
count (last_number n h) = 1
count (number n s h q) = suc (count q)

print-Shape : (a : Sid) → IsPrintable a → (q : Shape (print a)) × (count q ≤ 4)
unfolding print
print-Shape _ (release_sid r p h) = rw (append-nil (decimal r)) (last_number r h, omega arith)
print-Shape _ (level_sid r l p h p1 h1) =
    rw (present l p1, append-nil (decimal l))
      (number r (decimal l) h (last_number l h1), omega arith)
print-Shape _ (branch_sid r l b p h p1 h1 p2 h2) =
    rw (present l p1, present b p2, append-nil (decimal b))
      (
        number r (decimal l ++ b'.' ∷ decimal b) h (number l (decimal b) h1 (last_number b h2)),
        omega arith,
      )
print-Shape _ (full_sid r l b s p h p1 h1 p2 h2 p3 h3) =
    rw (present l p1, present b p2, present s p3)
      (
        number r (decimal l ++ b'.' ∷ (decimal b ++ b'.' ∷ decimal s)) h (
            number l (decimal b ++ b'.' ∷ decimal s) h1
              (number b (decimal s) h2 (last_number s h3))),
        omega arith,
      )

Shape-IsPlain : {s : Bytes} → Shape s → All IsPlain s
Shape-IsPlain (last_number n h) = decimal-IsPlain n
Shape-IsPlain (number n s h q) =
    All-append IsPlain (decimal n) (b'.' ∷ s) (decimal-IsPlain n) (refl, Shape-IsPlain q)

pub print-IsPlain : (a : Sid) → IsPrintable a → All IsPlain (print a)
print-IsPlain a h = Shape-IsPlain (print-Shape a h).0

-- A number with at most `k` digits.
abbrev IsShort : ℕ → ℕ → Type 0
IsShort zero n = n ≡ 0
IsShort (suc k) n = IsShort k (n / 10)

length-digits :
    (k fuel n : ℕ) (out : Bytes) → IsShort k n → length (digits fuel n out) ≤ k + length out
unfolding digits
length-digits k zero n out h = omega arith
length-digits zero (suc fuel) n out h = rw h (omega arith)
length-digits (suc k) (suc fuel) n out h = elim (Bool-cases (n == 0)) [
  | inl z ↦ rw z (omega arith)
  | inr p ↦ rw p (omega (arith, length-digits k fuel (n / 10) ((b'0' + n % 10) ∷ out) h))
]

length-decimal : (n : ℕ) → n < 2 ^ 15 → length (decimal n) ≤ 5
unfolding decimal
length-decimal n h = elim (Bool-cases (n == 0)) [
  | inl z ↦ rw z (omega arith)
  | inr p ↦ rw p (omega (arith, length-digits 5 n n [] (omega arith)))
]

length-Shape : {s : Bytes} (q : Shape s) → length s + 1 ≤ 6 * count q
length-Shape (last_number n h) = omega (arith, length-decimal n h)
length-Shape (number n s h q) =
    omega (arith, length-decimal n h, length-Shape q, length-append (decimal n) (b'.' ∷ s))

pub length-print : (a : Sid) → IsPrintable a → length (print a) ≤ 23
length-print a h = let (q, small) = print-Shape a h in omega (arith, length-Shape q)

longer-digits : (fuel n : ℕ) (out : Bytes) → length out ≤ length (digits fuel n out)
unfolding digits
longer-digits zero n out = omega arith
longer-digits (suc fuel) n out = elim (Bool-cases (n == 0)) [
  | inl z ↦ rw z (omega arith)
  | inr p ↦ rw p (omega (arith, longer-digits fuel (n / 10) ((b'0' + n % 10) ∷ out)))
]

pub decimal_some : (n : ℕ) → 0 < length (decimal n)
decimal_some zero = unfold decimal in omega arith
decimal_some (suc n) = rw (decimal_pos (suc n) (omega arith)) (
    unfold digits in
    (let nonzero : (suc n == 0) ≡ false = ground arith in
      rw nonzero (omega (arith, longer-digits n (suc n / 10) ((b'0' + suc n % 10) ∷ [])))))

Shape-some : {s : Bytes} → Shape s → 0 < length s
Shape-some (last_number n h) = decimal_some n
Shape-some (number n s h q) = omega (arith, decimal_some n, length-append (decimal n) (b'.' ∷ s))

pub print_some : (a : Sid) → IsPrintable a → 0 < length (print a)
print_some a h = Shape-some (print-Shape a h).0

pub valid_print : (a : Sid) → IsPrintable a → valid a ≡ true
unfolding valid
valid_print _ (release_sid r p h) = ground arith
valid_print _ (level_sid r l p h p1 h1) = ground arith
valid_print _ (branch_sid r l b p h p1 h1 p2 h2) = ground arith
valid_print _ (full_sid r l b s p h p1 h1 p2 h2 p3 h3) = ground arith
