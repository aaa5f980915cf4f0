-- ===== src/Dates/Digits.antt =====
-- Numbers of two digits in the text of a date.
use cssc.Common.{
  ℕ, zero, suc, ◌+◌, ◌-◌, ◌*◌, ◌/◌, ◌%◌, ◌≤◌, ◌<◌, ◌≡◌, refl, ◌⊎◌, inl, inr, [], ◌∷◌, ◌++◌, Bytes,
  true, false, ◌==◌, ltb, is_digit, arith,
}
use cssc.Common.Decimal.{digits_zero, decimal, digits}
use cssc.Common.Int.{pos}
use cssc.Dates.Read.{has_shape}
use cssc.Dates.Print.{two_places, three}
use cssc.Dates.Order.{suc_test}

-- The two digits of a number.
abbrev pub places : ℕ → Bytes
places n = (b'0' + n / 10) ∷ (b'0' + n % 10) ∷ []

pub decimal_units : (n : ℕ) → n < 10 → decimal n ≡ (b'0' + n) ∷ []
unfolding decimal digits
decimal_units zero h = refl
decimal_units (suc m) h =
    (let tens : suc m / 10 ≡ 0 = omega arith in
      let units : suc m % 10 ≡ suc m = omega arith in
      rw (suc_test m, tens, digits_zero m ((b'0' + suc m % 10) ∷ []), units) refl)

decimal_tens : (n : ℕ) → 10 ≤ n → n < 100 → decimal n ≡ places n
unfolding decimal digits
decimal_tens zero h k = ground arith
decimal_tens (suc zero) h k = ground arith
decimal_tens (suc (suc m)) h k =
    (let some_tens : (suc (suc m) / 10 == 0) ≡ false = ground arith in
      let tens : suc (suc m) / 10 / 10 ≡ 0 = omega arith in
      let units : suc (suc m) / 10 % 10 ≡ suc (suc m) / 10 = omega arith in
      rw
        (
          suc_test (suc m),
          some_tens,
          tens,
          digits_zero m ((b'0' + suc (suc m) / 10 % 10) ∷ (b'0' + suc (suc m) % 10) ∷ []),
          units,
        )
        refl)

small_cases : (n : ℕ) → ((n < 10) × (ltb n 10 ≡ true)) ⊎ ((10 ≤ n) × (ltb n 10 ≡ false))
small_cases n = ground arith

pub two_places_lem : (n : ℕ) → n < 100 → two_places (pos n) ≡ places n
two_places_lem n h = elim (small_cases n) [
  | inl (small, t) ↦
      rw (t, decimal_units n (omega arith))
        (let tens : n / 10 ≡ 0 = omega arith in
          let units : n % 10 ≡ n = omega arith in rw (tens, units) refl)
  | inr (big, t) ↦ rw t (decimal_tens n (omega arith) h)
]

pub tens-is_digit : (n : ℕ) → n < 100 → is_digit (b'0' + n / 10) ≡ true
tens-is_digit n h = ground arith

pub units-is_digit : (n : ℕ) → is_digit (b'0' + n % 10) ≡ true
units-is_digit n = ground arith

pub places_value : (n : ℕ) → (b'0' + n / 10 - b'0') * 10 + (b'0' + n % 10 - b'0') ≡ n
places_value n = omega arith

-- Three numbers of two digits.
abbrev pub line : ℕ → ℕ → ℕ → ℕ → Bytes
line separator a b c = places a ++ separator ∷ (places b ++ separator ∷ places c)

pub three-line :
    (separator a b c : ℕ)
    → a < 100
    → b < 100
    → c < 100
    → three separator (pos a) (pos b) (pos c) ≡ line separator a b c
three-line separator a b c p q r =
    rw (two_places_lem a p, two_places_lem b q, two_places_lem c r) refl

pub same_test : (n : ℕ) → (n == n) ≡ true
same_test n = ground arith

pub line-has_shape :
    (separator a b c : ℕ)
    → a < 100
    → b < 100
    → c < 100
    → has_shape separator (line separator a b c) ≡ true
unfolding has_shape
line-has_shape separator a b c p q r =
    rw
      (
        tens-is_digit a p,
        tens-is_digit b q,
        tens-is_digit c r,
        units-is_digit a,
        units-is_digit b,
        units-is_digit c,
        same_test separator,
      )
      refl
