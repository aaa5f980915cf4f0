-- ===== src/Dates/Width.antt =====
-- A date on the command line is read without a failed assertion, and its text fits its buffer.
use cssc.Common.{
  ℕ, ◌+◌, ◌-◌, ◌*◌, ◌≤◌, ◌<◌, ◌≡◌, refl, ap, ◌⊎◌, inl, inr, [], ◌∷◌, ◌++◌, Bytes, true,
  if◌then◌else◌, ltb, is_digit, arith, Bool-cases, length, length-append, ◌&&◌, drop,
}
use cssc.Common.Int.{ℤ, pos, negsuc, eqb_ℤ}
use cssc.Common.Runs.{Run, value, ◌>>=◌}
use cssc.Dates.YearDay.{month_length, month_length_le}
use cssc.Dates.{Date, Assertion, no_date, update_yearday, days_in_month}
use cssc.Dates.Read.{
  y2k_window, get_two_digits, byte_at, get_part, after_digit, count_digits, full_year, other_parts,
  of_cutoff,
}
use cssc.Dates.Print.{two_places, three, as_string, yy}
use cssc.Dates.Digits.{two_places_lem, decimal_units}

-- A number that is printed with two characters.
abbrev IsNarrow : ℤ → Type 0
IsNarrow z = length (two_places z) ≡ 2

small-IsNarrow : (n : ℕ) → n < 100 → IsNarrow (pos n)
small-IsNarrow n h = ap length (two_places_lem n h)

none-IsNarrow : IsNarrow (negsuc 0)
none-IsNarrow = rw (decimal_units 1 (omega arith)) refl

-- A part is -1, or one of 0, 1, ... 99.
data IsPart : ℤ → Type 0 where
  absent : IsPart (negsuc 0)
  present : {n : ℕ} → n < 100 → IsPart (pos n)

IsPart-IsNarrow : {z : ℤ} → IsPart z → IsNarrow z
IsPart-IsNarrow absent = none-IsNarrow
IsPart-IsNarrow (present {n = n} h) = small-IsNarrow n h

days_cases :
    (m : ℕ) (y : ℤ)
    → (days_in_month (pos m) y ≡ pos (month_length y m)) ⊎ (days_in_month (pos m) y ≡ negsuc 0)
unfolding days_in_month
days_cases m y = ground arith

days_in_month-IsPart : (m y : ℤ) → IsPart (days_in_month m y)
unfolding days_in_month
days_in_month-IsPart (negsuc m) y = absent
days_in_month-IsPart (pos m) y = elim (days_cases m y) [
  | inl e ↦ rw e (present (omega (arith, month_length_le y m)))
  | inr e ↦ rw e absent
]

digit_le : (c : ℕ) → is_digit c ≡ true → c - b'0' ≤ 9
digit_le c h = ground arith

after_digit-IsPart : (c : ℕ) (s : Bytes) → is_digit c ≡ true → IsPart (after_digit c s).0
after_digit-IsPart c [] h = present (omega (arith, digit_le c h))
after_digit-IsPart c (c' ∷ s) h = elim (Bool-cases (is_digit c')) [
  | inl t ↦ rw t (present (omega (arith, digit_le c h, digit_le c' t)))
  | inr t ↦ rw t (present (omega (arith, digit_le c h)))
]

get_part-IsPart : (s : Bytes) (def : ℤ) → IsPart def → IsPart (get_part s def).0
unfolding get_part
get_part-IsPart [] def h = h
get_part-IsPart (c ∷ s) def h = elim (Bool-cases (is_digit c)) [
  | inl t ↦ rw t (after_digit-IsPart c s t)
  | inr t ↦ rw t (get_part-IsPart s def h)
]

yy-IsPart : (n : ℕ) → IsPart (yy (pos n))
yy-IsPart n = present (omega arith)

three-length :
    (separator : ℕ) (a b c : ℤ)
    → IsPart a
    → IsPart b
    → IsPart c
    → length (three separator a b c) ≡ 8
three-length separator a b c p q r = omega (
  arith,
  length-append (two_places a) (separator ∷ (two_places b ++ separator ∷ two_places c)),
  length-append (two_places b) (separator ∷ two_places c),
  IsPart-IsNarrow p,
  IsPart-IsNarrow q,
  IsPart-IsNarrow r,
)

as_string-length :
    (d : Date)
    → IsPart (yy d.year)
    → IsPart d.month
    → IsPart d.month_day
    → IsPart d.hour
    → IsPart d.minute
    → IsPart d.second
    → length (as_string d) ≡ 17
unfolding as_string
as_string-length d p q r s t u = omega (
  arith,
  length-append (three b'/' (yy d.year) d.month d.month_day)
      (b' ' ∷ three b':' d.hour d.minute d.second),
  three-length b'/' (yy d.year) d.month d.month_day p q r,
  three-length b':' d.hour d.minute d.second s t u,
)

other_parts-length : (y : ℕ) (s : Bytes) → length (as_string (other_parts (pos y) s)) ≡ 17
unfolding other_parts update_yearday
other_parts-length y s =
    (let mo = get_part s (pos 12) in
      let da = get_part mo.1 (days_in_month mo.0 (pos y)) in
      let ho = get_part da.1 (pos 23) in
      let mi = get_part ho.1 (pos 59) in
      as_string-length (other_parts (pos y) s) (yy-IsPart y)
        (get_part-IsPart s (pos 12) (present (omega arith)))
        (get_part-IsPart mo.1 (days_in_month mo.0 (pos y)) (days_in_month-IsPart mo.0 (pos y)))
        (get_part-IsPart da.1 (pos 23) (present (omega arith)))
        (get_part-IsPart ho.1 (pos 59) (present (omega arith)))
        (get_part-IsPart mi.1 (pos 59) (present (omega arith))))

low_cases : (k : ℕ) → (k < 69) ⊎ (69 ≤ k)
low_cases k = omega arith

y2k_window_total : (k : ℕ) → k < 100 → (y : ℕ) × (y2k_window k ≡ value y)
unfolding y2k_window
y2k_window_total k h = elim (low_cases k) [
  | inl p ↦ (k + 2000, ground arith)
  | inr p ↦ (k + 1900, ground arith)
]

full_year_total :
    (n k : ℕ) (s : Bytes)
    → k < 100
    → (y : ℕ) × ((rest : Bytes) × (full_year n (pos k) s ≡ value (pos y, rest)))
unfolding full_year
full_year_total n k s h = elim (Bool-cases (ltb 12 n)) [
  | inl t ↦ elim (Bool-cases (is_digit (byte_at s 0) && is_digit (byte_at s 1))) [
    | inl u ↦ (k * 100 + get_two_digits s 0, (drop 2 s, rw (t, u) refl))
    | inr u ↦ (k, (s, rw (t, u) refl))
  ]
  | inr t ↦ (let (y, e) = y2k_window_total k h in (y, (s, rw (t, e) refl)))
]

abbrev ReadAs : Run Assertion Date → Type 0
ReadAs r = (d : Date) × ((r ≡ value d) × (length (as_string d) ≡ 17))

read_rest :
    (n : ℕ) (s : Bytes) (z : ℤ)
    → IsPart z
    → ReadAs (
        if eqb_ℤ z (negsuc 0)
        then value no_date
        else (full_year n z s >>= λ y. value (other_parts y.0 y.1)))
read_rest n s z absent =
    (no_date, (refl, as_string-length no_date absent absent absent absent absent absent))
read_rest n s z (present {n = k} h) =
    (let (y, (rest, e)) = full_year_total n k s h in
      (other_parts (pos y) rest, (rw e refl, other_parts-length y rest)))

-- Whatever text is given, a date is read, no assertion fails, and the date is printed with 17 characters,
-- which fit the buffer of `as_string` with the NUL after them.
pub of_cutoff_total :
    (s : Bytes) → (d : Date) × ((of_cutoff s ≡ value d) × (length (as_string d) ≡ 17))
unfolding of_cutoff
of_cutoff_total s =
    read_rest (count_digits s) (get_part s (negsuc 0)).1 (get_part s (negsuc 0)).0
      (get_part-IsPart s (negsuc 0) absent)
