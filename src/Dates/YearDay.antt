-- ===== src/Dates/YearDay.antt =====
-- The day of the year as a sum, and what a valid date is made of.
use mathlib.Core.Path.{subst}
use cssc.Common.{ℕ, zero, suc, ◌+◌, ◌≤◌, ◌<◌, ◌≡◌, refl, ap, ◌∙◌, ◌⊎◌, inl, inr, true, false, arith}
use cssc.Common.Int.{ℤ, pos, negsuc, pos_part, ◌+ℤ◌, ltb_ℤ}
use cssc.Dates.{Date, days_in_month, months_loop, days_loop, update_yearday, date_of, valid_date}

abbrev pub month_length : ℤ → ℕ → ℕ
month_length year m = pos_part (days_in_month (pos m) year)

-- The days of the first months of a year.
abbrev pub before : ℤ → ℕ → ℕ
before year zero = 0
before year (suc k) = before year k + month_length year (suc k)

days_in_month-pos :
    (year : ℤ) (m : ℕ) → 0 < m → m < 13 → days_in_month (pos m) year ≡ pos (month_length year m)
unfolding days_in_month
days_in_month-pos year m p q = ground arith

pub month_length_le : (year : ℤ) (m : ℕ) → month_length year m ≤ 31
unfolding days_in_month
month_length_le year m = ground arith

pos_sum : (a b : ℕ) → pos a +ℤ pos b ≡ pos (a + b)
unfolding ◌+ℤ◌
pos_sum a b = ground arith

test_cases :
    (a b : ℕ)
    → ((a < b) × (ltb_ℤ (pos a) (pos b) ≡ true)) ⊎ ((b ≤ a) × (ltb_ℤ (pos a) (pos b) ≡ false))
test_cases a b = ground arith

months_loop_lem :
    (year : ℤ) (fuel m acc j k : ℕ)
    → m ≡ j + 1
    → acc ≡ before year j + 1
    → j ≤ k
    → k ≤ fuel + j
    → k < 13
    → months_loop fuel m (pos (suc k)) year (pos acc) ≡ pos (before year k + 1)
unfolding months_loop
months_loop_lem year zero m acc j k e f p q r =
    (let same : j ≡ k = omega arith in ap pos (f ∙ ap (λ n. before year n + 1) same))
months_loop_lem year (suc fuel) m acc j k e f p q r = elim (test_cases m (suc k)) [
  | inl (h, t) ↦
      (let length_eq : month_length year m ≡ month_length year (suc j) =
          ap (month_length year) (omega arith) in
        rw
          (
            t,
            days_in_month-pos year m (omega arith) (omega arith),
            pos_sum acc (month_length year m),
          )
          (months_loop_lem year fuel (m + 1) (acc + month_length year m) (suc j) k (omega arith)
            (omega arith) (omega arith) (omega arith) r))
  | inr (h, t) ↦
      (let same : j ≡ k = omega arith in rw t (ap pos (f ∙ ap (λ n. before year n + 1) same)))
]

days_loop_lem :
    (fuel d day acc r : ℕ)
    → d ≤ day
    → day ≤ fuel + d
    → acc + day ≡ r + d
    → days_loop fuel d (pos day) (pos acc) ≡ pos r
unfolding days_loop
days_loop_lem zero d day acc r p q e = ap pos (omega arith)
days_loop_lem (suc fuel) d day acc r p q e = elim (test_cases d day) [
  | inl (h, t) ↦
      rw (t, pos_sum acc 1)
        (days_loop_lem fuel (d + 1) day (acc + 1) r (omega arith) (omega arith) (omega arith))
  | inr (h, t) ↦ rw t (ap pos (omega arith))
]

-- The constructor from six numbers counts the days from the first of January.
pub yearday-date_of :
    (y k d h mi s : ℕ)
    → 0 < d
    → k < 12
    → (date_of (pos y) (pos (suc k)) (pos d) (pos h) (pos mi) (pos s)).yearday
      ≡ pos (before (pos y) k + d)
unfolding update_yearday
yearday-date_of y k d h mi s p q =
    (let months =
        months_loop_lem (pos y) (suc k) 1 1 0 k refl refl (omega arith) (omega arith)
          (omega arith) in
      rw months (
        days_loop_lem d 1 d (before (pos y) k + 1) (before (pos y) k + d) p (omega arith)
          (omega arith)))

≤_split : (k n : ℕ) → k ≤ n → (k < n) ⊎ (k ≡ n)
≤_split k n h = omega arith

-- A day of a later month comes later in the year.
pub before_mono :
    (year : ℤ) (k k' d d' : ℕ)
    → k < k'
    → d ≤ month_length year (suc k)
    → 0 < d'
    → before year k + d < before year k' + d'
before_mono year k zero d d' p q r = omega arith
before_mono year k (suc k') d d' p q r = elim (≤_split k k' (omega arith)) [
  | inl h ↦ (let below = before_mono year k k' d 1 h q (omega arith) in omega arith)
  | inr e ↦
      (let at_end : before year k + month_length year (suc k) ≡ before year (suc k') = rw e refl in
        omega arith)
]

-- A date as one of the constructors leaves it, and valid.
abbrev pub IsMade : Date → Type 0
IsMade d = (valid_date d ≡ true) × (update_yearday d ≡ d)

-- The parts of such a date.
pub data Made : Date → Type 0 where
  made :
      (y k d h mi s : ℕ)
      → k < 12
      → 0 < d
      → d ≤ month_length (pos y) (suc k)
      → h < 24
      → mi < 60
      → s ≤ 61
      → Made (date_of (pos y) (pos (suc k)) (pos d) (pos h) (pos mi) (pos s))

Made-cases :
    (y m d h mi s yd : ℤ)
    → valid_date (record {
      year = y;
      month = m;
      month_day = d;
      hour = h;
      minute = mi;
      second = s;
      yearday = yd;
    })
      ≡ true
    → Made (date_of y m d h mi s)
unfolding valid_date
Made-cases (negsuc y) m d h mi s yd v = ground arith
Made-cases (pos y) (negsuc m) d h mi s yd v = ground arith
Made-cases (pos y) (pos zero) d h mi s yd v = ground arith
Made-cases (pos y) (pos (suc k)) (negsuc d) h mi s yd v = ground arith
Made-cases (pos y) (pos (suc k)) (pos d) (negsuc h) mi s yd v = ground arith
Made-cases (pos y) (pos (suc k)) (pos d) (pos h) (negsuc mi) s yd v = ground arith
Made-cases (pos y) (pos (suc k)) (pos d) (pos h) (pos mi) (negsuc s) yd v = ground arith
Made-cases (pos y) (pos (suc k)) (pos d) (pos h) (pos mi) (pos s) yd v =
    (let k< : k < 12 = ground arith in
      let days = days_in_month-pos (pos y) (suc k) (omega arith) (omega arith) in
      made y k d h mi s k< (ground arith) (ground arith) (ground arith) (ground arith)
        (ground arith))

pub IsMade-Made : (d : Date) → IsMade d → Made d
unfolding update_yearday
IsMade-Made d (v, e) =
    subst Made e (Made-cases d.year d.month d.month_day d.hour d.minute d.second d.yearday v)
