-- ===== src/Dates.antt =====
-- src/sccsdate.h and src/sccsdate.cc: dates of deltas, with the calendar and the comparison. An `int`
-- is an integer: the values here are small. The warnings are left out, and so is the clock. A failed assertion is the answer `quit assertion`.
pub mod Read
pub mod Print
pub mod YearDay
pub mod Order
pub mod Digits
pub mod Text
pub mod Cutoff
pub mod Width
use cssc.Common.{
  ℕ, zero, suc, ◌+◌, ◌-◌, ◌*◌, ◌%◌, List, [], ◌∷◌, ◌++◌, Bool, true, false, ◌&&◌, ◌||◌, not, Bytes,
  Option, none, some, if◌then◌else◌, ltb, leb, ◌==◌, length, drop, is_digit,
}
use cssc.Common.Int.{ℤ, pos, negsuc, pos_part, ◌+ℤ◌, ◌-ℤ◌, sub_ℕ, ltb_ℤ, eqb_ℤ}
use cssc.Common.Runs.{Run, value, quit, ◌>>=◌}

abbrev pub leb_ℤ : ℤ → ℤ → Bool
leb_ℤ a b = not (ltb_ℤ b a)

pub record Date : Type 0 where
  pub year : ℤ
  pub month : ℤ
  pub month_day : ℤ
  pub hour : ℤ
  pub minute : ℤ
  pub second : ℤ
  pub yearday : ℤ

pub data Assertion : Type 0 where
  assertion : Assertion

-- The date of the constructor without arguments.
abbrev pub no_date : Date
no_date = record {
  year = negsuc 0;
  month = negsuc 0;
  month_day = negsuc 0;
  hour = negsuc 0;
  minute = negsuc 0;
  second = negsuc 0;
  yearday = negsuc 0;
}

-- Whether a remainder is 0 does not depend on the sign.
abbrev pub magnitude : ℤ → ℕ
magnitude (pos n) = n
magnitude (negsuc n) = n + 1

unfoldable pub is_leapyear : ℤ → Bool
is_leapyear year =
    if not (magnitude year % 4 == 0)
    then false
    else if not (magnitude year % 100 == 0)
    then true
    else if not (magnitude year % 400 == 0)
    then false
    else true

unfoldable pub days_in_month : ℤ → ℤ → ℤ
days_in_month (negsuc n) year = negsuc 0
days_in_month (pos mon) year =
    if mon == 1 || mon == 3 || mon == 5 || mon == 7 || mon == 8 || mon == 10 || mon == 12
    then pos 31
    else if mon == 4 || mon == 6 || mon == 9 || mon == 11
    then pos 30
    else if mon == 2
    then (if is_leapyear year then pos 29 else pos 28)
    else negsuc 0

-- The two loops of `update_yearday`; `month_day` and `month` bound the number of their rounds.
unfoldable pub months_loop : ℕ → ℕ → ℤ → ℤ → ℤ → ℤ
months_loop zero m month year yearday = yearday
months_loop (suc fuel) m month year yearday =
    let later = months_loop fuel (m + 1) month year (yearday +ℤ days_in_month (pos m) year) in
    if ltb_ℤ (pos m) month then later else yearday

unfoldable pub days_loop : ℕ → ℕ → ℤ → ℤ → ℤ
days_loop zero d month_day yearday = yearday
days_loop (suc fuel) d month_day yearday =
    let later = days_loop fuel (d + 1) month_day (yearday +ℤ pos 1) in
    if ltb_ℤ (pos d) month_day then later else yearday

unfoldable pub update_yearday : Date → Date
unfolding months_loop days_loop
update_yearday d = record d {
  yearday =
      days_loop (pos_part d.month_day) 1 d.month_day
        (months_loop (pos_part d.month) 1 d.month d.year (pos 1));
}

-- The constructor from six numbers.
abbrev pub date_of : ℤ → ℤ → ℤ → ℤ → ℤ → ℤ → Date
date_of yr mth day hr min sec = update_yearday (record {
  year = yr;
  month = mth;
  month_day = day;
  hour = hr;
  minute = min;
  second = sec;
  yearday = negsuc 0;
})

unfoldable pub valid_date : Date → Bool
valid_date d =
    leb_ℤ (pos 0) d.year
    && ltb_ℤ (pos 0) d.month
    && ltb_ℤ d.month (pos 13)
    && ltb_ℤ (pos 0) d.month_day
    && leb_ℤ d.month_day (days_in_month d.month d.year)
    && leb_ℤ (pos 0) d.hour
    && ltb_ℤ d.hour (pos 24)
    && leb_ℤ (pos 0) d.minute
    && ltb_ℤ d.minute (pos 60)
    && leb_ℤ (pos 0) d.second
    && leb_ℤ d.second (pos 61)

-- The first difference that is not 0, and the last one where all are.
unfoldable pub difference : Date → Date → ℤ
difference d e =
    let years = d.year -ℤ e.year in
    let days = d.yearday -ℤ e.yearday in
    let hours = d.hour -ℤ e.hour in
    let minutes = d.minute -ℤ e.minute in
    if not (eqb_ℤ years (pos 0))
    then years
    else if not (eqb_ℤ days (pos 0))
    then days
    else if not (eqb_ℤ hours (pos 0))
    then hours
    else if not (eqb_ℤ minutes (pos 0))
    then minutes
    else d.second -ℤ e.second

unfoldable pub compare : Date → Date → Run Assertion ℤ
unfolding difference
compare d e =
    if not (valid_date d)
    then quit assertion
    else if not (valid_date e)
    then quit assertion
    else value (difference d e)

unfoldable pub date_gt : Date → Date → Run Assertion Bool
date_gt d e = compare d e >>= λ c. value (ltb_ℤ (pos 0) c)

unfoldable pub date_lt : Date → Date → Run Assertion Bool
date_lt d e = compare d e >>= λ c. value (ltb_ℤ c (pos 0))

unfoldable pub date_le : Date → Date → Run Assertion Bool
date_le d e = compare d e >>= λ c. value (leb_ℤ c (pos 0))
