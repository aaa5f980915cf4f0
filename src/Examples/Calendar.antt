-- ===== src/Examples/Calendar.antt =====
-- Dates: runs of the definitions, and the theorems at concrete dates.
use cssc.Common.{◌≡◌, refl, codes, some, arith, length, ◌++◌}
use cssc.Common.Decimal.{decimal, digits}
use cssc.Common.Int.{ℤ, pos}
use cssc.Common.Runs.{value}
use cssc.Dates.{
  Date, date_of, update_yearday, months_loop, days_loop, days_in_month, is_leapyear, valid_date,
  compare,
}
use cssc.Dates.Read.{of_cutoff, of_file, get_part, count_digits, full_year, other_parts, y2k_window}
use cssc.Dates.Print.{print_with, as_string}
use cssc.Dates.YearDay.{IsMade}
use cssc.Dates.Order.{Earlier, Verdict, compare-Verdict}
use cssc.Dates.Digits.{places}
use cssc.Dates.Text.{past_nine, of_file-Written}
use cssc.Dates.Cutoff.{four_digits, of_cutoff-Given}
use cssc.Dates.Width.{of_cutoff_total}

abbrev pub leap_day : Date
leap_day = date_of (pos 2004) (pos 2) (pos 29) (pos 23) (pos 59) (pos 59)

abbrev new_year : Date
new_year = date_of (pos 2005) (pos 1) (pos 1) (pos 0) (pos 0) (pos 0)

pub leap_day-IsMade : IsMade leap_day
unfolding valid_date update_yearday months_loop days_loop days_in_month is_leapyear
leap_day-IsMade = (refl, refl)

new_year-IsMade : IsMade new_year
unfolding valid_date update_yearday months_loop days_loop days_in_month is_leapyear
new_year-IsMade = (refl, refl)

leap_day_text : as_string leap_day ≡ codes "04/02/29 23:59:59"
unfolding as_string update_yearday decimal digits
leap_day_text = refl

leap_day_day : print_with leap_day b'D' ≡ some (codes "04/02/29")
unfolding print_with update_yearday decimal digits
leap_day_day = refl

leap_day_time : print_with leap_day b'T' ≡ some (codes "23:59:59")
unfolding print_with update_yearday decimal digits
leap_day_time = refl

-- A year of four digits needs more than twelve digits in all: here 20 is the year and 04 the month.
cutoff_four_digits :
    of_cutoff (codes "2004/02/29")
    ≡ value (date_of (pos 2020) (pos 4) (pos 2) (pos 29) (pos 59) (pos 59))
unfolding of_cutoff full_year count_digits y2k_window other_parts get_part
cutoff_four_digits = refl

compare-Verdict_example :
    (r : ℤ) × ((compare leap_day new_year ≡ value r)
      × Verdict (Earlier leap_day new_year) (leap_day ≡ new_year) (Earlier new_year leap_day) r)
compare-Verdict_example = compare-Verdict leap_day new_year leap_day-IsMade new_year-IsMade

of_file-Written_example : of_file (codes ":4/02/29") (codes "23:59:59") ≡ value leap_day
unfolding update_yearday
of_file-Written_example =
    of_file-Written leap_day (codes ":4/02/29") (codes "23:59:59") leap_day-IsMade (omega arith)
      (omega arith) (past_nine (omega arith) leap_day_day) leap_day_time

of_cutoff-Given_example : of_cutoff (places 20 ++ as_string leap_day) ≡ value leap_day
unfolding update_yearday
of_cutoff-Given_example =
    of_cutoff-Given leap_day (places 20 ++ as_string leap_day) leap_day-IsMade
      (four_digits (omega arith))

of_cutoff_total_example :
    (d : Date) × ((of_cutoff (codes "99/1/x") ≡ value d) × (length (as_string d) ≡ 17))
of_cutoff_total_example = of_cutoff_total (codes "99/1/x")
