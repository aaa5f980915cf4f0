-- ===== src/Dates/Text.antt =====
-- A history file gives back the dates that are printed into it, also in the two forms of date that other
-- programs write.
use mathlib.Core.Option.{some-injective}
use cssc.Common.{
  ℕ, suc, ◌+◌, ◌-◌, ◌*◌, ◌/◌, ◌%◌, ◌≤◌, ◌<◌, ◌≡◌, refl, sym, ap, ◌∙◌, ◌∷◌, ◌++◌, Bytes, true, false,
  ◌==◌, ltb, leb, some, is_digit, arith, drop,
}
use cssc.Common.Int.{pos, pos_part, ◌≤ℤ◌}
use cssc.Common.Runs.{value}
use cssc.Dates.{Date, date_of, update_yearday}
use cssc.Dates.Read.{y2k_window, byte_at, has_century, repair, file_year, read_fields, of_file}
use cssc.Dates.Print.{print_with}
use cssc.Dates.YearDay.{IsMade, Made, made, month_length_le, IsMade-Made}
use cssc.Dates.Order.{◌<ℤ◌}
use cssc.Dates.Digits.{
  places, line, three-line, tens-is_digit, units-is_digit, places_value, line-has_shape,
}

-- A date is read from the two digits of its year, if it is windowed, or its century.
read_fields-line :
    (century year a b c d e f : ℕ)
    → a < 100
    → b < 100
    → c < 100
    → d < 100
    → e < 100
    → f < 100
    → file_year century a ≡ value year
    → read_fields century (line b'/' a b c) (line b':' d e f)
      ≡ value (date_of (pos year) (pos b) (pos c) (pos d) (pos e) (pos f))
unfolding read_fields
read_fields-line century year a b c d e f p q r p' q' r' h =
    rw
      (
        line-has_shape b'/' a b c p q r,
        line-has_shape b':' d e f p' q' r',
        places_value a,
        places_value b,
        places_value c,
        places_value d,
        places_value e,
        places_value f,
        h,
      )
      refl

no_century : (a b c : ℕ) → a < 100 → has_century (line b'/' a b c) ≡ false
unfolding has_century
no_century a b c p = rw (tens-is_digit a p, units-is_digit a) refl

past_nine_century :
    (a b c : ℕ) → has_century ((b'0' + a / 10 + 10) ∷ drop 1 (line b'/' a b c)) ≡ false
unfolding has_century
past_nine_century a b c =
    (let high : is_digit (b'0' + a / 10 + 10) ≡ false = ground arith in rw high refl)

with_century : (z a b c : ℕ) → z < 100 → a < 100 → has_century (places z ++ line b'/' a b c) ≡ true
unfolding has_century
with_century z a b c p q =
    rw (tens-is_digit z p, tens-is_digit a q, units-is_digit z, units-is_digit a) refl

repair_nothing : (a b c : ℕ) → a < 100 → repair (line b'/' a b c) ≡ line b'/' a b c
unfolding repair
repair_nothing a b c p = (let low : leb b':' (b'0' + a / 10) ≡ false = ground arith in rw low refl)

repair_decade :
    (a b c : ℕ)
    → a < 70
    → repair ((b'0' + a / 10 + 10) ∷ drop 1 (line b'/' a b c)) ≡ line b'/' a b c
unfolding repair
repair_decade a b c p =
    (let low : leb b':' (b'0' + a / 10 + 10) ≡ true = ground arith in
      let high : leb (b'0' + a / 10 + 10) b'@' ≡ true = ground arith in
      let back : b'0' + a / 10 + 10 - 10 ≡ b'0' + a / 10 = omega arith in rw (low, high, back) refl)

window : (year : ℕ) → 1969 ≤ year → year < 2069 → file_year 0 (year % 100) ≡ value year
unfolding file_year y2k_window
window year p q = ground arith

full : (year : ℕ) → 1969 ≤ year → year < 2069 → file_year (year / 100) (year % 100) ≡ value year
unfolding file_year
full year p q =
    (let back : year / 100 * 100 + year % 100 ≡ year = omega arith in
      let some_century : (year / 100 == 0) ≡ false = ground arith in
      let low : leb 1969 year ≡ true = ground arith in
      let high : ltb year 2069 ≡ true = ground arith in rw (some_century, back, low, high) refl)

-- The texts that stand for the day of a date: as it is printed, with the century before it, and, from
-- 2000 on, with the decade of the year counted past 9 by a character beyond the digits.
pub data Written (d : Date) : Bytes → Type 0 where
  printed : {t : Bytes} → print_with d b'D' ≡ some t → Written d t
  four_digits :
      {t : Bytes} → print_with d b'D' ≡ some t → Written d (places (pos_part d.year / 100) ++ t)
  past_nine :
      {c : ℕ} {t : Bytes}
      → pos 2000 ≤ℤ d.year
      → print_with d b'D' ≡ some (c ∷ t)
      → Written d ((c + 10) ∷ t)

day_line :
    (y k d h mi s : ℕ)
    → k < 12
    → d < 100
    → print_with (date_of (pos y) (pos (suc k)) (pos d) (pos h) (pos mi) (pos s)) b'D'
      ≡ some (line b'/' (y % 100) (suc k) d)
unfolding print_with update_yearday
day_line y k d h mi s p q =
    ap some (three-line b'/' (y % 100) (suc k) d (omega arith) (omega arith) q)

time_line :
    (y k d h mi s : ℕ)
    → h < 24
    → mi < 60
    → s ≤ 61
    → print_with (date_of (pos y) (pos (suc k)) (pos d) (pos h) (pos mi) (pos s)) b'T'
      ≡ some (line b':' h mi s)
unfolding print_with update_yearday
time_line y k d h mi s p q r =
    ap some (three-line b':' h mi s (omega arith) (omega arith) (omega arith))

-- The three forms, read.
module _ (y k da h mi s : ℕ) (k< : k < 12) (da< : da < 100) (h< : h < 24) (mi< : mi < 60)
    (s< : s ≤ 61) (from : 1969 ≤ y) (to : y < 2069) where
  abbrev day : Bytes
  day = line b'/' (y % 100) (suc k) da

  abbrev time : Bytes
  time = line b':' h mi s

  abbrev date : Date
  date = date_of (pos y) (pos (suc k)) (pos da) (pos h) (pos mi) (pos s)

  read_with :
      (century : ℕ)
      → file_year century (y % 100) ≡ value y
      → read_fields century day time ≡ value date
  read_with century e =
      read_fields-line century y (y % 100) (suc k) da h mi s (omega arith) (omega arith) da<
        (omega arith) (omega arith) (omega arith) e

  of_file_printed : of_file day time ≡ value date
  unfolding of_file
  of_file_printed =
      rw
        (
          no_century (y % 100) (suc k) da (omega arith),
          repair_nothing (y % 100) (suc k) da (omega arith),
        )
        (read_with 0 (window y from to))

  of_file_four_digits : of_file (places (y / 100) ++ day) time ≡ value date
  unfolding of_file
  of_file_four_digits =
      rw
        (
          with_century (y / 100) (y % 100) (suc k) da (omega arith) (omega arith),
          places_value (y / 100),
          repair_nothing (y % 100) (suc k) da (omega arith),
        )
        (read_with (y / 100) (full y from to))

  of_file_past_nine : 2000 ≤ y → of_file ((b'0' + y % 100 / 10 + 10) ∷ drop 1 day) time ≡ value date
  unfolding of_file
  of_file_past_nine later =
      (let a< : y % 100 < 70 = omega arith in
        rw (past_nine_century (y % 100) (suc k) da, repair_decade (y % 100) (suc k) da a<)
          (read_with 0 (window y from to)))

  read_form : {t : Bytes} → Written date t → of_file t time ≡ value date
  unfolding update_yearday
  read_form (printed e) =
      rw (some-injective _ _ (sym e ∙ day_line y k da h mi s k< da<)) of_file_printed
  read_form (four_digits e) =
      rw (some-injective _ _ (sym e ∙ day_line y k da h mi s k< da<)) of_file_four_digits
  read_form (past_nine l e) =
      (let eq = some-injective _ _ (sym e ∙ day_line y k da h mi s k< da<) in
        rw (ap (λ x. byte_at x 0) eq, ap (drop 1) eq) (of_file_past_nine (omega arith)))

of_file-Made :
    (d : Date) {t u : Bytes}
    → Made d
    → pos 1969 ≤ℤ d.year
    → d.year <ℤ pos 2069
    → Written d t
    → print_with d b'T' ≡ some u
    → of_file t u ≡ value d
unfolding update_yearday
of_file-Made d {t = t} {u = u} (made y k da h mi s a1 a2 a3 a4 a5 a6) p q w e' =
    (let d< : da < 100 = omega (arith, month_length_le (pos y) (suc k)) in
      let time_eq : u ≡ line b':' h mi s =
        some-injective _ _ (sym e' ∙ time_line y k da h mi s a4 a5 a6) in
      rw time_eq (read_form y k da h mi s a1 d< a4 a5 a6 (omega arith) (omega arith) w))

-- A valid date from 1969 to 2068 is read back from its printed time and any of the three forms of its day.
pub of_file-Written :
    (d : Date) (t u : Bytes)
    → IsMade d
    → pos 1969 ≤ℤ d.year
    → d.year <ℤ pos 2069
    → Written d t
    → print_with d b'T' ≡ some u
    → of_file t u ≡ value d
of_file-Written d t u m p q w e = of_file-Made d (IsMade-Made d m) p q w e
