-- ===== src/Dates/Cutoff.antt =====
-- A date on the command line: what is printed is read back.
use cssc.Common.{
  ℕ, suc, ◌+◌, ◌*◌, ◌/◌, ◌%◌, ◌≤◌, ◌<◌, ◌≡◌, refl, ap, ◌∙◌, [], ◌∷◌, ◌++◌, Bytes, false, is_digit,
  arith,
}
use cssc.Common.Int.{ℤ, pos, negsuc, pos_part, ◌≤ℤ◌}
use cssc.Common.Runs.{value}
use cssc.Dates.{Date, date_of, update_yearday, days_in_month}
use cssc.Dates.Read.{y2k_window, get_part, count_digits, full_year, other_parts, of_cutoff}
use cssc.Dates.Print.{as_string}
use cssc.Dates.YearDay.{IsMade, Made, made, month_length_le, IsMade-Made}
use cssc.Dates.Order.{◌<ℤ◌}
use cssc.Dates.Digits.{places, line, three-line, tens-is_digit, units-is_digit, places_value}

get_part-places :
    (n : ℕ) (rest : Bytes) (def : ℤ) → n < 100 → get_part (places n ++ rest) def ≡ (pos n, rest)
unfolding get_part
get_part-places n rest def h = rw (tens-is_digit n h, units-is_digit n, places_value n) refl

get_part-skip :
    (c : ℕ) (s : Bytes) (def : ℤ) → is_digit c ≡ false → get_part (c ∷ s) def ≡ get_part s def
unfolding get_part
get_part-skip c s def e = rw e refl

get_part-after :
    (c n : ℕ) (rest : Bytes) (def : ℤ)
    → is_digit c ≡ false
    → n < 100
    → get_part (c ∷ (places n ++ rest)) def ≡ (pos n, rest)
get_part-after c n rest def e h =
    get_part-skip c (places n ++ rest) def e ∙ get_part-places n rest def h

-- Six numbers as `as_string` prints them.
abbrev text : ℕ → ℕ → ℕ → ℕ → ℕ → ℕ → Bytes
text a b c d e f = line b'/' a b c ++ b' ' ∷ line b':' d e f

count_text :
    (a b c d e f : ℕ)
    → a < 100
    → b < 100
    → c < 100
    → d < 100
    → e < 100
    → f < 100
    → count_digits (text a b c d e f) ≡ 12
unfolding count_digits
count_text a b c d e f p q r p' q' r' =
    rw
      (
        tens-is_digit a p,
        tens-is_digit b q,
        tens-is_digit c r,
        tens-is_digit d p',
        tens-is_digit e q',
        tens-is_digit f r',
        units-is_digit a,
        units-is_digit b,
        units-is_digit c,
        units-is_digit d,
        units-is_digit e,
        units-is_digit f,
      )
      refl

-- What follows the year.
abbrev after_year : ℕ → ℕ → ℕ → ℕ → ℕ → Bytes
after_year b c d e f = b'/' ∷ (places b ++ b'/' ∷ (places c ++ b' ' ∷ line b':' d e f))

other_parts-text :
    (y b c d e f : ℕ)
    → b < 100
    → c < 100
    → d < 100
    → e < 100
    → f < 100
    → other_parts (pos y) (after_year b c d e f)
      ≡ date_of (pos y) (pos b) (pos c) (pos d) (pos e) (pos f)
unfolding other_parts
other_parts-text y b c d e f p q r s t =
    rw
      (
        get_part-after b'/' b (b'/' ∷ (places c ++ b' ' ∷ line b':' d e f)) (pos 12) refl p,
        get_part-after b'/' c (b' ' ∷ line b':' d e f) (days_in_month (pos b) (pos y)) refl q,
        get_part-after b' ' d (b':' ∷ (places e ++ b':' ∷ places f)) (pos 23) refl r,
        get_part-after b':' e (b':' ∷ places f) (pos 59) refl s,
        get_part-after b':' f [] (pos 59) refl t,
      )
      refl

module _ (y b c d e f : ℕ) (b< : b < 100) (c< : c < 100) (d< : d < 100) (e< : e < 100)
    (f< : f < 100) where
  abbrev date : Date
  date = date_of (pos y) (pos b) (pos c) (pos d) (pos e) (pos f)

  of_cutoff-text : 1969 ≤ y → y < 2069 → of_cutoff (text (y % 100) b c d e f) ≡ value date
  unfolding of_cutoff full_year y2k_window
  of_cutoff-text p q =
      (let window : y2k_window (y % 100) ≡ value y = ground arith in
        rw
          (
            get_part-places (y % 100) (after_year b c d e f) (negsuc 0) (omega arith),
            count_text (y % 100) b c d e f (omega arith) b< c< d< e< f<,
            window,
          )
          (ap value (other_parts-text y b c d e f b< c< d< e< f<)))

  of_cutoff-century :
      y < 10000 → of_cutoff (places (y / 100) ++ text (y % 100) b c d e f) ≡ value date
  unfolding of_cutoff full_year count_digits
  of_cutoff-century p =
      (let back : y / 100 * 100 + y % 100 ≡ y = omega arith in
        rw
          (
            get_part-places (y / 100) (text (y % 100) b c d e f) (negsuc 0) (omega arith),
            tens-is_digit (y / 100) (omega arith),
            units-is_digit (y / 100),
            count_text (y % 100) b c d e f (omega arith) b< c< d< e< f<,
            tens-is_digit (y % 100) (omega arith),
            units-is_digit (y % 100),
            places_value (y % 100),
            back,
          )
          (ap value (other_parts-text y b c d e f b< c< d< e< f<)))

as_string-text :
    (y b c d e f : ℕ)
    → b < 100
    → c < 100
    → d < 100
    → e < 100
    → f < 100
    → as_string (date_of (pos y) (pos b) (pos c) (pos d) (pos e) (pos f)) ≡ text (y % 100) b c d e f
unfolding as_string update_yearday
as_string-text y b c d e f p q r s t =
    rw (three-line b'/' (y % 100) b c (omega arith) p q, three-line b':' d e f r s t) refl

-- The texts that the command line has for a date: as it is printed, where the year is one of those
-- that two digits stand for, and with the century before it.
pub data Given (d : Date) : Bytes → Type 0 where
  two_digits : pos 1969 ≤ℤ d.year → d.year <ℤ pos 2069 → Given d (as_string d)
  four_digits : d.year <ℤ pos 10000 → Given d (places (pos_part d.year / 100) ++ as_string d)

of_cutoff-Made : (d : Date) {t : Bytes} → Made d → Given d t → of_cutoff t ≡ value d
unfolding update_yearday
of_cutoff-Made d (made y k da h mi s a1 a2 a3 a4 a5 a6) (two_digits p q) =
    (let d< : da < 100 = omega (arith, month_length_le (pos y) (suc k)) in
      rw
        (as_string-text y (suc k) da h mi s (omega arith) d< (omega arith) (omega arith)
          (omega arith))
        (of_cutoff-text y (suc k) da h mi s (omega arith) d< (omega arith) (omega arith)
          (omega arith) (omega arith) (omega arith)))
of_cutoff-Made d (made y k da h mi s a1 a2 a3 a4 a5 a6) (four_digits p) =
    (let d< : da < 100 = omega (arith, month_length_le (pos y) (suc k)) in
      rw
        (as_string-text y (suc k) da h mi s (omega arith) d< (omega arith) (omega arith)
          (omega arith))
        (of_cutoff-century y (suc k) da h mi s (omega arith) d< (omega arith) (omega arith)
          (omega arith) (omega arith)))

-- A valid date is read back from the text that is printed for it, with two digits for a year from 1969
-- to 2068, and with four digits for a year up to 9999.
pub of_cutoff-Given : (d : Date) (t : Bytes) → IsMade d → Given d t → of_cutoff t ≡ value d
of_cutoff-Given d t m g = of_cutoff-Made d (IsMade-Made d m) g
