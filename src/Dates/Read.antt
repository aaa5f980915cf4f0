-- ===== src/Dates/Read.antt =====
-- Reading dates, from the command line and from a history file (src/sccsdate.cc).
use cssc.Common.{
  ℕ, zero, suc, ◌+◌, ◌-◌, ◌*◌, [], ◌∷◌, Bool, ◌&&◌, Bytes, if◌then◌else◌, ltb, leb, ◌==◌, length,
  drop, is_digit,
}
use cssc.Common.Int.{ℤ, pos, negsuc, pos_part, eqb_ℤ}
use cssc.Common.Runs.{Run, value, quit, ◌>>=◌}
use cssc.Dates.{Date, Assertion, assertion, no_date, days_in_month, date_of}

unfoldable pub y2k_window : ℕ → Run Assertion ℕ
y2k_window year =
    let y = (if ltb year 69 then year + 2000 else year + 1900) in
    if leb 1969 y && ltb y 2069 then value y else quit assertion

-- The bytes at `n` and after it. Past the end stands the NUL of a C string.
abbrev pub byte_at : Bytes → ℕ → ℕ
byte_at [] n = 0
byte_at (c ∷ s) zero = c
byte_at (c ∷ s) (suc n) = byte_at s n

abbrev pub get_two_digits : Bytes → ℕ → ℕ
get_two_digits s n = (byte_at s n - b'0') * 10 + (byte_at s (n + 1) - b'0')

-- The value of a digit that is read, with that of a digit that follows, and the rest of the text.
abbrev pub after_digit : ℕ → Bytes → ℤ × Bytes
after_digit c [] = (pos (c - b'0'), [])
after_digit c (c' ∷ s) =
    if is_digit c' then (pos ((c - b'0') * 10 + (c' - b'0')), s) else (pos (c - b'0'), c' ∷ s)

unfoldable pub get_part : Bytes → ℤ → ℤ × Bytes
get_part [] def = (def, [])
get_part (c ∷ s) def = let later = get_part s def in if is_digit c then after_digit c s else later

unfoldable pub count_digits : Bytes → ℕ
count_digits [] = 0
count_digits (c ∷ s) = if is_digit c then count_digits s + 1 else count_digits s

-- The year, once its first part is read, and the rest of the text.
unfoldable pub full_year : ℕ → ℤ → Bytes → Run Assertion (ℤ × Bytes)
unfolding y2k_window
full_year n_digits year s =
    if ltb 12 n_digits
    then (if is_digit (byte_at s 0) && is_digit (byte_at s 1)
        then value (pos (pos_part year * 100 + get_two_digits s 0), drop 2 s)
        else value (year, s))
    else (y2k_window (pos_part year) >>= λ y. value (pos y, s))

-- The parts after the year.
unfoldable pub other_parts : ℤ → Bytes → Date
unfolding get_part
other_parts year s =
    let mo = get_part s (pos 12) in
    let da = get_part mo.1 (days_in_month mo.0 year) in
    let ho = get_part da.1 (pos 23) in
    let mi = get_part ho.1 (pos 59) in
    let se = get_part mi.1 (pos 59) in date_of year mo.0 da.0 ho.0 mi.0 se.0

-- The constructor from a date on the command line.
unfoldable pub of_cutoff : Bytes → Run Assertion Date
unfolding get_part full_year other_parts
of_cutoff s =
    let part = get_part s (negsuc 0) in
    if eqb_ℤ part.0 (negsuc 0)
    then value no_date
    else (full_year (count_digits s) part.0 part.1 >>= λ y. value (other_parts y.0 y.1))

-- Whether the year of a date has four digits.
unfoldable pub has_century : Bytes → Bool
has_century date =
    ltb 4 (length date)
    && is_digit (byte_at date 0)
    && is_digit (byte_at date 1)
    && is_digit (byte_at date 2)
    && is_digit (byte_at date 3)
    && byte_at date 4 == b'/'

-- The repair of a decade that was counted past 9.
unfoldable pub repair : Bytes → Bytes
repair [] = []
repair (c ∷ date) = if leb b':' c && leb c b'@' then (c - 10) ∷ date else c ∷ date

-- Two digits, a separator, two digits, the separator, two digits and the end.
unfoldable pub has_shape : ℕ → Bytes → Bool
has_shape separator s =
    is_digit (byte_at s 0)
    && is_digit (byte_at s 1)
    && byte_at s 2 == separator
    && is_digit (byte_at s 3)
    && is_digit (byte_at s 4)
    && byte_at s 5 == separator
    && is_digit (byte_at s 6)
    && is_digit (byte_at s 7)
    && byte_at s 8 == 0

unfoldable pub file_year : ℕ → ℕ → Run Assertion ℕ
unfolding y2k_window
file_year century year =
    if century == 0
    then y2k_window year
    else if leb 1969 (century * 100 + year) && ltb (century * 100 + year) 2069
    then value (century * 100 + year)
    else quit assertion

-- The date whose texts have the shape, or no date.
unfoldable pub read_fields : ℕ → Bytes → Bytes → Run Assertion Date
unfolding has_shape file_year
read_fields century date time =
    let year = file_year century (get_two_digits date 0) in
    if has_shape b'/' date && has_shape b':' time
    then (year >>= λ y. value (
        date_of (pos y) (pos (get_two_digits date 3)) (pos (get_two_digits date 6))
          (pos (get_two_digits time 0)) (pos (get_two_digits time 3))
          (pos (get_two_digits time 6))))
    else value no_date

-- The constructor from a date and a time in a history file.
unfoldable pub of_file : Bytes → Bytes → Run Assertion Date
unfolding has_century repair read_fields
of_file date time =
    if has_century date
    then read_fields (get_two_digits date 0) (repair (drop 2 date)) time
    else read_fields 0 (repair date) time
