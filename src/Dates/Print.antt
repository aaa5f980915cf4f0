-- ===== src/Dates/Print.antt =====
-- Printing dates (src/sccsdate.cc): the text that is printed, or none for a format letter that is not
-- known.
use cssc.Common.{ℕ, ◌+◌, ◌%◌, ◌∷◌, ◌++◌, Bytes, Option, none, some, if◌then◌else◌, ltb, ◌==◌}
use cssc.Common.Decimal.{decimal}
use cssc.Common.Int.{ℤ, pos, negsuc, sub_ℕ}
use cssc.Dates.{Date}

-- `%02d`.
abbrev pub two_places : ℤ → Bytes
two_places (pos n) = if ltb n 10 then b'0' ∷ decimal n else decimal n
two_places (negsuc n) = b'-' ∷ decimal (n + 1)

-- `year_ % 100`.
abbrev pub yy : ℤ → ℤ
yy (pos n) = pos (n % 100)
yy (negsuc n) = sub_ℕ 0 ((n + 1) % 100)

abbrev pub three : ℕ → ℤ → ℤ → ℤ → Bytes
three separator a b c = two_places a ++ separator ∷ (two_places b ++ separator ∷ two_places c)

unfoldable pub print_with : Date → ℕ → Option Bytes
print_with d fmt =
    if fmt == b'D'
    then some (three b'/' (yy d.year) d.month d.month_day)
    else if fmt == b'H'
    then some (three b'/' d.month d.month_day (yy d.year))
    else if fmt == b'T'
    then some (three b':' d.hour d.minute d.second)
    else if fmt == b'y'
    then some (two_places (yy d.year))
    else if fmt == b'o'
    then some (two_places d.month)
    else if fmt == b'd'
    then some (two_places d.month_day)
    else if fmt == b'h'
    then some (two_places d.hour)
    else if fmt == b'm'
    then some (two_places d.minute)
    else if fmt == b's'
    then some (two_places d.second)
    else none

-- The text that `as_string` makes in a buffer of 18 bytes.
unfoldable pub as_string : Date → Bytes
as_string d =
    three b'/' (yy d.year) d.month d.month_day ++ b' ' ∷ three b':' d.hour d.minute d.second
