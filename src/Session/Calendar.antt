-- ===== src/Session/Calendar.antt =====
-- `date.isoformat()`, on the days since 0001-01-01. The proleptic Gregorian calendar is counted
-- from the first of March of the year 0, so that a leap day ends its year.
use Prim.Native.String.{◌++◌}
use xauusd.Prelude.{ℕ, String, ◌+◌, ◌-◌, ◌*◌, ◌/◌, ◌%◌, if◌then◌else◌, ltb, leb, ◌==◌}

-- The day of an instant in microseconds.
abbrev pub day_of : ℕ → ℕ
day_of instant = instant / 86400000000

abbrev digit : ℕ → String
digit d =
    if d == 0
    then "0"
    else if d == 1
    then "1"
    else if d == 2
    then "2"
    else if d == 3
    then "3"
    else if d == 4
    then "4"
    else if d == 5
    then "5"
    else if d == 6
    then "6"
    else if d == 7
    then "7"
    else if d == 8
    then "8"
    else "9"

two_digits : ℕ → String
two_digits k = digit (k / 10 % 10) ++ digit (k % 10)

four_digits : ℕ → String
unfolding two_digits
four_digits k = two_digits (k / 100) ++ two_digits (k % 100)

-- The year, the month and the day of the month.
civil : ℕ → ℕ × ℕ × ℕ
civil days =
    let shifted = days + 306 in
    let day_of_era = shifted % 146097 in
    let year_of_era =
      (day_of_era - day_of_era / 1460 + day_of_era / 36524 - day_of_era / 146096) / 365 in
    let day_of_year = day_of_era - (365 * year_of_era + year_of_era / 4 - year_of_era / 100) in
    let shifted_month = (5 * day_of_year + 2) / 153 in
    let month = if ltb shifted_month 10 then shifted_month + 3 else shifted_month - 9 in
    (
      year_of_era + shifted / 146097 * 400 + (if leb month 2 then 1 else 0),
      month,
      day_of_year - (153 * shifted_month + 2) / 5 + 1,
    )

unfoldable pub iso_date : ℕ → String
unfolding civil two_digits four_digits
iso_date days =
    let (year, month, day) = civil days in
    four_digits year ++ "-" ++ two_digits month ++ "-" ++ two_digits day
