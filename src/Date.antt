-- ===== src/Date.antt =====
-- internal/domain/partialdate.go: dates with the precision at which they are known. A midnight in
-- UTC, which is all that an anchor is, is a civil date; time.Date with its normalisation of
-- months and days is `time_date`.
pub mod Anchor
pub mod Period
use firmscout.Base.{
  [], ◌∷◌, ◌++◌, ℕ, zero, suc, ◌+◌, ◌*◌, ◌-◌, ◌/◌, ◌%◌, Bool, true, false, not, ◌&&◌, ◌||◌, Option,
  none, some, ltb, leb, ◌==◌, if◌then◌else◌,
}
use firmscout.Base.Go.{Time, hour, before, Error, invalid, Result, ok, err}
use firmscout.Base.Text.{Str, text}

pub record Civil : Type 0 where
  pub year : ℕ
  pub month : ℕ
  pub day : ℕ

abbrev pub civil : ℕ → ℕ → ℕ → Civil
civil y m d = record { day = d; month = m; year = y }

-- the day of Go's zero time
abbrev pub zero_day : Civil
zero_day = civil 1 1 1

abbrev pub is_zero_day : Civil → Bool
is_zero_day c = (c.year == 1) && (c.month == 1) && (c.day == 1)

unfoldable pub is_leap : ℕ → Bool
is_leap y = (y % 4 == 0) && (not (y % 100 == 0) || (y % 400 == 0))

unfoldable pub days_in_month : ℕ → ℕ → ℕ
days_in_month y m =
    if (m == 11) || (m == 9) || (m == 6) || (m == 4)
    then 30
    else if not (m == 2)
    then 31
    else if is_leap y
    then 29
    else 28

-- Days past the end of a month run into the next ones; each round takes at least 28 days off.
unfoldable pub carry_days : ℕ → ℕ → ℕ → ℕ → Civil
carry_days zero y m d = civil y m d
carry_days (suc rounds) y m d =
    let later =
      carry_days rounds (if m == 12 then y + 1 else y) (if m == 12 then 1 else m + 1)
        (d - days_in_month y m) in
    if ltb (days_in_month y m) d then later else civil y m d

-- Day 0 is the last day of the month before.
unfoldable pub normal_day : ℕ → ℕ → ℕ → Civil
normal_day y m zero =
    if m == 1 then civil (y - 1) 12 31 else civil y (m - 1) (days_in_month y (m - 1))
normal_day y m (suc d) = carry_days (suc d) y m (suc d)

-- time.Date(y, m, d, 0, 0, 0, 0, time.UTC) for a year from 1 on, and m, d from 0 on
unfoldable pub time_date : ℕ → ℕ → ℕ → Civil
time_date y m d = let months = y * 12 + m - 1 in normal_day (months / 12) (months % 12 + 1) d

-- The instant of a midnight, in nanoseconds since the zero time.
unfoldable pub days_before_month : ℕ → ℕ → ℕ
days_before_month y zero = 0
days_before_month y (suc zero) = 0
days_before_month y (suc (suc m)) = days_before_month y (suc m) + days_in_month y (suc m)

unfoldable pub day_number : Civil → ℕ
day_number c =
    let p = c.year - 1 in
    p * 365 + p / 4 - p / 100 + p / 400 + days_before_month c.year c.month + (c.day - 1)

unfoldable pub instant : Civil → Time
instant c = day_number c * (24 * hour)

pub data DatePrecision : Type 0 where
  exact_day month_only year_only unknown : DatePrecision
  unlisted : Str → DatePrecision

unfoldable pub valid_date_precision : DatePrecision → Bool
valid_date_precision (unlisted s) = false
valid_date_precision _ = true

pub record PartialDate : Type 0 where
  pub anchor : Civil
  pub stored_precision : DatePrecision

abbrev pub partial_date : Civil → DatePrecision → PartialDate
partial_date a p = record { anchor = a; stored_precision = p }

abbrev pub unknown_date : PartialDate
unknown_date = partial_date zero_day unknown

unfoldable pub new_exact_date : ℕ → ℕ → ℕ → Result PartialDate
new_exact_date year month day =
    let t = time_date year month day in
    if ltb year 1970 || ltb 2200 year
    then err (invalid "release_date" "year out of range")
    else if not (t.year == year) || not (t.month == month) || not (t.day == day)
    then err (invalid "release_date" "is not a real date")
    else ok (partial_date t exact_day)

unfoldable pub new_month_date : ℕ → ℕ → Result PartialDate
new_month_date year month =
    if ltb year 1970 || ltb 2200 year
    then err (invalid "release_date" "year out of range")
    else if ltb month 1 || ltb 12 month
    then err (invalid "release_date" "month out of range")
    else ok (partial_date (time_date year month 1) month_only)

unfoldable pub new_year_date : ℕ → Result PartialDate
new_year_date year =
    if ltb year 1970 || ltb 2200 year
    then err (invalid "release_date" "year out of range")
    else ok (partial_date (time_date year 1 1) year_only)

-- A stored instant in UTC: its day, and the nanoseconds into it.
pub record Stored : Type 0 where
  pub date : Civil
  pub nanoseconds : ℕ

abbrev is_zero_stored : Stored → Bool
is_zero_stored s = is_zero_day s.date && (s.nanoseconds == 0)

-- The anchoring rule of each precision: the error, if it is broken.
unfoldable pub broken_rule : DatePrecision → Civil → Option Error
broken_rule month_only a =
    if not (a.day == 1)
    then some (invalid "release_date" "month precision requires an anchor on day 1")
    else none
broken_rule year_only a =
    if not (a.day == 1) || not (a.month == 1)
    then some (invalid "release_date" "year precision requires an anchor on 1 January")
    else none
broken_rule _ a = none

-- NewPartialDate, after its check that the precision is known
unfoldable pub anchored : Stored → DatePrecision → Result PartialDate
anchored s unknown =
    if not (is_zero_stored s)
    then err (invalid "release_date" "unknown precision requires no date")
    else ok unknown_date
anchored s p =
    if is_zero_stored s
    then err (invalid "release_date" "precision requires a date")
    else elim (broken_rule p s.date) [
      | some e ↦ err e
      | none ↦ ok (partial_date (time_date s.date.year s.date.month s.date.day) p)
    ]

unfoldable pub new_partial_date : Stored → DatePrecision → Result PartialDate
unfolding anchored broken_rule valid_date_precision
new_partial_date s p =
    if not (valid_date_precision p)
    then err (invalid "release_date_precision" "is not a known precision")
    else anchored s p

-- Precision: the zero value of the field reads as unknown
abbrev pub known_precision : DatePrecision → DatePrecision
known_precision (unlisted []) = unknown
known_precision p = p

abbrev pub precision : PartialDate → DatePrecision
precision d = known_precision d.stored_precision

abbrev pub is_known : DatePrecision → Bool
is_known unknown = false
is_known _ = true

unfoldable pub known : PartialDate → Bool
known d = is_known (precision d)

-- Year, Month and ExactDay: none where the precision does not reach
unfoldable pub year_of : PartialDate → Option ℕ
unfolding known
year_of d = if known d then some d.anchor.year else none

abbrev month_at : DatePrecision → Civil → Option ℕ
month_at exact_day a = some a.month
month_at month_only a = some a.month
month_at _ a = none

unfoldable pub month_of : PartialDate → Option ℕ
month_of d = month_at (precision d) d.anchor

abbrev day_at : DatePrecision → Civil → Option Civil
day_at exact_day a = some a
day_at _ a = none

unfoldable pub exact_day_of : PartialDate → Option Civil
exact_day_of d = day_at (precision d) d.anchor

-- AddDate(0, 1, -1) and AddDate(1, 0, -1) of an anchor whose day is at least 1
abbrev period_end_at : DatePrecision → Civil → Civil
period_end_at exact_day a = a
period_end_at month_only a = time_date a.year (a.month + 1) (a.day - 1)
period_end_at year_only a = time_date (a.year + 1) a.month (a.day - 1)
period_end_at _ a = zero_day

unfoldable pub period_end : PartialDate → Civil
period_end d = period_end_at (precision d) d.anchor

-- Before and AfterInstant
unfoldable pub date_before : PartialDate → PartialDate → Bool
unfolding known
date_before d other =
    if not (known d) || not (known other)
    then false
    else before (instant d.anchor) (instant other.anchor)

unfoldable pub after_instant : PartialDate → Time → Bool
unfolding known
after_instant d t = if not (known d) then false else before t (instant d.anchor)

-- A year of four digits, and a month or day of two, as in the layout "2006-01-02"
unfoldable pub digit_at : ℕ → Str
digit_at n = (n % 10 + b'0') ∷ []

unfoldable pub two_digits : ℕ → Str
unfolding digit_at
two_digits n = digit_at (n / 10) ++ digit_at n

unfoldable pub four_digits : ℕ → Str
unfolding two_digits
four_digits n = two_digits (n / 100) ++ two_digits n

abbrev date_text : DatePrecision → Civil → Str
date_text exact_day a =
    four_digits a.year ++ (text "-" ++ (two_digits a.month ++ (text "-" ++ two_digits a.day)))
date_text month_only a = four_digits a.year ++ (text "-" ++ two_digits a.month)
date_text year_only a = four_digits a.year
date_text _ a = []

-- String, for a year below 10000
unfoldable pub date_string : PartialDate → Str
unfolding four_digits
date_string d = date_text (precision d) d.anchor
