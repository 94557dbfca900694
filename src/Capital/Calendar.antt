-- ===== src/Capital/Calendar.antt =====
-- Dates and times as the capital summary uses them: comparison, the calendar fields, and the whole
-- days between two instants. All values are of one time zone. The ordinal of a date is that of
-- Python's proleptic Gregorian calendar.
use portfolio_tracker_public.Prelude.{
  ℕ, ◌+◌, ◌-◌, ◌*◌, ◌/◌, ◌%◌, List, [], ◌∷◌, Bool, ◌&&◌, ◌||◌, not, if◌then◌else◌, ltb, leb, eqb,
}

pub record Datetime : Type 0 where
  pub year : ℕ
  pub month : ℕ
  pub day : ℕ
  -- Microseconds since midnight.
  pub time : ℕ

abbrev pub day_micros : ℕ
day_micros = 86_400_000_000

abbrev pub is_leap : ℕ → Bool
is_leap y = eqb (y % 4) 0 && (not (eqb (y % 100) 0) || eqb (y % 400) 0)

abbrev pub days_before_year : ℕ → ℕ
days_before_year y = (y - 1) * 365 + (y - 1) / 4 + (y - 1) / 400 - (y - 1) / 100

-- Days before a month of a common year, by the months still to come.
abbrev days_before_month : ℕ → ℕ
days_before_month m =
    if leb m 1
    then 0
    else if eqb m 2
    then 31
    else if eqb m 3
    then 59
    else if eqb m 4
    then 90
    else if eqb m 5
    then 120
    else if eqb m 6
    then 151
    else if eqb m 7
    then 181
    else if eqb m 8
    then 212
    else if eqb m 9
    then 243
    else if eqb m 10
    then 273
    else if eqb m 11
    then 304
    else 334

unfoldable pub ordinal : Datetime → ℕ
ordinal d =
    days_before_year d.year
    + days_before_month d.month
    + (if ltb 2 d.month && is_leap d.year then 1 else 0)
    + d.day

-- Microseconds since the day before 1 January of year 1.
unfoldable pub instant : Datetime → ℕ
instant d = ordinal d * day_micros + d.time

-- `a <= b` and `a < b`
unfoldable pub before_eq : Datetime → Datetime → Bool
before_eq a b = leb (instant a) (instant b)

unfoldable pub before : Datetime → Datetime → Bool
before a b = ltb (instant a) (instant b)

-- `(b - a).days` of a later `b`
unfoldable pub days_between : Datetime → Datetime → ℕ
days_between a b = (instant b - instant a) / day_micros

-- `min(dates)`: the first of the earliest.
unfoldable pub min_date : Datetime → List Datetime → Datetime
unfolding before
min_date d [] = d
min_date d (e ∷ es) = min_date (if before e d then e else d) es
