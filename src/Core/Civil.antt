-- ===== src/Core/Civil.antt =====
-- The calendar arithmetic of Go's `time` package that the program uses: a `time.Time` at UTC
-- midnight is a date, and `time.Date` normalises days and months that are out of range. Years
-- start at 1, the year of Go's zero time.
pub mod Order
pub mod Normal
pub mod Days
use birthly_go.Prelude.{
  ℕ, zero, suc, ◌+◌, ◌-◌, ◌*◌, ◌/◌, ◌%◌, ◌≤◌, Bool, true, false, not, ◌&&◌, ◌||◌, ltb, leb, ◌==◌,
  if◌then◌else◌,
}

pub record Date : Type 0 where
  pub year : ℕ
  pub month : ℕ
  pub day : ℕ

abbrev pub date : ℕ → ℕ → ℕ → Date
date year month day = record { year = year; month = month; day = day }

-- `time.Time{}`
abbrev pub zero_time : Date
zero_time = date 1 1 1

unfoldable pub is_leap : ℕ → Bool
is_leap y = y % 4 == 0 && (not (y % 100 == 0) || y % 400 == 0)

unfoldable pub days_in_month : ℕ → ℕ → ℕ
days_in_month y m =
    if (m == 4) || (m == 6) || (m == 9) || (m == 11)
    then 30
    else if m == 2
    then (if is_leap y then 29 else 28)
    else 31

-- The days of year `y` before month `m`.
unfoldable pub days_before_month : ℕ → ℕ → ℕ
days_before_month y zero = 0
days_before_month y (suc m) = if m == 0 then 0 else days_before_month y m + days_in_month y m

unfoldable pub days_before_year : ℕ → ℕ
days_before_year y = (y - 1) * 365 + (y - 1) / 4 - (y - 1) / 100 + (y - 1) / 400

-- The day number of a date, counted from 0001-01-01 as 1. Instants at UTC midnight compare as
-- these do.
unfoldable pub ordinal : Date → ℕ
ordinal t = days_before_year t.year + days_before_month t.year t.month + t.day

-- `a.Before(b)` and `a.Equal(b)`
abbrev pub before : Date → Date → Bool
before a b = ltb (ordinal a) (ordinal b)

abbrev pub equal : Date → Date → Bool
equal a b = ordinal a == ordinal b

abbrev pub next_month_year : ℕ → ℕ → ℕ
next_month_year y m = if m == 12 then y + 1 else y

abbrev pub next_month : ℕ → ℕ
next_month m = if m == 12 then 1 else m + 1

-- Days past the end of a month run over into the next one.
unfoldable pub carry_days : ℕ → ℕ → ℕ → ℕ → Date
carry_days zero y m d = date y m d
carry_days (suc fuel) y m d =
    let later = carry_days fuel (next_month_year y m) (next_month m) (d - days_in_month y m) in
    if ltb (days_in_month y m) d then later else date y m d

-- `time.Date(y, m, d, 0, 0, 0, 0, time.UTC)` from day 1 on: months out of range move the year.
unfoldable pub time_date : ℕ → ℕ → ℕ → Date
time_date y m d = let index = y * 12 + m - 1 in carry_days d (index / 12) (index % 12 + 1) d
