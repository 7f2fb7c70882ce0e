-- ===== src/Core/Gregorian/Spec.antt =====
-- `mustDate` decides validity, and what a yearly recurring day is.
use birthly_go.Prelude.{
  ℕ, ◌≤◌, ◌≡◌, refl, ◌↔◌, arith, false, if◌then◌else◌, not, ◌&&◌, some, String, str_eq, str_eq_iff,
  ◌==◌,
}
use birthly_go.Core.Civil.{Date, date, is_leap, days_in_month}
use birthly_go.Core.Civil.Order.{IsValid}
use birthly_go.Core.Civil.Normal.{time_date_valid, time_date_same}
use birthly_go.Core.Gregorian.{must_date, is_some, resolve_feb29, occurrence_in, feb29_policy_feb28}

-- `mustDate` accepts exactly the dates that exist, and returns the date that it was asked for.
pub must_date-IsValid :
    (y m d : ℕ) (t : Date)
    → 1 ≤ y
    → (must_date y m d ≡ some t) ↔ (IsValid (date y m d) × (t ≡ date y m d))
unfolding must_date
must_date-IsValid y m d t y1 = ground (arith, time_date_valid y m d, time_date_same y m d)

pub must_date_valid : (y m d : ℕ) → IsValid (date y m d) → must_date y m d ≡ some (date y m d)
must_date_valid y m d v = (must_date-IsValid y m d (date y m d) v.year_in).1 (v, refl)

pub must_date_feb29 : (y : ℕ) → 1 ≤ y → is_some (must_date y 2 29) ≡ is_leap y
unfolding must_date days_in_month
must_date_feb29 y h = ground (arith, time_date_valid y 2 29, time_date_same y 2 29)

-- A day and month as the program's parsers let through: `isValidDayMonth`.
pub record IsDayMonth (month day : ℕ) : Type 0 where
  pub month_in : (1 ≤ month) × (month ≤ 12)
  pub day_in : (1 ≤ day) × (day ≤ days_in_month 4 month)

-- `t` is the yearly day (month, day) under the policy: that very day, or what stands for
-- February 29th in a common year.
pub data Recurs (month day : ℕ) (feb29_policy : String) (t : Date) : Type 0 where
  same_day : t.month ≡ month → t.day ≡ day → Recurs month day feb29_policy t
  moved_back :
      month ≡ 2
      → day ≡ 29
      → is_leap t.year ≡ false
      → feb29_policy ≡ feb29_policy_feb28
      → t.month ≡ 2
      → t.day ≡ 28
      → Recurs month day feb29_policy t
  moved_on :
      month ≡ 2
      → day ≡ 29
      → is_leap t.year ≡ false
      → ¬ (feb29_policy ≡ feb29_policy_feb28)
      → t.month ≡ 3
      → t.day ≡ 1
      → Recurs month day feb29_policy t

-- The day that recurs in year `y`, as a month and a day.
pub resolve_feb29-eq :
    (y month day : ℕ) (p : String)
    → 1 ≤ y
    → resolve_feb29 y month day p ≡ (
        if month == 2 && day == 29 && not (is_leap y)
        then (if str_eq p feb29_policy_feb28 then (2, 28) else (3, 1))
        else (month, day))
unfolding resolve_feb29
resolve_feb29-eq y month day p h = rw (must_date_feb29 y h)

resolve_feb29-IsValid :
    (y month day : ℕ) (p : String)
    → 1 ≤ y
    → IsDayMonth month day
    → IsValid (date y (resolve_feb29 y month day p).0 (resolve_feb29 y month day p).1)
unfolding days_in_month
resolve_feb29-IsValid y month day p h v = ground (arith, resolve_feb29-eq y month day p)

-- So the second `mustDate` of the source is never reached for a day that the parsers let through.
pub occurrence_in-eq :
    (y month day : ℕ) (p : String)
    → 1 ≤ y
    → IsDayMonth month day
    → occurrence_in y month day p
      ≡ date y (resolve_feb29 y month day p).0 (resolve_feb29 y month day p).1
unfolding occurrence_in
occurrence_in-eq y month day p h v = rw (
    must_date_valid y (resolve_feb29 y month day p).0 (resolve_feb29 y month day p).1
      (resolve_feb29-IsValid y month day p h v))

pub occurrence_in-IsValid :
    (y month day : ℕ) (p : String)
    → 1 ≤ y
    → IsDayMonth month day
    → IsValid (occurrence_in y month day p)
occurrence_in-IsValid y month day p h v =
    rw (occurrence_in-eq y month day p h v) (resolve_feb29-IsValid y month day p h v)

pub occurrence_in-year :
    (y month day : ℕ) (p : String)
    → 1 ≤ y
    → IsDayMonth month day
    → (occurrence_in y month day p).year ≡ y
occurrence_in-year y month day p h v = rw (occurrence_in-eq y month day p h v)

pub occurrence_in-Recurs :
    (y month day : ℕ) (p : String)
    → 1 ≤ y
    → IsDayMonth month day
    → Recurs month day p (occurrence_in y month day p)
occurrence_in-Recurs y month day p h v = rw (occurrence_in-eq y month day p h v) (
    grind (
      arith,
      resolve_feb29-eq y month day p h,
      str_eq_iff p feb29_policy_feb28,
      same_day,
      moved_back,
      moved_on,
    ))

-- In each year the day falls once.
pub Recurs-unique :
    (month day : ℕ) (p : String) (t : Date)
    → IsValid t
    → IsDayMonth month day
    → Recurs month day p t
    → t ≡ occurrence_in t.year month day p
unfolding days_in_month
Recurs-unique month day p t vt v (same_day em ed) =
    rw (occurrence_in-eq t.year month day p vt.year_in v)
      (ground (arith, resolve_feb29-eq t.year month day p vt.year_in))
Recurs-unique month day p t vt v (moved_back m d c e em ed) =
    rw (occurrence_in-eq t.year month day p vt.year_in v) (
      ground
        (arith, resolve_feb29-eq t.year month day p vt.year_in, str_eq_iff p feb29_policy_feb28))
Recurs-unique month day p t vt v (moved_on m d c e em ed) =
    rw (occurrence_in-eq t.year month day p vt.year_in v) (
      ground
        (arith, resolve_feb29-eq t.year month day p vt.year_in, str_eq_iff p feb29_policy_feb28))
