-- ===== src/Core/Civil/Days.antt =====
-- `AddDate(0, 0, n)`: day numbers back to dates.
use birthly_go.Prelude.{
  ℕ_discrete, ℕ, zero, suc, ◌+◌, ◌-◌, ◌*◌, ◌/◌, ◌%◌, ◌≤◌, ◌<◌, ◌≡◌, ◌∙◌, refl, ap, arith,
}
use native.Mathlib.Numerals.{add-one}
use birthly_go.Core.Civil.{
  Date, date, days_in_month, days_before_month, days_before_year, ordinal, carry_days, time_date,
  next_month, next_month_year,
}
use birthly_go.Core.Civil.Order.{IsValid, days_before_year-next, days_before_month-suc}
use birthly_go.Core.Civil.Normal.{time_date-IsValid}

-- The date with day number `n`. Its year is at least `(n - 1) / 366 + 1`, and `time.Date` carries the
-- days that are left over.
unfoldable pub date_of_ordinal : ℕ → Date
date_of_ordinal n = let y = (n - 1) / 366 + 1 in time_date y 1 (n - days_before_year y)

unfoldable pub add_days : Date → ℕ → Date
add_days t k = date_of_ordinal (ordinal t + k)

unfoldable pub sub_days : Date → ℕ → Date
sub_days t k = date_of_ordinal (ordinal t - k)

january : (y : ℕ) → days_before_month y 1 ≡ 0
unfolding days_before_month
january y = refl

december : (y : ℕ) → days_before_month y 12 + 31 ≡ days_in_month y 2 + 337
unfolding days_before_month days_in_month
december y = ground arith

december_days : (y : ℕ) → days_in_month y 12 ≡ 31
unfolding days_in_month
december_days y = refl

carry_one :
    (y m d : ℕ)
    → 1 ≤ y
    → 1 ≤ m
    → days_in_month y m < d
    → ordinal (date (next_month_year y m) (next_month m) (d - days_in_month y m))
      ≡ ordinal (date y m d)
unfolding ordinal
carry_one y m d hy lo h = elim (ℕ_discrete m 12) [
  | yes e ↦ rw e (
      ground (
        arith,
        january (y + 1),
        december y,
        december_days y,
        days_before_year-next y hy,
        ap (days_in_month y) e,
      ))
  | no n ↦
      ground (arith, add-one m, ap (days_before_month y) (add-one m), days_before_month-suc y m lo)
]

-- Carrying days over keeps the day number.
ordinal-carry_days :
    (fuel y m d : ℕ)
    → 1 ≤ y
    → 1 ≤ m
    → m ≤ 12
    → ordinal (carry_days fuel y m d) ≡ ordinal (date y m d)
unfolding carry_days
ordinal-carry_days zero y m d hy lo hi = refl
ordinal-carry_days (suc fuel) y m d hy lo hi = ground (
  arith,
  carry_one y m d hy lo,
  ordinal-carry_days fuel (next_month_year y m) (next_month m) (d - days_in_month y m),
)

-- The year that the search starts from is not too late.
first_year : (n : ℕ) → 1 ≤ n → days_before_year ((n - 1) / 366 + 1) < n
unfolding days_before_year
first_year n h = omega arith

-- Every day number from 1 on is that of one valid date, the one that is found.
pub ordinal-date_of_ordinal : (n : ℕ) → 1 ≤ n → ordinal (date_of_ordinal n) ≡ n
unfolding date_of_ordinal time_date ordinal
ordinal-date_of_ordinal n h =
    let y : ℕ = (n - 1) / 366 + 1 in
    let d : ℕ = n - days_before_year y in
    let e : (y * 12 + 1 - 1) / 12 ≡ y = omega arith in
    let f : (y * 12 + 1 - 1) % 12 + 1 ≡ 1 = omega arith in
    rw (e, f)
      (ordinal-carry_days d y 1 d (omega arith) (omega arith) (omega arith)
        ∙ omega (arith, january y, first_year n h))

pub date_of_ordinal-IsValid : (n : ℕ) → 1 ≤ n → IsValid (date_of_ordinal n)
unfolding date_of_ordinal
date_of_ordinal-IsValid n h =
    time_date-IsValid ((n - 1) / 366 + 1) 1 (n - days_before_year ((n - 1) / 366 + 1)) (omega arith)
      (omega arith) (omega (arith, first_year n h))
