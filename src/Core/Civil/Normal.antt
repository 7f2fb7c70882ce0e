-- ===== src/Core/Civil/Normal.antt =====
-- `time_date` gives back exactly the components of a valid date.
use birthly_go.Prelude.{ℕ, zero, suc, ◌+◌, ◌-◌, ◌*◌, ◌/◌, ◌%◌, ◌≤◌, ◌≡◌, refl, arith}
use birthly_go.Core.Civil.{date, days_in_month, next_month_year, next_month, carry_days, time_date}
use birthly_go.Core.Civil.Order.{IsValid, days_in_month_range}

carry_days_month : (fuel y m d : ℕ) → 1 ≤ m → 1 ≤ (carry_days fuel y m d).month
unfolding carry_days
carry_days_month zero y m d lo = lo
carry_days_month (suc fuel) y m d lo =
    ground
      (arith, carry_days_month fuel (next_month_year y m) (next_month m) (d - days_in_month y m))

-- With as much fuel as there are days the carry ends in a valid date.
pub carry_days-IsValid :
    (fuel y m d : ℕ) → d ≤ fuel → 1 ≤ y → 1 ≤ m → m ≤ 12 → 1 ≤ d → IsValid (carry_days fuel y m d)
unfolding carry_days
carry_days-IsValid zero y m d f y1 lo hi d1 = absurd (omega arith)
carry_days-IsValid (suc fuel) y m d f y1 lo hi d1 = ground (
  arith,
  days_in_month_range y m,
  carry_days-IsValid fuel (next_month_year y m) (next_month m) (d - days_in_month y m),
)

carry_days_stays : (fuel y m d : ℕ) → d ≤ days_in_month y m → carry_days fuel y m d ≡ date y m d
unfolding carry_days
carry_days_stays zero y m d h = refl
carry_days_stays (suc fuel) y m d h = ground arith

index_split :
    (y m : ℕ) → 1 ≤ m → m ≤ 12 → ((y * 12 + m - 1) / 12 ≡ y) × ((y * 12 + m - 1) % 12 + 1 ≡ m)
index_split y m lo hi = (omega arith, omega arith)

pub time_date_valid :
    (y m d : ℕ) → 1 ≤ m → m ≤ 12 → d ≤ days_in_month y m → time_date y m d ≡ date y m d
unfolding time_date
time_date_valid y m d lo hi h =
    rw ((index_split y m lo hi).0, (index_split y m lo hi).1) (carry_days_stays d y m d h)

-- `time.Date` from month 1 and day 1 on gives a valid date.
pub time_date-IsValid : (y m d : ℕ) → 1 ≤ y → 1 ≤ m → 1 ≤ d → IsValid (time_date y m d)
unfolding time_date
time_date-IsValid y m d y1 m1 d1 =
    carry_days-IsValid d ((y * 12 + m - 1) / 12) ((y * 12 + m - 1) % 12 + 1) d (omega arith)
      (omega arith) (omega arith) (omega arith) d1

time_date_month : (y m d : ℕ) → 1 ≤ (time_date y m d).month
unfolding time_date
time_date_month y m d =
    carry_days_month d ((y * 12 + m - 1) / 12) ((y * 12 + m - 1) % 12 + 1) d (omega arith)

-- It gives back its arguments only if they name a valid date.
pub time_date_same :
    (y m d : ℕ)
    → 1 ≤ y
    → 1 ≤ d
    → (time_date y m d).year ≡ y
    → (time_date y m d).month ≡ m
    → (time_date y m d).day ≡ d
    → IsValid (date y m d)
time_date_same y m d y1 d1 ey em ed =
    ground (arith, time_date_month y m d, time_date-IsValid y m d y1)
