-- ===== src/Core/Civil/Order.antt =====
-- Valid dates, and the order of day numbers.
use birthly_go.Prelude.{ℕ, suc, ◌+◌, ◌≤◌, ◌<◌, ◌≡◌, ◌≢◌, refl, arith, leb, if◌then◌else◌, zero}
use native.Mathlib.Numerals.{add-one}
use native.Mathlib.Decide.{le_ind}
use native.Mathlib.Nat.{le_refl, le_trans}
use birthly_go.Core.Civil.{
  Date, is_leap, days_in_month, days_before_month, days_before_year, ordinal,
}

pub record IsValid (t : Date) : Type 0 where
  pub year_in : 1 ≤ t.year
  pub month_in : (1 ≤ t.month) × (t.month ≤ 12)
  pub day_in : (1 ≤ t.day) × (t.day ≤ days_in_month t.year t.month)

abbrev pub days_in_year : ℕ → ℕ
days_in_year y = days_in_month y 2 + 337

pub days_in_month_range : (y m : ℕ) → (28 ≤ days_in_month y m) × (days_in_month y m ≤ 31)
unfolding days_in_month
days_in_month_range y m = ground arith

pub days_before_month-suc :
    (y m : ℕ) → 1 ≤ m → days_before_month y (suc m) ≡ days_before_month y m + days_in_month y m
unfolding days_before_month
days_before_month-suc y m h = ground arith

pub days_before_month_mono :
    (y m n : ℕ) → 1 ≤ m → m ≤ n → days_before_month y m ≤ days_before_month y n
days_before_month_mono y m n h =
    le_ind (λ k. days_before_month y m ≤ days_before_month y k) (le_refl _)
      (λ k le ih. omega (arith, days_before_month-suc y k (le_trans h le))) n

days_before_year-suc :
    (y : ℕ) → 1 ≤ y → days_before_year (suc y) ≡ days_before_year y + days_in_year y
unfolding days_before_year days_in_month is_leap
days_before_year-suc y h = ground arith

pub days_before_year_mono : (y z : ℕ) → 1 ≤ y → y ≤ z → days_before_year y ≤ days_before_year z
days_before_year_mono y z h =
    le_ind (λ k. days_before_year y ≤ days_before_year k) (le_refl _)
      (λ k le ih. omega (arith, days_before_year-suc k (le_trans h le))) z

days_before_month-13 : (y : ℕ) → days_before_month y 13 ≡ days_in_year y
unfolding days_before_month days_in_month
days_before_month-13 y = ground arith

-- Day `d` of month `m` of year `y`, within that year.
pub day_of_year_range :
    (t : Date) → IsValid t → days_before_month t.year t.month + t.day ≤ days_in_year t.year
day_of_year_range t v = omega (
  arith,
  days_before_month-suc t.year t.month v.month_in.0,
  days_before_month_mono t.year (suc t.month) 13 (omega arith) (omega arith),
  days_before_month-13 t.year,
)

pub days_before_year-next :
    (y : ℕ) → 1 ≤ y → days_before_year (y + 1) ≡ days_before_year y + days_in_year y
days_before_year-next y h = rw add-one (days_before_year-suc y h)

-- A date of an earlier year has a smaller day number.
pub ordinal_year : (a b : Date) → IsValid a → IsValid b → a.year < b.year → ordinal a < ordinal b
unfolding ordinal
ordinal_year a b va vb lt = omega (
  arith,
  day_of_year_range a va,
  days_before_year-suc a.year va.year_in,
  days_before_year_mono (suc a.year) b.year (omega arith) lt,
)

days_in_month_same : (y z m : ℕ) → m ≢ 2 → days_in_month y m ≡ days_in_month z m
unfolding days_in_month
days_in_month_same y z m h = ground arith

pub days_before_march :
    (y : ℕ) → (days_before_month y 2 ≡ 31) × (days_before_month y 3 ≡ 31 + days_in_month y 2)
unfolding days_before_month days_in_month
days_before_march y = (refl, omega arith)

-- How the days before a month depend on the year: by the length of February.
pub days_before_month-years :
    (y z m : ℕ)
    → days_before_month y m + (if leb m 2 then 0 else days_in_month z 2)
      ≡ days_before_month z m + (if leb m 2 then 0 else days_in_month y 2)
unfolding days_before_month
days_before_month-years y z zero = omega arith
days_before_month-years y z (suc m) =
    ground (arith, days_in_month_same y z m, days_before_month-years y z m)
