-- ===== src/Examples/Calendar.antt =====
-- A calendar that satisfies the laws of the parameter: the Gregorian months under years counted from
-- 3760 years earlier.
use birthly_go.Prelude.{◌≡◌, ◌≤◌, true, ℕ, ◌-◌, ◌+◌, false, arith}
use birthly_go.Core.Civil.{date, days_in_month}
use birthly_go.Core.Civil.Order.{days_in_month_range, ordinal_year}
use birthly_go.Core.Hebrew.{IsHebrewYear, hebrew_date, Hdate, HdateLaws}

abbrev pub shifted : Hdate
shifted = record {
  is_leap_year = λ y. false;
  days_in_month = λ m y. days_in_month (y - 3760) m;
  greg = λ h. date (h.year - 3760) h.month h.day;
  from_gregorian = λ t. hebrew_date (t.year + 3760) t.month t.day;
}

month_le : (m : ℕ) → m ≤ 13 → (m ≡ 13 → false ≡ true) → m ≤ 12
month_le m le short = ground arith

sub-shift : (y : ℕ) → y + 3760 - 3760 ≡ y
sub-shift y = omega arith

shift-sub : (y : ℕ) → IsHebrewYear y → y - 3760 + 3760 ≡ y
shift-sub y h = omega (arith, h.0)

pub shifted-HdateLaws : HdateLaws shifted
shifted-HdateLaws = record {
  month_has_days = λ m y. omega (arith, (days_in_month_range (y - 3760) m).0);
  greg-IsValid = λ h v. record {
    year_in = omega (arith, v.year_in.0);
    month_in = (omega arith, month_le h.month v.month_in.1 v.leap_only);
    day_in = v.day_in;
  };
  greg_near = λ h v. (omega (arith, v.year_in.0), omega (arith, v.year_in.1));
  from_gregorian_year = λ t v late. omega (arith, late.1);
  from_gregorian-IsHebrew = λ t v late. record {
    year_in = (omega (arith, late.0), omega (arith, late.1));
    month_in = (omega arith, omega arith);
    leap_only = λ e. absurd (omega arith);
    day_in = rw (sub-shift t.year) v.day_in;
  };
  from_gregorian-greg = λ h v. rw (shift-sub h.year v.year_in);
  greg-from_gregorian = λ t v late. rw (sub-shift t.year);
  earlier_year = λ a b va vb la lb lt. ordinal_year a b va vb (omega (arith, lt));
}
