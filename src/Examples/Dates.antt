-- ===== src/Examples/Dates.antt =====
-- Occurrences of single days.
use birthly_go.Core.Gematria.{gematria, hebrew_year_gematria}
use birthly_go.Core.Gematria.Value.{value, value-gematria}
use birthly_go.Prelude.Text.{Text, codes}
use birthly_go.Prelude.{◌%◌, ◌↔◌, ◌≤◌, ◌≡◌, refl, some, arith}
use birthly_go.Core.Civil.{Date, date, ordinal, days_in_month, is_leap}
use birthly_go.Core.Civil.Order.{IsValid}
use birthly_go.Core.Gregorian.{must_date, next_gregorian_occurrence, feb29_policy_mar01}
use birthly_go.Core.Gregorian.Spec.{must_date-IsValid, IsDayMonth}
use birthly_go.Core.Gregorian.Next.{IsNext, next_gregorian_occurrence-IsNext}
use birthly_go.Core.Hebrew.{
  next_hebrew_occurrence, next_occurrence, found, adar_policy_adar_ii, calendar_type_hebrew,
}
use birthly_go.Core.Hebrew.Next.{IsNextHebrew, next_hebrew_occurrence-IsNextHebrew}
use birthly_go.Core.Hebrew.Age.{FitsCalendar, next_occurrence-found}
use birthly_go.Examples.Calendar.{shifted, shifted-HdateLaws}

abbrev today : Date
today = date 2025 3 1

today-IsValid : IsValid today
unfolding days_in_month
today-IsValid = record {
  year_in = omega arith;
  month_in = (omega arith, omega arith);
  day_in = (omega arith, omega arith);
}

leap_day-IsDayMonth : IsDayMonth 2 29
unfolding days_in_month is_leap
leap_day-IsDayMonth = record {
  month_in = (grind arith, grind arith);
  day_in = (grind arith, grind arith);
}

must_date-IsValid_example : (must_date 2025 3 1 ≡ some today) ↔ (IsValid today × (today ≡ today))
must_date-IsValid_example = must_date-IsValid 2025 3 1 today (omega arith)

next_gregorian_occurrence-IsNext_example :
    IsNext 2 29 feb29_policy_mar01 today (next_gregorian_occurrence 2 29 today feb29_policy_mar01)
next_gregorian_occurrence-IsNext_example =
    next_gregorian_occurrence-IsNext 2 29 feb29_policy_mar01 today today-IsValid leap_day-IsDayMonth

next_hebrew_occurrence-IsNextHebrew_example :
    (r : Date) × (next_hebrew_occurrence shifted 13 29 today adar_policy_adar_ii ≡ found r)
    × IsNextHebrew shifted shifted-HdateLaws 13 29 adar_policy_adar_ii today r
next_hebrew_occurrence-IsNextHebrew_example =
    next_hebrew_occurrence-IsNextHebrew shifted shifted-HdateLaws 13 29 adar_policy_adar_ii today
      today-IsValid (omega arith, omega arith) (omega arith) (omega arith) (omega arith)

fits : FitsCalendar calendar_type_hebrew 2 29
fits = (λ e. (omega arith, omega arith, omega arith), λ n. absurd (n refl))

next_occurrence-found_example :
    (r : Date) × (next_occurrence shifted calendar_type_hebrew 2 29 today adar_policy_adar_ii
        feb29_policy_mar01
      ≡ found r)
    × IsValid r
    × (ordinal today ≤ ordinal r)
next_occurrence-found_example =
    next_occurrence-found shifted shifted-HdateLaws calendar_type_hebrew 2 29 today
      adar_policy_adar_ii feb29_policy_mar01 today-IsValid (omega arith, omega arith) fits

value-gematria_example :
    (value (gematria 5786) ≡ 5786) × (value (hebrew_year_gematria 5786) ≡ 5786 % 1000)
value-gematria_example = value-gematria 5786

abbrev dana : Text
dana = codes "Dana"
