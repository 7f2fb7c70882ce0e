-- ===== src/Examples/Occurrences.antt =====
-- An event whose occurrence is long past.
use birthly_go.Prelude.{◌≡◌, Bool, some, arith}
use birthly_go.Core.Civil.{Date, date, days_in_month, is_leap}
use birthly_go.Core.Civil.Order.{IsValid}
use birthly_go.Core.Gregorian.Spec.{IsDayMonth}
use birthly_go.Store.Models.{Event}
use birthly_go.Scheduler.Advance.{advance_event}
use birthly_go.Scheduler.Recompute.{recompute_event}
use birthly_go.Scheduler.Current.{
  FitsEvent, IsCurrent, advance_event-IsCurrent, recompute_event-IsCurrent,
}
use birthly_go.Examples.Calendar.{shifted, shifted-HdateLaws}
use birthly_go.Examples.Ticks.{user, event}

abbrev today : Date
today = date 2025 3 1

today-IsValid : IsValid today
unfolding days_in_month
today-IsValid = record {
  year_in = omega arith;
  month_in = (omega arith, omega arith);
  day_in = (omega arith, omega arith);
}

april_tenth : IsDayMonth 4 10
unfolding days_in_month is_leap
april_tenth = record { month_in = (omega arith, omega arith); day_in = (grind arith, grind arith) }

event-FitsEvent : FitsEvent event
event-FitsEvent = record { primary = (λ e. absurd (cc e), λ n. april_tenth); secondary = tt }

advance_event-IsCurrent_example :
    (r : Event) × (changed : Bool) × (advance_event shifted user today event ≡ some (r, changed))
    × IsCurrent today r
advance_event-IsCurrent_example =
    advance_event-IsCurrent shifted shifted-HdateLaws user today today-IsValid
      (omega arith, omega arith) event event-FitsEvent

recompute_event-IsCurrent_example :
    (r : Event) × (changed : Bool) × (recompute_event shifted user today event ≡ some (r, changed))
    × IsCurrent today r
recompute_event-IsCurrent_example =
    recompute_event-IsCurrent shifted shifted-HdateLaws user today today-IsValid
      (omega arith, omega arith) event event-FitsEvent
