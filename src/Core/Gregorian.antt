-- ===== src/Core/Gregorian.antt =====
-- internal/core/dates.go: `mustDate` and the next occurrence on the Gregorian calendar.
pub mod Spec
pub mod Next
use birthly_go.Prelude.{
  ℕ, ◌+◌, ◌-◌, Bool, true, false, not, ◌&&◌, ◌||◌, ltb, ◌==◌, if◌then◌else◌, Option, none, some,
  String, str_eq,
}
use birthly_go.Core.Civil.{
  Date, date, zero_time, days_in_month, carry_days, time_date, ordinal, before,
}

-- `Feb29PolicyFeb28`; any other policy counts as March 1st.
abbrev pub feb29_policy_feb28 : String
feb29_policy_feb28 = "feb28"

abbrev pub feb29_policy_mar01 : String
feb29_policy_mar01 = "mar01"

-- `time.Date` normalises, so the test compares the components that come back.
unfoldable pub must_date : ℕ → ℕ → ℕ → Option Date
must_date y m d =
    if ltb d 1
    then none
    else (let t = time_date y m d in
        if not (t.year == y) || not (t.month == m) || not (t.day == d) then none else some t)

abbrev pub is_some : Option Date → Bool
is_some none = false
is_some (some t) = true

-- The month and day that stand for (month, day) in year `y` under the policy: only February 29th
-- moves, and only where the year has none.
unfoldable pub resolve_feb29 : ℕ → ℕ → ℕ → String → ℕ × ℕ
resolve_feb29 y month day feb29_policy =
    if month == 2 && day == 29 && not (is_some (must_date y 2 29))
    then (if str_eq feb29_policy feb29_policy_feb28 then (2, 28) else (3, 1))
    else (month, day)

-- `if !ok { candidate, _ = mustDate(year, month, day-1) }`: the zero time where that fails too.
abbrev pub or_zero : Option Date → Date
or_zero none = zero_time
or_zero (some t) = t

abbrev pub or_day_before : Option Date → ℕ → ℕ → ℕ → Date
or_day_before none y m d = or_zero (must_date y m (d - 1))
or_day_before (some t) y m d = t

-- The candidate in year `y`.
unfoldable pub occurrence_in : ℕ → ℕ → ℕ → String → Date
occurrence_in y month day feb29_policy =
    let r = resolve_feb29 y month day feb29_policy in or_day_before (must_date y r.0 r.1) y r.0 r.1

unfoldable pub next_gregorian_occurrence : ℕ → ℕ → Date → String → Date
next_gregorian_occurrence month day today feb29_policy =
    let candidate = occurrence_in today.year month day feb29_policy in
    if not (before candidate today)
    then candidate
    else occurrence_in (today.year + 1) month day feb29_policy
