-- ===== src/Core/Hebrew/Age.antt =====
-- `NextOccurrence` on both calendars, and `AgeAt` and `DaysUntil` of its result.
use birthly_go.Prelude.{
  ℕ, ◌≤◌, ◌≡◌, if◌then◌else◌, Option, none, some, String, str_eq, str_eq_iff, arith, Bool-cases,
  inl, inr,
}
use birthly_go.Prelude.Int.{ℤ, sub_ℕ}
use birthly_go.Core.Civil.{Date, ordinal}
use birthly_go.Core.Civil.Order.{IsValid}
use birthly_go.Core.Gregorian.{next_gregorian_occurrence}
use birthly_go.Core.Gregorian.Spec.{IsDayMonth}
use birthly_go.Core.Gregorian.Next.{next_gregorian_occurrence-IsNext}
use birthly_go.Core.Hebrew.{
  IsModernYear, Hdate, HdateLaws, found, next_occurrence, calendar_type_hebrew, to_hebrew,
}
use birthly_go.Core.Hebrew.Next.{next_hebrew_occurrence-IsNextHebrew}

-- `DaysUntil`: both arguments are UTC midnights, so the quotient is exact.
unfoldable pub days_until : Date → Date → ℤ
days_until target today = sub_ℕ (ordinal target) (ordinal today)

-- `AgeAt`; `none` for an unknown year of birth.
unfoldable pub age_at : Hdate → String → Option ℕ → Date → Option ℤ
age_at H calendar_type none on = none
age_at H calendar_type (some year) on =
    if str_eq calendar_type calendar_type_hebrew
    then some (sub_ℕ (to_hebrew H on).year year)
    else some (sub_ℕ on.year year)

-- The day and month of an event fit its calendar.
abbrev pub FitsCalendar : String → ℕ → ℕ → Type 0
FitsCalendar calendar_type month day =
    (calendar_type ≡ calendar_type_hebrew → (1 ≤ month) × (month ≤ 13) × (1 ≤ day))
    × (¬ (calendar_type ≡ calendar_type_hebrew) → IsDayMonth month day)

module _ (H : Hdate) (laws : HdateLaws H) (calendar_type : String) (month day : ℕ) (today : Date)
    (adar_policy feb29_policy : String) (vt : IsValid today) (late : IsModernYear today.year)
    (fits : FitsCalendar calendar_type month day) where
  -- On a day from 1754 to 9999, `NextOccurrence` of an event whose day fits its calendar succeeds with a valid date
  -- that is not before today, if the calendar package obeys its laws.
  pub next_occurrence-found :
      (r : Date) × (next_occurrence H calendar_type month day today adar_policy feb29_policy
        ≡ found r)
      × IsValid r
      × (ordinal today ≤ ordinal r)
  unfolding next_occurrence
  next_occurrence-found = elim (Bool-cases (str_eq calendar_type calendar_type_hebrew)) [
    | inl hebrew ↦
        let f = fits.0 ((str_eq_iff calendar_type calendar_type_hebrew).0 hebrew) in
        let (r, e, n) =
          next_hebrew_occurrence-IsNextHebrew H laws month day adar_policy today vt late f.0 f.1
            f.2 in
        (r, rw (hebrew) e, n.valid, n.not_past)
    | inr gregorian ↦
        let f : IsDayMonth month day =
          fits.1 (λ e. ground (arith, str_eq_iff calendar_type calendar_type_hebrew)) in
        let n = next_gregorian_occurrence-IsNext month day feb29_policy today vt f in
        (
          next_gregorian_occurrence month day today feb29_policy,
          rw (gregorian),
          n.valid,
          n.not_past,
        )
  ]
