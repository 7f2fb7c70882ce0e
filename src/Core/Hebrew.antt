-- ===== src/Core/Hebrew.antt =====
-- internal/core/hebcal.go and the Hebrew half of internal/core/dates.go. The calendar mathematics is
-- that of the package github.com/hebcal/hdate, which is a parameter.
pub mod Months
pub mod Next
pub mod Age
use birthly_go.Prelude.{
  ℕ, ◌+◌, ◌≤◌, Bool, true, false, not, ◌&&◌, ◌||◌, ltb, ◌==◌, if◌then◌else◌, Option, none, some,
  String, str_eq, ◌≡◌, ◌<◌,
}
use birthly_go.Core.Civil.{Date, before, ordinal}
use birthly_go.Core.Civil.Order.{IsValid}
use birthly_go.Core.Gregorian.{next_gregorian_occurrence}

-- `hdate.HDate`: month 1 is Nisan, 7 Tishrei, 12 Adar (or Adar I), 13 Adar II.
pub record HDate : Type 0 where
  pub year : ℕ
  pub month : ℕ
  pub day : ℕ

abbrev pub hebrew_date : ℕ → ℕ → ℕ → HDate
hebrew_date y m d = record { year = y; month = m; day = d }

-- What the program calls of the package: `IsLeapYear`, `DaysInMonth` (of a month and a year), `Greg`
-- of `New`, and `FromGregorian`.
pub record Hdate : Type 0 where
  pub is_leap_year : ℕ → Bool
  pub days_in_month : ℕ → ℕ → ℕ
  pub greg : HDate → Date
  pub from_gregorian : Date → HDate

abbrev pub adar_policy_adar_ii : String
adar_policy_adar_ii = "adar_ii"

abbrev pub calendar_type_hebrew : String
calendar_type_hebrew = "hebrew"

abbrev pub calendar_type_gregorian : String
calendar_type_gregorian = "gregorian"

-- The results of a search for the next occurrence; `unreachable` is the source's panic.
pub data Occurrence : Type 0 where
  found : Date → Occurrence
  no_such_month : Occurrence
  unreachable : Occurrence

abbrev pub clamp_to : ℕ → ℕ → ℕ
clamp_to max_day day = if ltb max_day day then max_day else day

-- One round of the loop of `nextHebrewOccurrence`, and what follows it.
unfoldable pub candidate_or : Option Date → Date → Occurrence → Occurrence
candidate_or none today rest = no_such_month
candidate_or (some candidate) today rest =
    if not (before candidate today) then found candidate else rest

module _ (H : Hdate) where
  open H use {is_leap_year, days_in_month, greg, from_gregorian}

  -- `none` is the error of a month that the year does not have.
  unfoldable pub month_length : ℕ → ℕ → Option ℕ
  month_length h_year h_month =
      if ltb h_month 1 || ltb 13 h_month || (h_month == 13 && not (is_leap_year h_year))
      then none
      else some (days_in_month h_month h_year)

  unfoldable pub resolve_month : ℕ → ℕ → String → ℕ
  resolve_month h_year src_month policy =
      if not (src_month == 12) && not (src_month == 13)
      then src_month
      else if is_leap_year h_year
      then (if src_month == 13 then 13 else if str_eq policy adar_policy_adar_ii then 13 else 12)
      else 12

  unfoldable pub to_gregorian : ℕ → ℕ → ℕ → Option Date
  unfolding month_length
  to_gregorian h_year h_month h_day = elim (month_length h_year h_month) [
    | none ↦ none
    | some max_day ↦ some (greg (hebrew_date h_year h_month (clamp_to max_day h_day)))
  ]

  abbrev pub to_hebrew : Date → HDate
  to_hebrew d = from_gregorian d

  abbrev pub candidate_in : ℕ → ℕ → ℕ → String → Option Date
  candidate_in h_year h_month h_day adar_policy =
      to_gregorian h_year (resolve_month h_year h_month adar_policy) h_day

  unfoldable pub next_hebrew_occurrence : ℕ → ℕ → Date → String → Occurrence
  unfolding candidate_or
  next_hebrew_occurrence h_month h_day today adar_policy =
      let h_year_today = (to_hebrew today).year in
      candidate_or (candidate_in h_year_today h_month h_day adar_policy) today
        (candidate_or (candidate_in (h_year_today + 1) h_month h_day adar_policy) today unreachable)

  -- `NextOccurrence`: every calendar type but "hebrew" is Gregorian.
  unfoldable pub next_occurrence : String → ℕ → ℕ → Date → String → String → Occurrence
  next_occurrence calendar_type month day today adar_policy feb29_policy =
      if str_eq calendar_type calendar_type_hebrew
      then next_hebrew_occurrence month day today adar_policy
      else found (next_gregorian_occurrence month day today feb29_policy)

-- The Gregorian years that the theorems are about, those in which a recurring day of them or of the next
-- Hebrew year can fall, and the Hebrew years of all these. The package counts with machine integers, which
-- are far from their ends there.
abbrev pub IsModernYear : ℕ → Type 0
IsModernYear y = (1754 ≤ y) × (y ≤ 9999)

abbrev pub IsNearYear : ℕ → Type 0
IsNearYear y = (1753 ≤ y) × (y ≤ 10_001)

abbrev pub IsHebrewYear : ℕ → Type 0
IsHebrewYear y = (5514 ≤ y) × (y ≤ 13_761)

-- A Hebrew date that exists, in a year that begins after September 1752, from when on the package counts
-- Gregorian days as the program does. Before, it uses the Julian calendar, and some days do not exist.
pub record IsHebrew (H : Hdate) (h : HDate) : Type 0 where
  pub year_in : IsHebrewYear h.year
  pub month_in : (1 ≤ h.month) × (h.month ≤ 13)
  pub leap_only : h.month ≡ 13 → H.is_leap_year h.year ≡ true
  pub day_in : (1 ≤ h.day) × (h.day ≤ H.days_in_month h.month h.year)

-- What the package documents of dates after its change of calendars in September 1752: months have days,
-- the two conversions are inverse to one another between dates that exist, and a date of an earlier Hebrew
-- year is an earlier day. The Hebrew year 5514 begins in September 1753, and the year 1754 in it.
pub record HdateLaws (H : Hdate) : Type 0 where
  pub month_has_days : (m y : ℕ) → 1 ≤ H.days_in_month m y
  pub greg-IsValid : (h : HDate) → IsHebrew H h → IsValid (H.greg h)
  pub greg_near : (h : HDate) → IsHebrew H h → IsNearYear (H.greg h).year
  pub from_gregorian-IsHebrew :
      (t : Date) → IsValid t → IsModernYear t.year → IsHebrew H (H.from_gregorian t)
  pub from_gregorian_year :
      (t : Date) → IsValid t → IsModernYear t.year → (H.from_gregorian t).year ≤ 13_760
  pub from_gregorian-greg : (h : HDate) → IsHebrew H h → H.from_gregorian (H.greg h) ≡ h
  pub greg-from_gregorian :
      (t : Date) → IsValid t → IsModernYear t.year → H.greg (H.from_gregorian t) ≡ t
  pub earlier_year :
      (a b : Date)
      → IsValid a
      → IsValid b
      → IsNearYear a.year
      → IsNearYear b.year
      → (H.from_gregorian a).year < (H.from_gregorian b).year
      → ordinal a < ordinal b
