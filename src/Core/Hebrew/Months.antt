-- ===== src/Core/Hebrew/Months.antt =====
-- Months resolve to months that exist, and a day past the end of its month is clamped to it.
use birthly_go.Prelude.{ℕ, ◌≤◌, ◌≡◌, ◌↔◌, ◌⊎◌, ◌<◌, true, false, none, some, String, arith, min}
use birthly_go.Core.Civil.{Date}
use birthly_go.Core.Civil.Order.{IsValid}
use birthly_go.Core.Hebrew.{
  Hdate, HDate, hebrew_date, IsHebrew, IsHebrewYear, HdateLaws, resolve_month, to_gregorian,
  candidate_in,
}

module _ (H : Hdate) (laws : HdateLaws H) where
  open H use {is_leap_year, days_in_month, greg, from_gregorian}

  -- The day that a recurring Hebrew day falls on in a year.
  abbrev pub recurring_date : ℕ → ℕ → ℕ → String → HDate
  recurring_date y m d policy =
      let r = resolve_month H y m policy in hebrew_date y r (min d (days_in_month r y))

  -- Whatever the leap status of the year, a month from 1 to 13 resolves to one that it has.
  pub recurring_date-IsHebrew :
      (y m d : ℕ) (policy : String)
      → IsHebrewYear y
      → 1 ≤ m
      → m ≤ 13
      → 1 ≤ d
      → IsHebrew H (recurring_date y m d policy)
  unfolding resolve_month
  recurring_date-IsHebrew y m d policy hy lo hi hd =
      ground (arith, laws.month_has_days (resolve_month H y m policy) y)

  -- The conversion succeeds for a month that exists. The result converts back to the Hebrew day that
  -- was asked for, clamped to the last day of that very month.
  pub to_gregorian_lem :
      (y m d : ℕ)
      → IsHebrewYear y
      → 1 ≤ m
      → m ≤ 13
      → (m ≡ 13 → is_leap_year y ≡ true)
      → 1 ≤ d
      → (t : Date) × (to_gregorian H y m d ≡ some t)
        × IsValid t
        × (from_gregorian t ≡ hebrew_date y m (min d (days_in_month m y)))
  unfolding to_gregorian
  to_gregorian_lem y m d hy lo hi leap hd =
      let h : HDate = hebrew_date y m (min d (days_in_month m y)) in
      let v : IsHebrew H h = ground (arith, laws.month_has_days m y) in
      (greg h, ground arith, laws.greg-IsValid h v, laws.from_gregorian-greg h v)

  pub candidate_in_lem :
      (y m d : ℕ) (policy : String)
      → IsHebrewYear y
      → 1 ≤ m
      → m ≤ 13
      → 1 ≤ d
      → candidate_in H y m d policy ≡ some (greg (recurring_date y m d policy))
  unfolding to_gregorian resolve_month
  candidate_in_lem y m d policy hy lo hi hd = ground arith

  -- A month that the year does not have is refused.
  pub to_gregorian-none :
      (y m d : ℕ)
      → (to_gregorian H y m d ≡ none)
        ↔ ((m ≡ 0) ⊎ ((13 < m) ⊎ ((m ≡ 13) × (is_leap_year y ≡ false))))
  unfolding to_gregorian
  to_gregorian-none y m d = ground arith
