-- ===== src/Core/Hebrew/Next.antt =====
-- `nextHebrewOccurrence` always finds the first recurring day on or after today; its panic is
-- unreachable.
use birthly_go.Prelude.{ℕ, ◌+◌, ◌≤◌, ◌<◌, ◌≡◌, sym, ap, ◌∙◌, String, arith, Bool-cases, inl, inr}
use birthly_go.Core.Civil.{Date, before, ordinal}
use birthly_go.Core.Civil.Order.{IsValid}
use birthly_go.Core.Hebrew.{
  IsModernYear, IsNearYear, IsHebrewYear, Hdate, HDate, HdateLaws, found, next_hebrew_occurrence,
}
use birthly_go.Core.Hebrew.Months.{recurring_date, recurring_date-IsHebrew, candidate_in_lem}

-- `t` is the recurring Hebrew day of its Hebrew year.
abbrev pub RecursHebrew : (H : Hdate) → HdateLaws H → ℕ → ℕ → String → Date → Type 0
RecursHebrew H laws month day policy t =
    H.from_gregorian t ≡ recurring_date H laws (H.from_gregorian t).year month day policy

-- `r` is a day on or after `today` on which the Hebrew day recurs, and no such day to the year 9999 is between.
pub record IsNextHebrew (H : Hdate) (laws : HdateLaws H) (month day : ℕ) (policy : String)
    (today r : Date) : Type 0 where
  pub valid : IsValid r
  pub recurs : RecursHebrew H laws month day policy r
  pub not_past : ordinal today ≤ ordinal r
  pub first :
      (t : Date)
      → IsValid t
      → IsModernYear t.year
      → RecursHebrew H laws month day policy t
      → ordinal today ≤ ordinal t
      → ordinal r ≤ ordinal t

module _ (H : Hdate) (laws : HdateLaws H) (month day : ℕ) (policy : String) (today : Date)
    (vt : IsValid today) (late : IsModernYear today.year) (lo : 1 ≤ month) (hi : month ≤ 13)
    (hd : 1 ≤ day) where
  open H use {greg, from_gregorian}

  -- The candidate of a Hebrew year.
  abbrev candidate : ℕ → Date
  candidate y = greg (recurring_date H laws y month day policy)

  abbrev year_today : ℕ
  year_today = (from_gregorian today).year

  year_today-in : IsHebrewYear year_today
  year_today-in = (laws.from_gregorian-IsHebrew today vt late).year_in

  next_year-in : IsHebrewYear (year_today + 1)
  next_year-in =
      (omega (arith, year_today-in.0), omega (arith, laws.from_gregorian_year today vt late))

  near : {y : ℕ} → IsModernYear y → IsNearYear y
  near h = (omega (arith, h.0), omega (arith, h.1))

  candidate-IsValid : (y : ℕ) → IsHebrewYear y → IsValid (candidate y)
  candidate-IsValid y h =
      laws.greg-IsValid _ (recurring_date-IsHebrew H laws y month day policy h lo hi hd)

  candidate_near : (y : ℕ) → IsHebrewYear y → IsNearYear (candidate y).year
  candidate_near y h =
      laws.greg_near _ (recurring_date-IsHebrew H laws y month day policy h lo hi hd)

  from_gregorian-candidate :
      (y : ℕ)
      → IsHebrewYear y
      → from_gregorian (candidate y) ≡ recurring_date H laws y month day policy
  from_gregorian-candidate y h =
      laws.from_gregorian-greg _ (recurring_date-IsHebrew H laws y month day policy h lo hi hd)

  candidate-year : (y : ℕ) → IsHebrewYear y → (from_gregorian (candidate y)).year ≡ y
  candidate-year y h = ap (λ (k : HDate). k.year) (from_gregorian-candidate y h)

  candidate-RecursHebrew :
      (y : ℕ) → IsHebrewYear y → RecursHebrew H laws month day policy (candidate y)
  candidate-RecursHebrew y h =
      from_gregorian-candidate y h
      ∙ ap (λ z. recurring_date H laws z month day policy) (sym (candidate-year y h))

  -- A recurring day is the candidate of its Hebrew year.
  RecursHebrew-eq :
      (t : Date)
      → IsValid t
      → IsModernYear t.year
      → RecursHebrew H laws month day policy t
      → candidate (from_gregorian t).year ≡ t
  RecursHebrew-eq t v h r = ap greg (sym r) ∙ laws.greg-from_gregorian t v h

  same_year :
      (y : ℕ) (t : Date)
      → IsValid t
      → IsModernYear t.year
      → RecursHebrew H laws month day policy t
      → (from_gregorian t).year ≡ y
      → ordinal (candidate y) ≡ ordinal t
  same_year y t v h r e =
      ap (λ z. ordinal (candidate z)) (sym e) ∙ ap ordinal (RecursHebrew-eq t v h r)

  IsNextHebrew-this_year :
      ordinal today ≤ ordinal (candidate year_today)
      → IsNextHebrew H laws month day policy today (candidate year_today)
  IsNextHebrew-this_year h = record {
    valid = candidate-IsValid year_today year_today-in;
    recurs = candidate-RecursHebrew year_today year_today-in;
    not_past = h;
    first = λ t v l r le. ground (
      arith,
      candidate-year year_today year_today-in,
      laws.earlier_year t today v vt (near l) (near late),
      same_year year_today t v l r,
      laws.earlier_year (candidate year_today) t (candidate-IsValid year_today year_today-in) v
          (candidate_near year_today year_today-in) (near l),
    );
  }

  -- Next Hebrew year's day is never past: that is why the panic is unreachable.
  next_year-lt : ordinal today < ordinal (candidate (year_today + 1))
  next_year-lt = ground (
    arith,
    year_today-in,
    candidate-year (year_today + 1) next_year-in,
    laws.earlier_year today (candidate (year_today + 1)) vt
        (candidate-IsValid (year_today + 1) next_year-in) (near late)
        (candidate_near (year_today + 1) next_year-in),
  )

  IsNextHebrew-next_year :
      ordinal (candidate year_today) < ordinal today
      → IsNextHebrew H laws month day policy today (candidate (year_today + 1))
  IsNextHebrew-next_year h = record {
    valid = candidate-IsValid (year_today + 1) next_year-in;
    recurs = candidate-RecursHebrew (year_today + 1) next_year-in;
    not_past = omega (arith, next_year-lt);
    first = λ t v l r le. ground (
      arith,
      year_today-in,
      candidate-year (year_today + 1) next_year-in,
      laws.earlier_year t today v vt (near l) (near late),
      same_year year_today t v l r,
      same_year (year_today + 1) t v l r,
      laws.earlier_year (candidate (year_today + 1)) t
          (candidate-IsValid (year_today + 1) next_year-in) v
          (candidate_near (year_today + 1) next_year-in) (near l),
    );
  }

  -- On a day from 1754 to 9999, for a month from 1 to 13 and a day from 1 on, the search ends in neither its
  -- error nor its panic and finds a date on or after today on which the Hebrew day recurs, and no date of those
  -- years on which it recurs lies between them, if the calendar package obeys its laws.
  pub next_hebrew_occurrence-IsNextHebrew :
      (r : Date) × (next_hebrew_occurrence H month day today policy ≡ found r)
      × IsNextHebrew H laws month day policy today r
  unfolding next_hebrew_occurrence
  next_hebrew_occurrence-IsNextHebrew = elim (Bool-cases (before (candidate year_today) today)) [
    | inl past ↦ (
      candidate (year_today + 1),
      ground (
        arith,
        year_today-in,
        next_year-lt,
        candidate_in_lem H laws year_today month day policy year_today-in lo hi hd,
        candidate_in_lem H laws (year_today + 1) month day policy next_year-in lo hi hd,
      ),
      IsNextHebrew-next_year (ground arith),
    )
    | inr open_yet ↦ (
      candidate year_today,
      ground (
        arith,
        year_today-in,
        candidate_in_lem H laws year_today month day policy year_today-in lo hi hd,
        candidate_in_lem H laws (year_today + 1) month day policy next_year-in lo hi hd,
      ),
      IsNextHebrew-this_year (ground arith),
    )
  ]
