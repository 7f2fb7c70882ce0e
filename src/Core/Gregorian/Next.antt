-- ===== src/Core/Gregorian/Next.antt =====
-- `nextGregorianOccurrence` finds the first recurring day on or after today.
use birthly_go.Prelude.{ℕ, ◌∙◌, ◌+◌, ◌≤◌, ◌<◌, ◌≡◌, inl, inr, arith, sym, ap, Bool-cases, String}
use birthly_go.Core.Civil.{Date, ordinal, before, days_in_month, days_before_year}
use birthly_go.Core.Civil.Order.{
  IsValid, ordinal_year, days_before_month-years, days_before_march, days_before_year-next,
  day_of_year_range,
}
use birthly_go.Core.Gregorian.{occurrence_in, next_gregorian_occurrence}
use birthly_go.Core.Gregorian.Spec.{
  IsDayMonth, Recurs, resolve_feb29-eq, occurrence_in-eq, occurrence_in-IsValid, occurrence_in-year,
  occurrence_in-Recurs, Recurs-unique,
}

-- `r` is the first day on or after `today` on which the yearly day recurs.
pub record IsNext (month day : ℕ) (feb29_policy : String) (today r : Date) : Type 0 where
  pub valid : IsValid r
  pub recurs : Recurs month day feb29_policy r
  pub not_past : ordinal today ≤ ordinal r
  pub first :
      (t : Date)
      → IsValid t
      → Recurs month day feb29_policy t
      → ordinal today ≤ ordinal t
      → ordinal r ≤ ordinal t

module _ (month day : ℕ) (p : String) (today : Date) (vt : IsValid today)
    (v : IsDayMonth month day) where
  abbrev this_year : Date
  this_year = occurrence_in today.year month day p

  abbrev next_year : Date
  next_year = occurrence_in (today.year + 1) month day p

  this_year-year : this_year.year ≡ today.year
  this_year-year = occurrence_in-year today.year month day p vt.year_in v

  next_year-year : next_year.year ≡ today.year + 1
  next_year-year = occurrence_in-year (today.year + 1) month day p (omega arith) v

  this_year-IsValid : IsValid this_year
  this_year-IsValid = occurrence_in-IsValid today.year month day p vt.year_in v

  next_year-IsValid : IsValid next_year
  next_year-IsValid = occurrence_in-IsValid (today.year + 1) month day p (omega arith) v

  -- In the year of a recurring day, that day is the candidate.
  same_year :
      (y : ℕ) (t : Date)
      → IsValid t
      → Recurs month day p t
      → t.year ≡ y
      → ordinal (occurrence_in y month day p) ≡ ordinal t
  same_year y t vu r e =
      ap (λ z. ordinal (occurrence_in z month day p)) (sym e)
      ∙ ap ordinal (sym (Recurs-unique month day p t vu v r))

  -- This year's day is the answer unless it is past.
  IsNext-this_year : ordinal today ≤ ordinal this_year → IsNext month day p today this_year
  IsNext-this_year h = record {
    valid = this_year-IsValid;
    recurs = occurrence_in-Recurs today.year month day p vt.year_in v;
    not_past = h;
    first = λ t vu r le. ground (
      arith,
      this_year-year,
      ordinal_year t today vu vt,
      same_year today.year t vu r,
      ordinal_year this_year t this_year-IsValid vu,
    );
  }

  IsNext-next_year : ordinal this_year < ordinal today → IsNext month day p today next_year
  IsNext-next_year h = record {
    valid = next_year-IsValid;
    recurs = occurrence_in-Recurs (today.year + 1) month day p (omega arith) v;
    not_past = ground (arith, next_year-year, ordinal_year today next_year vt next_year-IsValid);
    first = λ t vu r le. ground (
      arith,
      next_year-year,
      ordinal_year t today vu vt,
      same_year today.year t vu r,
      same_year (today.year + 1) t vu r,
      ordinal_year next_year t next_year-IsValid vu,
    );
  }

  -- The next occurrence of a day that `isValidDayMonth` accepts is the first date on or after
  -- today on which that day recurs, under either policy for February 29th.
  pub next_gregorian_occurrence-IsNext :
      IsNext month day p today (next_gregorian_occurrence month day today p)
  unfolding next_gregorian_occurrence
  next_gregorian_occurrence-IsNext = elim (Bool-cases (before this_year today)) [
    | inl past ↦ rw past (IsNext-next_year (ground arith))
    | inr open_yet ↦ rw open_yet (IsNext-this_year (ground arith))
  ]

  this_year_le : ordinal this_year ≤ ordinal today + 365
  unfolding ordinal days_in_month
  this_year_le = ground (
    arith,
    this_year-year,
    ap days_before_year this_year-year,
    day_of_year_range this_year this_year-IsValid,
  )

  year_gap : ordinal next_year ≤ ordinal this_year + 366
  unfolding ordinal days_in_month
  year_gap =
      rw
        (
          occurrence_in-eq today.year month day p vt.year_in v,
          occurrence_in-eq (today.year + 1) month day p (omega arith) v,
        )
        (ground (
          arith,
          resolve_feb29-eq today.year month day p vt.year_in,
          resolve_feb29-eq (today.year + 1) month day p,
          days_before_year-next today.year vt.year_in,
          days_before_march today.year,
          days_before_march (today.year + 1),
          days_before_month-years today.year (today.year + 1) month,
        ))

  -- The next occurrence is at most 365 days away.
  pub next_gregorian_occurrence-le :
      ordinal (next_gregorian_occurrence month day today p) ≤ ordinal today + 365
  unfolding next_gregorian_occurrence
  next_gregorian_occurrence-le = elim (Bool-cases (before this_year today)) [
    | inl past ↦ rw past (ground (arith, year_gap))
    | inr open_yet ↦ rw open_yet (omega (arith, this_year_le))
  ]
