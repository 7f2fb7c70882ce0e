-- ===== src/Services/Stats/Counted.antt =====
-- The numbers of the statistics agree with one another.
use birthly_go.Prelude.{
  ℕ, ◌+◌, ◌≤◌, ◌≡◌, refl, subst, ◌∙◌, Bool, true, false, not, ◌==◌, List, [], ◌∷◌, Option, none,
  some, length, length-append, Bool-cases, inl, inr, if-holds, arith,
}
use birthly_go.Prelude.Int.{ℤ}
use birthly_go.Prelude.Text.{text_eq}
use birthly_go.Core.Civil.{Date, ordinal}
use birthly_go.Core.Civil.Days.{add_days, ordinal-date_of_ordinal}
use birthly_go.Core.Hebrew.{Hdate}
use birthly_go.Core.Hebrew.Age.{age_at}
use birthly_go.Store.Models.{Event}
use birthly_go.Store.Database.{is_none}
use birthly_go.Services.Stats.{
  UserStats, no_stats, same_number, same_age, decade, count_key, one_if, is_in_days,
  is_before_nearest, count_nearest, count_dates, count_occurrence, count_kind, with_age, age_on,
  count_stats, stats_from,
}

unfoldable pub sum_counts : {K : Type 0} → List (K × ℕ) → ℕ
sum_counts [] = 0
sum_counts ((k, n) ∷ m) = n + sum_counts m

sum_counts-count_key :
    {K : Type 0} (same : K → K → Bool) (key : K) (m : List (K × ℕ))
    → sum_counts (count_key same key m) ≡ sum_counts m + 1
unfolding sum_counts count_key
sum_counts-count_key same key [] = refl
sum_counts-count_key same key ((k, n) ∷ m) = elim (Bool-cases (same k key)) [
  | inl here ↦ rw here (omega arith)
  | inr other ↦ rw other (omega (arith, sum_counts-count_key same key m))
]

-- The numbers of `n` events, of which at most `m` have a date.
pub record AreCounted (n m : ℕ) (s : UserStats) : Type 0 where
  pub categories : sum_counts s.by_category ≡ n
  pub types : sum_counts s.by_type ≡ n
  pub today_in_week : s.on_today ≤ s.this_week
  pub week_in_month : s.this_week ≤ s.this_month
  pub month_is_30_days : s.this_month ≡ s.next_30_days
  pub month_in_all : s.this_month ≤ sum_counts s.by_month
  pub months : sum_counts s.by_month ≤ m
  pub buckets : sum_counts s.age_buckets ≡ length s.ages
  pub with_year : length s.ages + s.without_year ≤ n
  pub muted_in_all : s.muted ≤ n

add_days-ordinal : (t : Date) (k : ℕ) → 1 ≤ ordinal t → ordinal (add_days t k) ≡ ordinal t + k
unfolding add_days
add_days-ordinal t k h = ordinal-date_of_ordinal (ordinal t + k) (omega (arith, h))

one_if-le : (b : Bool) → one_if b ≤ 1
one_if-le true = omega arith
one_if-le false = omega arith

module _ (H : Hdate) (today : Date) where
  windows-le :
      (occ : Date)
      → 1 ≤ ordinal today
      → (one_if (ordinal occ == ordinal today) ≤ one_if (is_in_days today 7 occ))
        × (one_if (is_in_days today 7 occ) ≤ one_if (is_in_days today 30 occ))
  windows-le occ h =
      rw (add_days-ordinal today 7 h, add_days-ordinal today 30 h) (ground arith, ground arith)

  -- The nearest event is no part of the numbers.
  count_nearest-AreCounted :
      (n m : ℕ) (e : Event) (occ : Date) (s : UserStats)
      → AreCounted n m s
      → AreCounted n m (count_nearest H today e occ s)
  count_nearest-AreCounted n m e occ s h =
      if-holds (AreCounted n m) (is_before_nearest occ s.nearest) _ s
        (record {
          categories = h.categories;
          types = h.types;
          today_in_week = h.today_in_week;
          week_in_month = h.week_in_month;
          month_is_30_days = h.month_is_30_days;
          month_in_all = h.month_in_all;
          months = h.months;
          buckets = h.buckets;
          with_year = h.with_year;
          muted_in_all = h.muted_in_all;
        })
        h

  count_dates-AreCounted :
      (n : ℕ) (e : Event) (occ : Date) (s : UserStats)
      → 1 ≤ ordinal today
      → AreCounted n n s
      → AreCounted n (n + 1) (count_dates H today e occ s)
  count_dates-AreCounted n e occ s start h =
      let (week, month) = windows-le occ start in
      let one = one_if-le (is_in_days today 30 occ) in
      let counted = sum_counts-count_key same_number occ.month s.by_month in
      record {
        categories = h.categories;
        types = h.types;
        today_in_week = omega (arith, h.today_in_week, week);
        week_in_month = omega (arith, h.week_in_month, month);
        month_is_30_days = omega (arith, h.month_is_30_days);
        month_in_all = omega (arith, h.month_in_all, one, counted);
        months = omega (arith, h.months, counted);
        buckets = h.buckets;
        with_year = h.with_year;
        muted_in_all = h.muted_in_all;
      }

  count_occurrence-AreCounted :
      (n : ℕ) (e : Event) (o : Option Date) (s : UserStats)
      → 1 ≤ ordinal today
      → AreCounted n n s
      → AreCounted n (n + 1) (count_occurrence H today e o s)
  count_occurrence-AreCounted n e none s start h = record {
    categories = h.categories;
    types = h.types;
    today_in_week = h.today_in_week;
    week_in_month = h.week_in_month;
    month_is_30_days = h.month_is_30_days;
    month_in_all = h.month_in_all;
    months = omega (arith, h.months);
    buckets = h.buckets;
    with_year = h.with_year;
    muted_in_all = h.muted_in_all;
  }
  count_occurrence-AreCounted n e (some occ) s start h =
      count_nearest-AreCounted n (n + 1) e occ (count_dates H today e occ s)
        (count_dates-AreCounted n e occ s start h)

  -- An age needs a year.
  kinds-AreCounted :
      (n : ℕ) (e : Event) (g : Option ℤ) (s : UserStats)
      → one_if (not (is_none g)) + one_if (is_none e.year) ≤ 1
      → AreCounted n (n + 1) s
      → AreCounted (n + 1) (n + 1) (with_age H today e g (count_kind H today e s))
  kinds-AreCounted n e none s known h = record {
    categories =
        sum_counts-count_key text_eq e.category s.by_category ∙ omega (arith, h.categories);
    types = sum_counts-count_key text_eq e.event_type s.by_type ∙ omega (arith, h.types);
    today_in_week = h.today_in_week;
    week_in_month = h.week_in_month;
    month_is_30_days = h.month_is_30_days;
    month_in_all = h.month_in_all;
    months = h.months;
    buckets = h.buckets;
    with_year = omega (arith, h.with_year, one_if-le (is_none e.year));
    muted_in_all = omega (arith, h.muted_in_all, one_if-le (not e.is_active));
  }
  kinds-AreCounted n e (some age) s known h = record {
    categories =
        sum_counts-count_key text_eq e.category s.by_category ∙ omega (arith, h.categories);
    types = sum_counts-count_key text_eq e.event_type s.by_type ∙ omega (arith, h.types);
    today_in_week = h.today_in_week;
    week_in_month = h.week_in_month;
    month_is_30_days = h.month_is_30_days;
    month_in_all = h.month_in_all;
    months = h.months;
    buckets =
        sum_counts-count_key same_age (decade age) s.age_buckets
        ∙ (omega (arith, h.buckets, length-append s.ages (record { event = e; age = age } ∷ [])));
    with_year =
        omega
          (arith, h.with_year, known, length-append s.ages (record { event = e; age = age } ∷ []));
    muted_in_all = omega (arith, h.muted_in_all, one_if-le (not e.is_active));
  }

  age_on-year :
      (e : Event) (o : Option Date)
      → one_if (not (is_none (age_on H today e o))) + one_if (is_none e.year) ≤ 1
  unfolding age_at
  age_on-year e none = omega (arith, one_if-le (is_none e.year))
  age_on-year e (some occ) = of_year e.year
    where
      of_year :
          (year : Option ℕ)
          → one_if (not (is_none (age_at H e.calendar_type year occ))) + one_if (is_none year) ≤ 1
      of_year none = omega arith
      of_year (some y) =
          omega (arith, one_if-le (not (is_none (age_at H e.calendar_type (some y) occ))))

  pub stats_from-AreCounted :
      (n : ℕ) (events : List Event) (s : UserStats)
      → 1 ≤ ordinal today
      → AreCounted n n s
      → AreCounted (n + length events) (n + length events) (stats_from H today events s)
  unfolding stats_from count_stats
  stats_from-AreCounted n [] s start h = subst (λ k. AreCounted k k s) (omega arith) h
  stats_from-AreCounted n (e ∷ events) s start h =
      subst (λ k. AreCounted k k (stats_from H today (e ∷ events) s)) (omega arith)
        (stats_from-AreCounted (n + 1) events (count_stats H today e s) start (
          kinds-AreCounted n e (age_on H today e e.next_occurrence) _
            (age_on-year e e.next_occurrence)
            (count_occurrence-AreCounted n e e.next_occurrence s start h)))

  pub no_stats-AreCounted : AreCounted 0 0 no_stats
  unfolding sum_counts
  no_stats-AreCounted = record {
    categories = refl;
    types = refl;
    today_in_week = omega arith;
    week_in_month = omega arith;
    month_is_30_days = refl;
    month_in_all = omega arith;
    months = omega arith;
    buckets = refl;
    with_year = omega arith;
    muted_in_all = omega arith;
  }
