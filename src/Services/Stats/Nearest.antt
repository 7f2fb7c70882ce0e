-- ===== src/Services/Stats/Nearest.antt =====
-- The nearest event of the statistics, and the statistics of a user as a whole.
use birthly_go.Prelude.{
  ℕ, ◌≤◌, ◌≡◌, refl, sym, ap, ◌∙◌, Bool, true, false, if◌then◌else◌, List, [], ◌∷◌, Option, none,
  some, length, Bool-cases, Option-cases, inl, inr, All, arith, subst,
}
use birthly_go.Prelude.Int.{ℤ}
use birthly_go.Core.Civil.{Date, before, ordinal}
use birthly_go.Core.Hebrew.{Hdate}
use birthly_go.Store.Models.{User, Event}
use birthly_go.Store.Database.{Database}
use birthly_go.Store.Events.{list_not_deleted}
use birthly_go.Services.Stats.{
  UserStats, EventAge, no_stats, is_before_nearest, count_dates, count_occurrence, with_age, age_on,
  count_stats, stats_from, with_extremes, get_user_stats,
}
use birthly_go.Services.Stats.Counted.{AreCounted, stats_from-AreCounted, no_stats-AreCounted}

-- An event that is not after the date `d`.
abbrev pub IsNearBy : Date → Option Event → Type 0
IsNearBy d near =
    (m : Event) × (occ : Date) × (near ≡ some m)
    × (m.next_occurrence ≡ some occ)
    × (ordinal occ ≤ ordinal d)

abbrev nearer : Event → Date → Option Event → Option Event
nearer e occ near = if is_before_nearest occ near then some e else near

is_before_nearest-some :
    (m : Event) (occ date : Date)
    → m.next_occurrence ≡ some date
    → is_before_nearest occ (some m) ≡ before occ date
is_before_nearest-some m occ date at =
    ap (λ o. is_before_nearest occ (some (record m { next_occurrence = o }))) at

nearer-true :
    (e : Event) (occ d : Date) (near : Option Event)
    → is_before_nearest occ near ≡ true
    → e.next_occurrence ≡ some occ
    → ordinal occ ≤ ordinal d
    → IsNearBy d (nearer e occ near)
nearer-true e occ d near sooner there below =
    subst (λ b. IsNearBy d (if b then some e else near)) (sym sooner) (e, occ, refl, there, below)

nearer-false :
    (e : Event) (occ d : Date) (near : Option Event)
    → is_before_nearest occ near ≡ false
    → IsNearBy d near
    → IsNearBy d (nearer e occ near)
nearer-false e occ d near later kept =
    subst (λ b. IsNearBy d (if b then some e else near)) (sym later) kept

nearer-kept :
    (e : Event) (occ d : Date) (near : Option Event)
    → e.next_occurrence ≡ some occ
    → IsNearBy d near
    → IsNearBy d (nearer e occ near)
nearer-kept e occ d near there (m, date, same, at, below) =
    let test = ap (is_before_nearest occ) same ∙ is_before_nearest-some m occ date at in
    elim (Bool-cases (before occ date)) [
      | inl sooner ↦ nearer-true e occ d near (test ∙ sooner) there (ground (arith, sooner, below))
      | inr later ↦ nearer-false e occ d near (test ∙ later) (m, date, same, at, below)
    ]

nearer-new :
    (e : Event) (occ : Date) (near : Option Event)
    → e.next_occurrence ≡ some occ
    → IsNearBy occ (nearer e occ near)
nearer-new e occ none there = (e, occ, refl, there, omega arith)
nearer-new e occ (some m) there = elim (Option-cases m.next_occurrence) [
  | inl gone ↦
      nearer-true e occ occ (some m)
        (ap (λ o. is_before_nearest occ (some (record m { next_occurrence = o }))) gone) there
        (omega arith)
  | inr (date, at) ↦ elim (Bool-cases (before occ date)) [
    | inl sooner ↦
        nearer-true e occ occ (some m) (is_before_nearest-some m occ date at ∙ sooner) there
          (omega arith)
    | inr later ↦
        nearer-false e occ occ (some m) (is_before_nearest-some m occ date at ∙ later)
          (m, date, refl, at, ground (arith, later))
  ]
]

nearest-if :
    (b : Bool) (s t : UserStats)
    → (if b then s else t).nearest ≡ (if b then s.nearest else t.nearest)
nearest-if true s t = refl
nearest-if false s t = refl

module _ (H : Hdate) (today : Date) where
  nearest-with_age :
      (e : Event) (g : Option ℤ) (s : UserStats) → (with_age H today e g s).nearest ≡ s.nearest
  nearest-with_age e none s = refl
  nearest-with_age e (some age) s = refl

  nearest-count_occurrence :
      (e : Event) (occ : Date) (s : UserStats)
      → (count_occurrence H today e (some occ) s).nearest ≡ nearer e occ s.nearest
  nearest-count_occurrence e occ s =
      nearest-if (is_before_nearest occ s.nearest) _ (count_dates H today e occ s)

  nearest-count_stats :
      (e : Event) (s : UserStats)
      → (count_stats H today e s).nearest ≡ (count_occurrence H today e e.next_occurrence s).nearest
  unfolding count_stats
  nearest-count_stats e s = nearest-with_age e (age_on H today e e.next_occurrence) _

  count_stats-kept :
      (e : Event) (s : UserStats) (d : Date)
      → IsNearBy d s.nearest
      → IsNearBy d (count_stats H today e s).nearest
  count_stats-kept e s d near = elim (Option-cases e.next_occurrence) [
    | inl gone ↦
        subst (IsNearBy d)
          (sym (nearest-count_stats e s ∙ ap (λ o. (count_occurrence H today e o s).nearest) gone))
          near
    | inr (occ, at) ↦
        subst (IsNearBy d)
          (sym (
            nearest-count_stats e s
            ∙ ap (λ o. (count_occurrence H today e o s).nearest) at
            ∙ nearest-count_occurrence e occ s))
          (nearer-kept e occ d s.nearest at near)
  ]

  count_stats-new :
      (e : Event) (s : UserStats) (occ : Date)
      → e.next_occurrence ≡ some occ
      → IsNearBy occ (count_stats H today e s).nearest
  count_stats-new e s occ at =
      subst (IsNearBy occ)
        (sym (
          nearest-count_stats e s
          ∙ ap (λ o. (count_occurrence H today e o s).nearest) at
          ∙ nearest-count_occurrence e occ s))
        (nearer-new e occ s.nearest at)

  stats_from-kept :
      (events : List Event) (s : UserStats) (d : Date)
      → IsNearBy d s.nearest
      → IsNearBy d (stats_from H today events s).nearest
  unfolding stats_from
  stats_from-kept [] s d near = near
  stats_from-kept (e ∷ events) s d near =
      stats_from-kept events (count_stats H today e s) d (count_stats-kept e s d near)

  abbrev pub IsNearest : Option Event → Event → Type 0
  IsNearest near e = (occ : Date) → e.next_occurrence ≡ some occ → IsNearBy occ near

  stats_from-IsNearest :
      (events : List Event) (s : UserStats)
      → All (IsNearest (stats_from H today events s).nearest) events
  unfolding stats_from
  stats_from-IsNearest [] s = tt
  stats_from-IsNearest (e ∷ events) s = (
    (λ occ at. stats_from-kept events (count_stats H today e s) occ (count_stats-new e s occ at)),
    stats_from-IsNearest events (count_stats H today e s),
  )

module _ (n total : ℕ) (s : UserStats) where
  -- The total, the youngest and the oldest are no part of the numbers.
  extremes-AreCounted :
      (young old : Option EventAge)
      → AreCounted n n s
      → AreCounted n n (record s { total = total; youngest = young; oldest = old })
  extremes-AreCounted young old h = record {
    categories = h.categories;
    types = h.types;
    today_in_week = h.today_in_week;
    week_in_month = h.week_in_month;
    month_is_30_days = h.month_is_30_days;
    month_in_all = h.month_in_all;
    months = h.months;
    buckets = h.buckets;
    with_year = h.with_year;
    muted_in_all = h.muted_in_all;
  }

  with_extremes-AreCounted :
      (ages : List EventAge)
      → AreCounted n n s
      → AreCounted n n (with_extremes ages (record s { total = total }))
  with_extremes-AreCounted [] h = extremes-AreCounted s.youngest s.oldest h
  with_extremes-AreCounted (a ∷ ages) h = extremes-AreCounted _ _ h

  with_extremes-nearest :
      (ages : List EventAge)
      → ((with_extremes ages (record s { total = total })).nearest ≡ s.nearest)
        × ((with_extremes ages (record s { total = total })).total ≡ total)
  with_extremes-nearest [] = (refl, refl)
  with_extremes-nearest (a ∷ ages) = (refl, refl)

-- On any day of the calendar, the statistics of a user count the events of the user outside the trash: their
-- total is the number of these events, the categories and the types each add up to it, those of today are among
-- those of the next week and these among those of the next month, the buckets of ages hold the events with an
-- age, which have a year; and the nearest event is not after any of these events.
pub get_user_stats_lem :
    (H : Hdate) (today : Date) (user : User) (db : Database)
    → 1 ≤ ordinal today
    → let events = list_not_deleted user.id db.events in
      let stats = get_user_stats H today user db in
      (stats.total ≡ length events)
      × (AreCounted (length events) (length events) stats)
      × (All (IsNearest H today stats.nearest) events)
unfolding get_user_stats
get_user_stats_lem H today user db start =
    let events = list_not_deleted user.id db.events in
    let counted = stats_from H today events no_stats in
    let (nearest, total) =
      with_extremes-nearest (length events) (length events) counted counted.ages in
    (
      total,
      with_extremes-AreCounted (length events) (length events) counted counted.ages (
          subst (λ k. AreCounted k k counted) (omega arith)
            (stats_from-AreCounted H today 0 events no_stats start (no_stats-AreCounted H today))),
      subst (λ near. All (IsNearest H today near) events) (sym nearest)
          (stats_from-IsNearest H today events no_stats),
    )
