-- ===== src/Services/Stats.antt =====
-- internal/services/stats_service.go: the statistics of a user, in one pass over the events outside the trash.
-- A map from texts comes with the order of first appearance, which the source keeps beside it. The average of
-- the ages is left out; the list of the ages, a variable of the source, is kept in the statistics.
pub mod Counted
pub mod Nearest
use birthly_go.Prelude.{
  ℕ, ◌+◌, ◌*◌, ◌/◌, Bool, true, false, not, ◌&&◌, ltb, leb, ◌==◌, if◌then◌else◌, List, [], ◌∷◌,
  ◌++◌, Option, none, some, length,
}
use birthly_go.Prelude.Text.{Text, text_eq}
use birthly_go.Prelude.Int.{ℤ, pos, negsuc, sub_ℕ, ltb_ℤ}
use birthly_go.Core.Civil.{Date, before, ordinal}
use birthly_go.Core.Civil.Days.{add_days}
use birthly_go.Core.Hebrew.{Hdate}
use birthly_go.Core.Hebrew.Age.{days_until, age_at}
use birthly_go.Store.Models.{User, Event}
use birthly_go.Store.Database.{Database, is_none}
use birthly_go.Store.Events.{list_not_deleted}

pub record EventAge : Type 0 where
  pub event : Event
  pub age : ℤ

pub record UserStats : Type 0 where
  pub total : ℕ
  pub on_today : ℕ
  pub this_week : ℕ
  pub this_month : ℕ
  pub next_30_days : ℕ
  pub nearest : Option Event
  pub nearest_days_until : Option ℤ
  pub by_category : List (Text × ℕ)
  pub by_type : List (Text × ℕ)
  pub by_month : List (ℕ × ℕ)
  pub youngest : Option EventAge
  pub oldest : Option EventAge
  pub ages : List EventAge
  pub age_buckets : List (ℤ × ℕ)
  pub without_year : ℕ
  pub muted : ℕ

abbrev pub no_stats : UserStats
no_stats = record {
  total = 0;
  on_today = 0;
  this_week = 0;
  this_month = 0;
  next_30_days = 0;
  nearest = none;
  nearest_days_until = none;
  by_category = [];
  by_type = [];
  by_month = [];
  youngest = none;
  oldest = none;
  ages = [];
  age_buckets = [];
  without_year = 0;
  muted = 0;
}

-- `m[key]++`, by a test for equal keys.
unfoldable pub count_key : {K : Type 0} → (K → K → Bool) → K → List (K × ℕ) → List (K × ℕ)
count_key same key [] = (key, 1) ∷ []
count_key same key ((k, n) ∷ m) =
    let rest = count_key same key m in if same k key then (k, n + 1) ∷ m else (k, n) ∷ rest

abbrev pub same_number : ℕ → ℕ → Bool
same_number a b = a == b

abbrev pub same_age : ℤ → ℤ → Bool
same_age (pos a) (pos b) = a == b
same_age (negsuc a) (negsuc b) = a == b
same_age _ _ = false

-- `(age/10)*10`, which rounds towards zero.
abbrev pub decade : ℤ → ℤ
decade (pos n) = pos (n / 10 * 10)
decade (negsuc n) = sub_ℕ 0 ((n + 1) / 10 * 10)

abbrev pub one_if : Bool → ℕ
one_if true = 1
one_if false = 0

-- Not before `today` and not after `k` days from it.
abbrev pub is_in_days : Date → ℕ → Date → Bool
is_in_days today k occ = not (before occ today) && not (before (add_days today k) occ)

-- The nearest event so far has an occurrence, since it was taken by it.
abbrev pub is_before_nearest : Date → Option Event → Bool
is_before_nearest occ none = true
is_before_nearest occ (some e) = is_earlier occ e.next_occurrence
  where
    is_earlier : Date → Option Date → Bool
    is_earlier occ none = true
    is_earlier occ (some d) = before occ d

-- The first of the youngest, and the first of the oldest.
unfoldable pub youngest_from : EventAge → List EventAge → EventAge
youngest_from best [] = best
youngest_from best (a ∷ ages) =
    let next = youngest_from a ages in
    let rest = youngest_from best ages in if ltb_ℤ a.age best.age then next else rest

unfoldable pub oldest_from : EventAge → List EventAge → EventAge
oldest_from best [] = best
oldest_from best (a ∷ ages) =
    let next = oldest_from a ages in
    let rest = oldest_from best ages in if ltb_ℤ best.age a.age then next else rest

abbrev pub with_extremes : List EventAge → UserStats → UserStats
with_extremes [] s = s
with_extremes (a ∷ ages) s = record s {
  youngest = some (youngest_from a (a ∷ ages));
  oldest = some (oldest_from a (a ∷ ages));
}

module _ (H : Hdate) (today : Date) where
  abbrev pub count_nearest : Event → Date → UserStats → UserStats
  count_nearest e occ s =
      if is_before_nearest occ s.nearest
      then record s { nearest = some e; nearest_days_until = some (days_until occ today) }
      else s

  abbrev pub count_dates : Event → Date → UserStats → UserStats
  count_dates e occ s = record s {
    on_today = s.on_today + one_if (ordinal occ == ordinal today);
    this_week = s.this_week + one_if (is_in_days today 7 occ);
    this_month = s.this_month + one_if (is_in_days today 30 occ);
    next_30_days = s.next_30_days + one_if (is_in_days today 30 occ);
    by_month = count_key same_number occ.month s.by_month;
  }

  abbrev pub count_occurrence : Event → Option Date → UserStats → UserStats
  count_occurrence e none s = s
  count_occurrence e (some occ) s = count_nearest e occ (count_dates e occ s)

  abbrev pub count_kind : Event → UserStats → UserStats
  count_kind e s = record s {
    by_category = count_key text_eq e.category s.by_category;
    by_type = count_key text_eq e.event_type s.by_type;
    without_year = s.without_year + one_if (is_none e.year);
    muted = s.muted + one_if (not e.is_active);
  }

  abbrev pub with_age : Event → Option ℤ → UserStats → UserStats
  with_age e none s = s
  with_age e (some age) s = record s {
    ages = s.ages ++ record { event = e; age = age } ∷ [];
    age_buckets = count_key same_age (decade age) s.age_buckets;
  }

  abbrev pub age_on : Event → Option Date → Option ℤ
  age_on e none = none
  age_on e (some occ) = age_at H e.calendar_type e.year occ

  unfoldable pub count_stats : Event → UserStats → UserStats
  count_stats e s =
      with_age e (age_on e e.next_occurrence)
        (count_kind e (count_occurrence e e.next_occurrence s))

  unfoldable pub stats_from : List Event → UserStats → UserStats
  unfolding count_stats
  stats_from [] s = s
  stats_from (e ∷ events) s = stats_from events (count_stats e s)

  unfoldable pub get_user_stats : User → Database → UserStats
  unfolding stats_from list_not_deleted youngest_from oldest_from
  get_user_stats user db =
      let events = list_not_deleted user.id db.events in
      let counted = stats_from events no_stats in
      with_extremes counted.ages (record counted { total = length events })
