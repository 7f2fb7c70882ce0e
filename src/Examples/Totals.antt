-- ===== src/Examples/Totals.antt =====
-- The statistics of a user with one event.
use birthly_go.Prelude.{◌≡◌, ◌≤◌, refl, some, All, length, arith}
use birthly_go.Core.Civil.{
  date, ordinal, days_before_year, days_before_month, days_in_month, is_leap,
}
use birthly_go.Core.Hebrew.Age.{age_at}
use birthly_go.Store.Events.{list_not_deleted}
use birthly_go.Services.Stats.{UserStats, get_user_stats, stats_from, count_stats}
use birthly_go.Services.Stats.Counted.{AreCounted}
use birthly_go.Services.Stats.Nearest.{IsNearest, get_user_stats_lem}
use birthly_go.Examples.Calendar.{shifted}
use birthly_go.Examples.Ticks.{user, event, db}

abbrev stats : UserStats
stats = get_user_stats shifted (date 1 4 10) user db

-- The event is counted, and is the nearest.
one_event : (stats.total ≡ 1) × (stats.nearest ≡ some event)
unfolding get_user_stats stats_from count_stats list_not_deleted age_at
one_event = (refl, refl)

start : 1 ≤ ordinal (date 1 4 10)
unfolding ordinal days_before_year days_before_month days_in_month is_leap
start = omega arith

get_user_stats_example :
    let events = list_not_deleted user.id db.events in
    (stats.total ≡ length events)
    × (AreCounted (length events) (length events) stats)
    × (All (IsNearest shifted (date 1 4 10) stats.nearest) events)
get_user_stats_example = get_user_stats_lem shifted (date 1 4 10) user db start
