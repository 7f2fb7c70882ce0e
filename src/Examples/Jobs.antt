-- ===== src/Examples/Jobs.antt =====
-- The calls of the event service and the clean-up job, on the database of one user; and a job that two calls
-- want to run.
use birthly_go.Prelude.{ℕ, ◌*◌, ◌≤◌, ◌≡◌, refl, arith, true, some, filterb}
use birthly_go.Core.Civil.{date}
use birthly_go.Store.Database.{Database, find_event}
use birthly_go.Store.Events.{mark_deleted}
use birthly_go.Store.EventLaws.{IsTable}
use birthly_go.Services.Events.{delete_event, get_owned_event}
use birthly_go.Services.Events.Calls.{delete, perform}
use birthly_go.Services.Events.Owner.{Keeps, perform-Keeps}
use birthly_go.Services.Events.Counts.{IsCounted, perform-IsCounted}
use birthly_go.Scheduler.Clock.{day_ns}
use birthly_go.Scheduler.Cleanup.{purge_soft_deleted}
use birthly_go.Store.Links.{IsLinked}
use birthly_go.Scheduler.Cleanup.Links.{purge_soft_deleted-events, outlasts}
use birthly_go.Scheduler.Guard.{job, at_start, then_step, goes_in, is_skipped, Reached-once}
use birthly_go.Examples.Calendar.{shifted}
use birthly_go.Examples.Ticks.{user, db}

db-IsTable : IsTable db
db-IsTable = record { unique = (refl, tt); below = (omega arith, tt) }

perform-Keeps_example : Keeps 7 db (perform shifted user (date 1 4 10) (delete 3 50) db)
perform-Keeps_example = perform-Keeps shifted user (date 1 4 10) (delete 3 50) db

deleted : (perform shifted user (date 1 4 10) (delete 3 50) db).0 ≡ true
unfolding perform delete_event get_owned_event find_event
deleted = refl

perform-IsCounted_example :
    IsCounted 7 (delete 3 50) db (perform shifted user (date 1 4 10) (delete 3 50) db).1
perform-IsCounted_example =
    perform-IsCounted shifted user (date 1 4 10) (delete 3 50) db db-IsTable deleted

db-IsLinked : IsLinked db
db-IsLinked = record { rules_linked = (tt, tt); logs_linked = ((refl, refl), tt) }

-- Forty days after the event went to the trash.
abbrev later : ℕ
later = 40 * day_ns

abbrev trashed : Database
trashed = record db { events = mark_deleted 3 7 (some 50) db.events }

trashed-IsLinked : IsLinked trashed
unfolding mark_deleted
trashed-IsLinked = record { rules_linked = (tt, tt); logs_linked = ((refl, refl), tt) }

purge_soft_deleted-events_example :
    ((purge_soft_deleted later trashed).events
      ≡ filterb (outlasts trashed.users later) trashed.events)
    × ((purge_soft_deleted later trashed).users ≡ trashed.users)
purge_soft_deleted-events_example = purge_soft_deleted-events later trashed

Reached-once_example : (◌≤◌ 1 1) × (◌≡◌ {A = ℕ} 1 1)
Reached-once_example =
    Reached-once (job true 1) (then_step (then_step at_start (goes_in 0)) (is_skipped 1))
