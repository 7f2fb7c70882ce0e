-- ===== src/Scheduler/Tick.antt =====
-- `TickReminders` (jobs.go).
use birthly_go.Prelude.{◌>>=◌, ℕ, ◌+◌, List, [], ◌∷◌, Option, some, String}
use birthly_go.Core.Civil.{Date}
use birthly_go.Core.Civil.Days.{add_days, sub_days}
use birthly_go.Core.Hebrew.{Hdate}
use birthly_go.Store.Models.{in_seconds, User, Event}
use birthly_go.Store.Logs.{LogTable}
use birthly_go.Store.Database.{
  Database, get_active_events_for_user, list_active_users_with_events, get_rules_for_user,
}
use birthly_go.Scheduler.Clock.{Zone, utc, or_utc}
use birthly_go.Scheduler.Plan.{SendTask, fire_events}
use birthly_go.Scheduler.Advance.{advance_events}
use birthly_go.Scheduler.Send.{Answer, with_logs, send_reminder}
use birthly_go.Scheduler.Recover.{Config, grace_of, recover_pending}

-- The UTC day of an instant.
abbrev pub utc_day : ℕ → Date
utc_day now = utc.local_date now

abbrev pub window_start : ℕ → Date
window_start now = sub_days (utc_day now) 2

abbrev pub window_end : Config → ℕ → Date
window_end cfg now = add_days (utc_day now) (cfg.max_upcoming_days + 2)

module _ (H : Hdate) (load_location : String → Option Zone) (cfg : Config) (now : ℕ) where
  abbrev pub zone_of : User → Zone
  zone_of user = or_utc (load_location user.timezone)

  -- What is queued for a user.
  abbrev pub queue_user : User → List Event → Database → List SendTask → LogTable × List SendTask
  queue_user user events db tasks =
      fire_events (grace_of cfg) now (zone_of user) user (get_rules_for_user user.id db) events
        (db.logs, tasks)

  -- One round of the loop over the users: queue, then move the occurrences on.
  unfoldable pub tick_user : User → Database → List SendTask → Option (Database × List SendTask)
  tick_user user db tasks =
      let events = get_active_events_for_user user.id (window_start now) (window_end cfg now) db in
      let q = queue_user user events db tasks in
      do
        db' ← advance_events H user ((zone_of user).local_date now) now events (with_logs db q.0)
        some (db', q.1)

  unfoldable pub tick_users :
      List User → Database → List SendTask → Option (Database × List SendTask)
  tick_users [] db tasks = some (db, tasks)
  tick_users (user ∷ users) db tasks = tick_user user db tasks >>= λ r. tick_users users r.0 r.1

  -- The sends at the end. A task holds the event as it was when it was queued; the source's pointer sees
  -- the moved occurrence, which a send does not read.
  unfoldable pub send_tasks : (ℕ → ℕ → Answer) → List SendTask → Database → Database
  send_tasks answers [] db = db
  send_tasks answers (task ∷ tasks) db =
      send_tasks answers tasks (send_reminder task.user.id task.log_id (answers task.log_id) db).0

  -- All but the sends: the recovery, and the loop over the users.
  unfoldable pub plan_tick : (ℕ → ℕ → Answer) → Database → Option (Database × List SendTask)
  plan_tick recovery db =
      let recovered = recover_pending cfg now recovery db in
      tick_users (list_active_users_with_events (window_start now) (window_end cfg now) recovered)
        recovered []

  -- A tick at the instant `now`; `recovery` and `answers` are what Telegram answers to the two rounds of
  -- sends, for a log row and an attempt.
  unfoldable pub tick_reminders : (ℕ → ℕ → Answer) → (ℕ → ℕ → Answer) → Database → Option Database
  unfolding plan_tick
  tick_reminders recovery answers db = do
    (planned, tasks) ← plan_tick recovery db
    some (record (send_tasks answers tasks planned) { last_tick_at = some (in_seconds now) })
