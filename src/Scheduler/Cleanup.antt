-- ===== src/Scheduler/Cleanup.antt =====
-- `PurgeSoftDeleted` and `CleanupLogs` of internal/scheduler/jobs.go, with `PurgeDeletedBefore` of
-- internal/store/repo/events.go and the ON DELETE rules of migrations/00001_baseline.sql. The audit
-- log and the counts that are logged are left out.
pub mod Links
use birthly_go.Prelude.{
  ℕ, ◌-◌, ◌*◌, Bool, true, false, not, ◌&&◌, ltb, ◌==◌, if◌then◌else◌, List, [], ◌∷◌, Option, none,
  some, filterb, any, map,
}
use birthly_go.Scheduler.Clock.{day_ns}
use birthly_go.Scheduler.Recompute.{list_all_users}
use birthly_go.Store.Models.{in_seconds, User, Event, ReminderRule, NotificationLog}
use birthly_go.Store.Database.{Database}
use birthly_go.Store.Logs.{delete_old_logs}

abbrev pub soft_delete_retention_days : ℕ
soft_delete_retention_days = 30

abbrev pub log_retention_days : ℕ
log_retention_days = 180

abbrev pub trashed_before : ℕ → Option ℕ → Bool
trashed_before cutoff none = false
trashed_before cutoff (some at) = ltb at cutoff

-- What `DELETE FROM events` takes.
unfoldable pub is_purged : ℕ → ℕ → Event → Bool
is_purged user_id cutoff e = e.user_id == user_id && trashed_before cutoff e.deleted_at

module _ (purged : Event → Bool) (db : Database) where
  -- The number of an event that goes.
  unfoldable pub is_gone : ℕ → Bool
  is_gone id = any (λ (e : Event). e.id == id && purged e) db.events

  -- ON DELETE CASCADE of a rule, which may have no event.
  abbrev pub goes_with : Option ℕ → Bool
  goes_with none = false
  goes_with (some event_id) = is_gone event_id

  unfoldable pub is_lost : ℕ → Bool
  unfolding is_gone
  is_lost id = any (λ (r : ReminderRule). r.id == id && goes_with r.event_id) db.rules

  -- ON DELETE SET NULL of the rule of a row of the log.
  abbrev pub rule_left : Option ℕ → Option ℕ
  rule_left none = none
  rule_left (some rule_id) = if is_lost rule_id then none else some rule_id

  abbrev pub unlinked : NotificationLog → NotificationLog
  unlinked row = record row { rule_id = rule_left row.rule_id }

  -- The rows of the log: those of an event that goes go with it.
  unfoldable pub logs_left : List NotificationLog → List NotificationLog
  unfolding is_gone is_lost
  logs_left [] = []
  logs_left (row ∷ rows) =
      let rest = logs_left rows in if is_gone row.event_id then rest else unlinked row ∷ rest

  unfoldable pub delete_events : Database
  unfolding is_gone is_lost logs_left
  delete_events = record db {
    events = filterb (λ e. not (purged e)) db.events;
    rules = filterb (λ r. not (goes_with r.event_id)) db.rules;
    logs = record db.logs { rows = logs_left db.logs.rows };
  }

unfoldable pub purge_deleted_before : ℕ → ℕ → Database → Database
unfolding delete_events is_purged
purge_deleted_before user_id cutoff db = delete_events (is_purged user_id (in_seconds cutoff)) db

unfoldable pub purge_users : List User → ℕ → Database → Database
unfolding purge_deleted_before
purge_users [] cutoff db = db
purge_users (u ∷ users) cutoff db = purge_users users cutoff (purge_deleted_before u.id cutoff db)

unfoldable pub purge_soft_deleted : ℕ → Database → Database
unfolding purge_users
purge_soft_deleted now db =
    purge_users (list_all_users db) (now - soft_delete_retention_days * day_ns) db

unfoldable pub cleanup_logs : ℕ → Database → Database
unfolding delete_old_logs
cleanup_logs now db = record db {
  logs = delete_old_logs (now - log_retention_days * day_ns) db.logs;
}
