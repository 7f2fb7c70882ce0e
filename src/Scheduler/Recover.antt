-- ===== src/Scheduler/Recover.antt =====
-- `RecoverPending` (jobs.go).
use birthly_go.Prelude.{
  ℕ, ◌-◌, ◌*◌, not, ◌||◌, ltb, if◌then◌else◌, List, [], ◌∷◌, Option, none, some,
}
use birthly_go.Store.Models.{User, Event, ReminderRule, NotificationLog}
use birthly_go.Store.Logs.{mark_skipped, get_pending_logs_before}
use birthly_go.Store.Database.{Database, find_event, find_user, find_rule, is_none}
use birthly_go.Scheduler.Clock.{hour_ns}
use birthly_go.Scheduler.Send.{Answer, with_logs, send_reminder}

pub record Config : Type 0 where
  pub reminder_grace_hours : ℕ
  pub max_upcoming_days : ℕ

abbrev pub grace_of : Config → ℕ
grace_of cfg = cfg.reminder_grace_hours * hour_ns

-- Why a pending row is skipped.
pub data SkipReason : Type 0 where
  grace_window user_not_found notifications_disabled user_blocked bot_blocked_by_user : SkipReason
  event_deleted_or_inactive rule_deleted_or_disabled : SkipReason

-- `skipReasonForUser`, whose last case its caller never meets; `none` for a user who may get reminders.
unfoldable pub skip_reason_for_user : Option User → Option SkipReason
skip_reason_for_user none = some user_not_found
skip_reason_for_user (some user) =
    if not user.notifications_enabled
    then some notifications_disabled
    else if user.is_blocked
    then some user_blocked
    else if user.bot_blocked_by_user
    then some bot_blocked_by_user
    else none

unfoldable pub skip_reason_for_event : Option Event → Option SkipReason
skip_reason_for_event none = some event_deleted_or_inactive
skip_reason_for_event (some event) =
    if not event.is_active || not (is_none event.deleted_at)
    then some event_deleted_or_inactive
    else none

unfoldable pub skip_reason_for_rule : Option ReminderRule → Option SkipReason
skip_reason_for_rule none = some rule_deleted_or_disabled
skip_reason_for_rule (some rule) = if not rule.enabled then some rule_deleted_or_disabled else none

abbrev pub first_reason : Option SkipReason → Option SkipReason → Option SkipReason
first_reason (some r) other = some r
first_reason none other = other

abbrev pub rule_of : Option ℕ → ℕ → List ReminderRule → Option ReminderRule
rule_of none user_id rules = none
rule_of (some id) user_id rules = find_rule id user_id rules

-- The tests of the loop, in their order; `none` where the reminder is sent.
unfoldable pub skip_reason : Config → ℕ → NotificationLog → Database → Option SkipReason
unfolding skip_reason_for_user skip_reason_for_event skip_reason_for_rule
skip_reason cfg now log db =
    if ltb (grace_of cfg) (now - log.scheduled_at)
    then some grace_window
    else first_reason (skip_reason_for_user (find_user log.user_id db.users)) (
        first_reason (skip_reason_for_event (find_event log.event_id log.user_id db.events))
          (skip_reason_for_rule (rule_of log.rule_id log.user_id db.rules)))

abbrev pub skip_or_send : Option SkipReason → ℕ → ℕ → (ℕ → Answer) → Database → Database
skip_or_send (some reason) user_id log_id answers db = with_logs db (mark_skipped log_id db.logs)
skip_or_send none user_id log_id answers db = (send_reminder user_id log_id answers db).0

-- One round of the loop. The rows are looked up afresh in each round.
unfoldable pub recover_log : Config → ℕ → (ℕ → Answer) → NotificationLog → Database → Database
recover_log cfg now answers log db =
    skip_or_send (skip_reason cfg now log db) log.user_id log.id answers db

-- The answers are those to the attempts for each row.
unfoldable pub recover_logs :
    Config → ℕ → (ℕ → ℕ → Answer) → List NotificationLog → Database → Database
recover_logs cfg now answers [] db = db
recover_logs cfg now answers (log ∷ logs) db =
    recover_logs cfg now answers logs (recover_log cfg now (answers log.id) log db)

unfoldable pub recover_pending : Config → ℕ → (ℕ → ℕ → Answer) → Database → Database
recover_pending cfg now answers db =
    recover_logs cfg now answers (get_pending_logs_before now db.logs) db
