-- ===== src/Examples/Ticks.antt =====
-- Two ticks over one user with one event and one rule: the first queues a reminder.
use birthly_go.Prelude.{
  ℕ, ◌≡◌, true, false, none, some, Option, String, [], ◌∷◌, All, if◌then◌else◌, ◌==◌,
}
use birthly_go.Prelude.Text.{codes}
use birthly_go.Core.Civil.{Date, date}
use birthly_go.Store.Models.{User, Event, ReminderRule}
use birthly_go.Store.Logs.{LogTable, pending_row, get_pending_logs_before}
use birthly_go.Store.Database.{Database}
use birthly_go.Scheduler.Clock.{Zone, utc}
use birthly_go.Scheduler.Plan.{fire_events}
use birthly_go.Scheduler.Due.{IsDue, fire_events-IsDue}
use birthly_go.Scheduler.Send.{Answer, delivered, too_many_requests, send_reminder}
use birthly_go.Scheduler.Settle.{Settles, send_reminder-Settles, recover_pending-settles}
use birthly_go.Scheduler.Recover.{Config, grace_of, recover_pending}
use birthly_go.Prelude.{List, refl, map, ◌≢◌}
use birthly_go.Store.LogLaws.{key}
use birthly_go.Scheduler.Queue.{Queues, task_key}
use birthly_go.Scheduler.Once.{plan_tick-Queues, plan_tick_once}
use birthly_go.Examples.Calendar.{shifted}
use birthly_go.Core.Civil.{
  carry_days, time_date, ordinal, days_before_year, days_before_month, days_in_month, is_leap,
}
use birthly_go.Core.Civil.Days.{sub_days, add_days, date_of_ordinal}
use birthly_go.Store.Database.{
  list_active_users_with_events, get_active_events_for_user, get_rules_for_user, is_upcoming,
  wants_reminders, find_event, find_rule, find_user, update_events,
}
use birthly_go.Store.Logs.{
  is_due, mark_sent, mark_failed, mark_skipped, update_rows, create_pending, has_key,
}
use birthly_go.Scheduler.Recover.{
  recover_logs, recover_log, skip_reason, skip_reason_for_user, skip_reason_for_event,
  skip_reason_for_rule,
}
use birthly_go.Scheduler.Send.{send_attempts, after_answer}
use birthly_go.Scheduler.Plan.{
  SendTask, or_else, fire_tracks, fire_rules, fire_rule, fire_time, fire_by_days, skip_rule,
  queue_rule,
}
use birthly_go.Scheduler.Clock.{parse_hhmm, cut_colon}
use birthly_go.Prelude.Decimal.{atoi, digits_from}
use birthly_go.Scheduler.Tracks.{event_tracks, applicable_rules}
use birthly_go.Scheduler.Advance.{advance_events, advance_event, advance_primary, advance_secondary}
use birthly_go.Scheduler.Tick.{plan_tick, tick_users, tick_user}

abbrev pub user : User
user = record {
  id = 7;
  username = none;
  first_name = codes "Dana";
  last_name = none;
  language = "he";
  timezone = "UTC";
  date_format = "DD/MM/YYYY";
  time_format = "24h";
  default_notify_time = codes "09:00";
  notifications_enabled = true;
  silent_notifications = false;
  show_hebrew_date = true;
  daily_digest_enabled = false;
  digest_time = codes "08:00";
  list_sort = "upcoming";
  list_filter = none;
  adar_policy = "adar_ii";
  feb29_policy = "feb28";
  is_admin = false;
  is_blocked = false;
  bot_blocked_by_user = false;
  onboarded = true;
  created_at = 0;
  updated_at = 0;
  last_seen_at = 0;
}

-- On the hundredth day of the calendar, which keeps the numbers small.
abbrev day : Date
day = date 1 4 10

abbrev pub event : Event
event = record {
  id = 3;
  user_id = 7;
  event_type = codes "birthday";
  custom_type_label = none;
  first_name = codes "Noa";
  last_name = none;
  nickname = none;
  gender = none;
  relation = none;
  category = codes "family";
  calendar_type = "gregorian";
  year = none;
  month = 4;
  day = 10;
  event_time = none;
  phone = none;
  telegram_username = none;
  photo_file_id = none;
  notes = none;
  next_occurrence = some day;
  secondary_calendar_type = none;
  secondary_month = none;
  secondary_day = none;
  secondary_next_occurrence = none;
  is_active = true;
  deleted_at = none;
  created_at = 0;
  updated_at = 0;
}

abbrev rule : ReminderRule
rule = record {
  id = 5;
  user_id = 7;
  event_id = none;
  offset_days = some 0;
  offset_minutes = none;
  send_time = none;
  enabled = true;
  created_at = 0;
}

abbrev log : LogTable
log = record { rows = pending_row 1 7 3 (some 5) (date 1 4 9) 100 ∷ []; next_id = 2 }

abbrev pub db : Database
db = record {
  users = user ∷ [];
  events = event ∷ [];
  rules = rule ∷ [];
  logs = log;
  last_tick_at = none;
  next_event_id = 4;
}

abbrev cfg : Config
cfg = record { reminder_grace_hours = 6; max_upcoming_days = 30 }

-- Five minutes past nine, and a minute later.
abbrev now : ℕ
now = 8_672_700_000_000_000

abbrev later : ℕ
later = 8_672_760_000_000_000

abbrev no_zones : String → Option Zone
no_zones name = none

abbrev answers : ℕ → ℕ → Answer
answers id attempt = if attempt == 0 then too_many_requests else delivered 8_672_701_000_000_000

fire_events-IsDue_example :
    All
      (λ task. IsDue (grace_of cfg) now utc user task)
      (fire_events (grace_of cfg) now utc user (rule ∷ []) (event ∷ []) (log, [])).1
fire_events-IsDue_example =
    fire_events-IsDue (grace_of cfg) now utc user (rule ∷ []) (event ∷ []) log

send_reminder-Settles_example : Settles now 1 log (send_reminder 7 1 (answers 1) db).0.logs
send_reminder-Settles_example = send_reminder-Settles now 7 1 (answers 1) db

recover_pending-settles_example :
    get_pending_logs_before now (recover_pending cfg now answers db).logs ≡ []
recover_pending-settles_example = recover_pending-settles cfg now answers db

abbrev first : Database × List SendTask
first = or_else (plan_tick shifted no_zones cfg now answers db) (db, [])

first_planned : plan_tick shifted no_zones cfg now answers db ≡ some (first.0, first.1)
unfolding plan_tick tick_users tick_user list_active_users_with_events get_active_events_for_user
    get_rules_for_user is_upcoming wants_reminders recover_pending recover_logs recover_log
    skip_reason skip_reason_for_user skip_reason_for_event skip_reason_for_rule find_event find_rule
    find_user get_pending_logs_before is_due send_reminder send_attempts after_answer mark_sent
    mark_failed mark_skipped update_rows fire_events fire_tracks fire_rules fire_rule fire_time
    fire_by_days parse_hhmm cut_colon atoi digits_from event_tracks applicable_rules skip_rule
    queue_rule create_pending has_key advance_events advance_event advance_primary advance_secondary
    update_events sub_days add_days date_of_ordinal ordinal days_before_year days_before_month
    days_in_month is_leap carry_days time_date
first_planned = refl

-- The reminder of the event is queued, and only that one.
first_keys : map task_key first.1 ≡ key 3 5 day ∷ []
unfolding plan_tick tick_users tick_user list_active_users_with_events get_active_events_for_user
    get_rules_for_user is_upcoming wants_reminders recover_pending recover_logs recover_log
    skip_reason skip_reason_for_user skip_reason_for_event skip_reason_for_rule find_event find_rule
    find_user get_pending_logs_before is_due send_reminder send_attempts after_answer mark_sent
    mark_failed mark_skipped update_rows fire_events fire_tracks fire_rules fire_rule fire_time
    fire_by_days parse_hhmm cut_colon atoi digits_from event_tracks applicable_rules skip_rule
    queue_rule create_pending has_key advance_events advance_event advance_primary advance_secondary
    update_events sub_days add_days date_of_ordinal ordinal days_before_year days_before_month
    days_in_month is_leap carry_days time_date
first_keys = refl

abbrev second : Database × List SendTask
second = or_else (plan_tick shifted no_zones cfg later answers first.0) (db, [])

second_planned : plan_tick shifted no_zones cfg later answers first.0 ≡ some (second.0, second.1)
unfolding plan_tick tick_users tick_user list_active_users_with_events get_active_events_for_user
    get_rules_for_user is_upcoming wants_reminders recover_pending recover_logs recover_log
    skip_reason skip_reason_for_user skip_reason_for_event skip_reason_for_rule find_event find_rule
    find_user get_pending_logs_before is_due send_reminder send_attempts after_answer mark_sent
    mark_failed mark_skipped update_rows fire_events fire_tracks fire_rules fire_rule fire_time
    fire_by_days parse_hhmm cut_colon atoi digits_from event_tracks applicable_rules skip_rule
    queue_rule create_pending has_key advance_events advance_event advance_primary advance_secondary
    update_events sub_days add_days date_of_ordinal ordinal days_before_year days_before_month
    days_in_month is_leap carry_days time_date
second_planned = refl

plan_tick-Queues_example : Queues log first.0.logs (map task_key first.1)
plan_tick-Queues_example =
    plan_tick-Queues shifted no_zones cfg now answers db first.0 first.1 first_planned

plan_tick_once_example : All (λ k. All (λ j. k ≢ j) (map task_key second.1)) (map task_key first.1)
plan_tick_once_example =
    plan_tick_once shifted no_zones cfg now later answers answers db first.0 first.0 second.0
      first.1 second.1 first_planned (λ k h. h) second_planned
