-- ===== src/Scheduler/Plan.antt =====
-- What a tick queues: the loops of `TickReminders` over the tracks and the rules of an event.
use birthly_go.Prelude.{
  ℕ, ◌-◌, ◌*◌, ◌/◌, ltb, ◌==◌, if◌then◌else◌, List, [], ◌∷◌, ◌++◌, Option, none, some, String, any,
}
use birthly_go.Prelude.Text.{Text}
use birthly_go.Core.Civil.{Date}
use birthly_go.Core.Civil.Days.{sub_days}
use birthly_go.Store.Models.{User, Event, ReminderRule, NotificationLog}
use birthly_go.Store.Logs.{LogTable, create_pending, mark_skipped}
use birthly_go.Scheduler.Clock.{Zone, minute_ns, parse_hhmm}
use birthly_go.Scheduler.Tracks.{OccurrenceTrack, event_tracks, applicable_rules}

pub record SendTask : Type 0 where
  pub user : User
  pub event : Event
  pub rule : ReminderRule
  pub log_id : ℕ
  pub occurrence : Date
  pub track_calendar_type : String
  pub scheduled_at : ℕ

abbrev pub or_else {ℓ} : {A : Type ℓ} → Option A → A → A
or_else none d = d
or_else (some a) d = a

-- The fire time of a rule that counts in days: the send time, on the day so many days before.
unfoldable pub fire_by_days : Zone → User → ReminderRule → Date → ℕ → Option ℕ
fire_by_days zone user rule occ days =
    elim (parse_hhmm (or_else rule.send_time user.default_notify_time)) [
      | none ↦ none
      | some (h, m) ↦ some (zone.instant (sub_days occ days) h m)
    ]

abbrev pub given_text : Option Text → Text
given_text none = []
given_text (some s) = s

-- The fire time of a rule that counts in minutes before the time of the event. An empty time does not
-- parse, so the source's test of it needs no case here.
unfoldable pub fire_by_minutes : Zone → Event → Date → ℕ → Option ℕ
fire_by_minutes zone event occ minutes = elim (parse_hhmm (given_text event.event_time)) [
  | none ↦ none
  | some (h, m) ↦ some (zone.instant occ h m - minutes * minute_ns)
]

abbrev pub fire_by_offset :
    Zone → User → Event → ReminderRule → Date → Option ℕ → Option ℕ → Option ℕ
fire_by_offset zone user event rule occ (some days) minutes = fire_by_days zone user rule occ days
fire_by_offset zone user event rule occ none (some minutes) = fire_by_minutes zone event occ minutes
fire_by_offset zone user event rule occ none none = none

-- `fireUTC`; `none` where the source goes on to the next rule.
unfoldable pub fire_time : Zone → User → Event → ReminderRule → Date → Option ℕ
fire_time zone user event rule occ =
    fire_by_offset zone user event rule occ rule.offset_days rule.offset_minutes

-- What the loop over the rules changes: the log, the minutes already fired in this track, and the
-- tasks. A `fireKey` is a minute here, since its event and its track are those of the loop.
pub record Progress : Type 0 where
  pub logs : LogTable
  pub seen : List ℕ
  pub tasks : List SendTask

abbrev pub skip_if_new : Option NotificationLog → LogTable → LogTable
skip_if_new none t = t
skip_if_new (some row) t = mark_skipped row.id t

abbrev pub task_if_new : Option NotificationLog → (ℕ → SendTask) → List SendTask
task_if_new none task = []
task_if_new (some row) task = task row.id ∷ []

module _ (user : User) (event : Event) (calendar_type : String) (occ : Date) where
  abbrev pub task_for : ReminderRule → ℕ → ℕ → SendTask
  task_for rule fire log_id = record {
    user = user;
    event = event;
    rule = rule;
    log_id = log_id;
    occurrence = occ;
    track_calendar_type = calendar_type;
    scheduled_at = fire;
  }

  -- The row for a rule, created or refused.
  abbrev pub create_for : ReminderRule → ℕ → LogTable → LogTable × Option NotificationLog
  create_for rule fire t = create_pending user.id event.id (some rule.id) occ fire t

  -- The grace period is over: the row is created and marked as skipped.
  unfoldable pub skip_rule : ReminderRule → ℕ → Progress → Progress
  skip_rule rule fire p =
      let (t, row) = create_for rule fire p.logs in record p { logs = skip_if_new row t }

  -- The first rule of its minute gets a row, and a task if the row is new.
  unfoldable pub queue_rule : ReminderRule → ℕ → Progress → Progress
  queue_rule rule fire p =
      let (t, row) = create_for rule fire p.logs in
      record {
        logs = t;
        seen = (fire / minute_ns) ∷ p.seen;
        tasks = p.tasks ++ task_if_new row (task_for rule fire);
      }

module _ (grace now : ℕ) (zone : Zone) (user : User) (event : Event) (calendar_type : String)
    (occ : Date) where
  unfoldable pub fire_rule : ReminderRule → Option ℕ → Progress → Progress
  fire_rule rule none p = p
  fire_rule rule (some fire) p =
      if ltb now fire
      then p
      else if ltb grace (now - fire)
      then skip_rule user event calendar_type occ rule fire p
      else if any (λ minute. minute == fire / minute_ns) p.seen
      then p
      else queue_rule user event calendar_type occ rule fire p

  -- The loop over the rules.
  unfoldable pub fire_rules : List ReminderRule → Progress → Progress
  fire_rules [] p = p
  fire_rules (rule ∷ rules) p =
      fire_rules rules (fire_rule rule (fire_time zone user event rule occ) p)

module _ (grace now : ℕ) (zone : Zone) (user : User) where
  -- One track: nothing without an occurrence, and no minute seen at first.
  abbrev pub fire_track :
      Event
      → List ReminderRule
      → String
      → Option Date
      → LogTable × List SendTask
      → LogTable × List SendTask
  fire_track event rules calendar_type none (t, tasks) = (t, tasks)
  fire_track event rules calendar_type (some occ) (t, tasks) =
      let p =
        fire_rules grace now zone user event calendar_type occ rules
          (record { logs = t; seen = []; tasks = tasks }) in
      (p.logs, p.tasks)

  unfoldable pub fire_tracks :
      Event
      → List ReminderRule
      → List OccurrenceTrack
      → LogTable × List SendTask
      → LogTable × List SendTask
  fire_tracks event rules [] q = q
  fire_tracks event rules (track ∷ tracks) q =
      fire_tracks event rules tracks (fire_track event rules track.calendar_type track.occurrence q)

  unfoldable pub fire_events :
      List ReminderRule → List Event → LogTable × List SendTask → LogTable × List SendTask
  fire_events rules [] q = q
  fire_events rules (event ∷ events) q =
      fire_events rules events
        (fire_tracks event (applicable_rules rules event) (event_tracks event) q)
