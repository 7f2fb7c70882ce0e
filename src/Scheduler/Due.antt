-- ===== src/Scheduler/Due.antt =====
-- Every reminder that `TickReminders` queues is due, and at the time its rule gives.
use birthly_go.Prelude.{
  ℕ, ◌-◌, ◌+◌, ◌≤◌, ◌/◌, ◌≡◌, refl, ltb, ◌==◌, List, [], ◌∷◌, Option, none, some, String, any, All,
  Bool-cases, inl, inr, arith,
}
use birthly_go.Core.Civil.{Date}
use birthly_go.Store.Models.{User, Event, ReminderRule, NotificationLog}
use birthly_go.Store.Logs.{LogTable}
use birthly_go.Scheduler.Clock.{Zone, minute_ns}
use birthly_go.Scheduler.Tracks.{OccurrenceTrack, event_tracks, applicable_rules}
use birthly_go.Scheduler.Plan.{
  SendTask, Progress, fire_time, task_if_new, task_for, skip_rule, queue_rule, fire_rule,
  fire_rules, fire_track, fire_tracks, fire_events,
}
use birthly_go.Scheduler.Queue.{All-append}

-- The task goes to the user, its time is the one its rule gives for the occurrence, and that time is not
-- in the future nor further back than the grace period.
pub record IsDue (grace now : ℕ) (zone : Zone) (user : User) (task : SendTask) : Type 0 where
  pub fires : fire_time zone user task.event task.rule task.occurrence ≡ some task.scheduled_at
  pub has_come : task.scheduled_at ≤ now
  pub in_grace : now ≤ task.scheduled_at + grace
  pub to_user : task.user ≡ user

module _ (grace now : ℕ) (zone : Zone) (user : User) where
  queue_row-IsDue :
      (row : Option NotificationLog) (task : ℕ → SendTask)
      → ((id : ℕ) → IsDue grace now zone user (task id))
      → All (λ t. IsDue grace now zone user t) (task_if_new row task)
  queue_row-IsDue none task due = tt
  queue_row-IsDue (some row) task due = (due row.id, tt)

  fire_rule-IsDue :
      (event : Event) (calendar_type : String) (occ : Date) (rule : ReminderRule) (fire : Option ℕ)
      (p : Progress)
      → fire_time zone user event rule occ ≡ fire
      → All (λ t. IsDue grace now zone user t) p.tasks
      → All
          (λ t. IsDue grace now zone user t)
          (fire_rule grace now zone user event calendar_type occ rule fire p).tasks
  unfolding fire_rule skip_rule queue_rule
  fire_rule-IsDue event calendar_type occ rule none p at h = h
  fire_rule-IsDue event calendar_type occ rule (some fire) p at h =
      elim (Bool-cases (ltb now fire)) [
        | inl early ↦ rw early h
        | inr due ↦ rw due (elim (Bool-cases (ltb grace (now - fire))) [
          | inl late ↦ rw late h
          | inr timely ↦
              rw timely (elim (Bool-cases (any (λ minute. minute == fire / minute_ns) p.seen)) [
                | inl seen ↦ rw seen h
                | inr fresh ↦ rw fresh (
                    All-append (λ t. IsDue grace now zone user t) p.tasks _ h
                      (queue_row-IsDue _ (task_for user event calendar_type occ rule fire) (λ id.
                        record {
                          fires = at;
                          has_come = ground arith;
                          in_grace = ground arith;
                          to_user = refl;
                        })))
              ])
        ])
      ]

  fire_rules-IsDue :
      (event : Event) (calendar_type : String) (occ : Date) (rules : List ReminderRule)
      (p : Progress)
      → All (λ t. IsDue grace now zone user t) p.tasks
      → All
          (λ t. IsDue grace now zone user t)
          (fire_rules grace now zone user event calendar_type occ rules p).tasks
  unfolding fire_rules
  fire_rules-IsDue event calendar_type occ [] p h = h
  fire_rules-IsDue event calendar_type occ (rule ∷ rules) p h =
      let fire = fire_time zone user event rule occ in
      fire_rules-IsDue event calendar_type occ rules
        (fire_rule grace now zone user event calendar_type occ rule fire p)
        (fire_rule-IsDue event calendar_type occ rule fire p refl h)

  fire_track-IsDue :
      (event : Event) (rules : List ReminderRule) (calendar_type : String) (occ : Option Date)
      (t : LogTable) (tasks : List SendTask)
      → All (λ t. IsDue grace now zone user t) tasks
      → All
          (λ t. IsDue grace now zone user t)
          (fire_track grace now zone user event rules calendar_type occ (t, tasks)).1
  fire_track-IsDue event rules calendar_type none t tasks h = h
  fire_track-IsDue event rules calendar_type (some occ) t tasks h =
      fire_rules-IsDue event calendar_type occ rules (record { logs = t; seen = []; tasks = tasks })
        h

  fire_tracks-IsDue :
      (event : Event) (rules : List ReminderRule) (tracks : List OccurrenceTrack) (t : LogTable)
      (tasks : List SendTask)
      → All (λ t. IsDue grace now zone user t) tasks
      → All
          (λ t. IsDue grace now zone user t)
          (fire_tracks grace now zone user event rules tracks (t, tasks)).1
  unfolding fire_tracks
  fire_tracks-IsDue event rules [] t tasks h = h
  fire_tracks-IsDue event rules (track ∷ tracks) t tasks h =
      let q =
        fire_track grace now zone user event rules track.calendar_type track.occurrence
          (t, tasks) in
      fire_tracks-IsDue event rules tracks q.0 q.1
        (fire_track-IsDue event rules track.calendar_type track.occurrence t tasks h)

  fire_events_from-IsDue :
      (rules : List ReminderRule) (events : List Event) (t : LogTable) (tasks : List SendTask)
      → All (λ t. IsDue grace now zone user t) tasks
      → All
          (λ t. IsDue grace now zone user t)
          (fire_events grace now zone user rules events (t, tasks)).1
  unfolding fire_events
  fire_events_from-IsDue rules [] t tasks h = h
  fire_events_from-IsDue rules (event ∷ events) t tasks h =
      let q =
        fire_tracks grace now zone user event (applicable_rules rules event) (event_tracks event)
          (t, tasks) in
      fire_events_from-IsDue rules events q.0 q.1
        (fire_tracks-IsDue event (applicable_rules rules event) (event_tracks event) t tasks h)

-- What the loops queue for a user from an empty list of tasks is due: the task is for the user, its time
-- is the fire time of its rule for its occurrence, it has come, and not longer ago than the grace period.
pub fire_events-IsDue :
    (grace now : ℕ) (zone : Zone) (user : User) (rules : List ReminderRule) (events : List Event)
    (t : LogTable)
    → All
        (λ task. IsDue grace now zone user task)
        (fire_events grace now zone user rules events (t, [])).1
fire_events-IsDue grace now zone user rules events t =
    fire_events_from-IsDue grace now zone user rules events t [] tt
