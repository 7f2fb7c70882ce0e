-- ===== src/Scheduler/Queue.antt =====
-- What the loops queue: each task is due, and no key is queued that was logged before or twice.
use birthly_go.Prelude.{
  ℕ, ◌-◌, ◌/◌, ◌≡◌, ◌≢◌, refl, true, false, ltb, ◌==◌, List, [], ◌∷◌, ◌++◌, Option, none, some,
  String, any, All, Bool-cases, inl, inr, ap, ◌∙◌, append-nil, append_assoc, map, map-append,
}
use birthly_go.Core.Civil.{Date}
use birthly_go.Store.Models.{User, Event, ReminderRule, NotificationLog}
use birthly_go.Store.Logs.{LogTable}
use birthly_go.Store.LogLaws.{
  Key, key, logged, Creates, create_pending-Creates, logged-mark_skipped,
}
use birthly_go.Scheduler.Clock.{Zone, minute_ns}
use birthly_go.Scheduler.Tracks.{OccurrenceTrack, event_tracks, applicable_rules}
use birthly_go.Scheduler.Plan.{
  SendTask, Progress, fire_time, skip_if_new, task_if_new, task_for, create_for, skip_rule,
  queue_rule, fire_rule, fire_rules, fire_track, fire_tracks, fire_events,
}

abbrev pub task_key : SendTask → Key
task_key task = key task.event.id task.rule.id task.occurrence

-- No key occurs twice.
abbrev pub Distinct : List Key → Type 0
Distinct [] = Unit
Distinct (k ∷ ks) = All (λ j. k ≢ j) ks × Distinct ks

-- From the log `t` to the log `t'` just the keys `ks` were queued: nothing that was logged is lost, they
-- were not logged before and are now, and none is queued twice.
pub record Queues (t t' : LogTable) (ks : List Key) : Type 0 where
  pub kept : (k : Key) → logged k t ≡ true → logged k t' ≡ true
  pub were_new : All (λ k. logged k t ≡ false) ks
  pub now_logged : All (λ k. logged k t' ≡ true) ks
  pub distinct : Distinct ks

Queues-refl : (t : LogTable) → Queues t t []
Queues-refl t = record { kept = λ k h. h; were_new = tt; now_logged = tt; distinct = tt }

pub All-append {ℓ} :
    {A : Type ℓ} (P : A → Type 0) (xs ys : List A) → All P xs → All P ys → All P (xs ++ ys)
All-append P [] ys hx hy = hy
All-append P (x ∷ xs) ys hx hy = (hx.0, All-append P xs ys hx.1 hy)

pub All-map {ℓ} :
    {A : Type ℓ} (P Q : A → Type 0) (f : (a : A) → P a → Q a) (xs : List A) → All P xs → All Q xs
All-map P Q f [] h = tt
All-map P Q f (x ∷ xs) h = (f x h.0, All-map P Q f xs h.1)

pub clash : (t : LogTable) (x j : Key) → logged x t ≡ true → logged j t ≡ false → ¬ (x ≡ j)
clash t x j h h' e = cc (ap (λ k. logged k t) e)

Distinct-append :
    (t : LogTable) (xs ys : List Key)
    → Distinct xs
    → Distinct ys
    → All (λ k. logged k t ≡ true) xs
    → All (λ k. logged k t ≡ false) ys
    → Distinct (xs ++ ys)
Distinct-append t [] ys dx dy lx ly = dy
Distinct-append t (x ∷ xs) ys dx dy lx ly = (
  All-append (λ j. x ≢ j) xs ys dx.0
      (All-map (λ k. logged k t ≡ false) (λ j. x ≢ j) (λ j h e. clash t x j lx.0 h e) ys ly),
  Distinct-append t xs ys dx.1 dy lx.1 ly,
)

unlogged :
    (t t' : LogTable) (k : Key)
    → (logged k t ≡ true → logged k t' ≡ true)
    → logged k t' ≡ false
    → logged k t ≡ false
unlogged t t' k keep h = elim (Bool-cases (logged k t)) [ inl old ↦ cc (keep old) | inr new ↦ new ]

Queues-trans :
    (t t' t'' : LogTable) (xs ys : List Key)
    → Queues t t' xs
    → Queues t' t'' ys
    → Queues t t'' (xs ++ ys)
Queues-trans t t' t'' xs ys p q = record {
  kept = λ k h. q.kept k (p.kept k h);
  were_new =
      All-append (λ k. logged k t ≡ false) xs ys p.were_new
        (All-map (λ k. logged k t' ≡ false) (λ k. logged k t ≡ false)
          (λ k h. unlogged t t' k (p.kept k) h) ys q.were_new);
  now_logged =
      All-append (λ k. logged k t'' ≡ true) xs ys
        (All-map (λ k. logged k t' ≡ true) (λ k. logged k t'' ≡ true) (λ k h. q.kept k h) xs
          p.now_logged)
        q.now_logged;
  distinct = Distinct-append t' xs ys p.distinct q.distinct p.now_logged q.were_new;
}

-- A part of a tick that goes from the log and the tasks on the left to those on the right.
pub record Adds (t : LogTable) (tasks : List SendTask) (t' : LogTable) (tasks' : List SendTask)
    : Type 0 where
  pub added : List SendTask
  pub tasks_are : tasks' ≡ tasks ++ added
  pub queues : Queues t t' (map task_key added)

pub Adds-refl : (t : LogTable) (tasks : List SendTask) → Adds t tasks t tasks
Adds-refl t tasks = record { added = []; tasks_are = rw append-nil; queues = Queues-refl t }

pub Adds-trans :
    (t t' t'' : LogTable) (a b c : List SendTask) → Adds t a t' b → Adds t' b t'' c → Adds t a t'' c
Adds-trans t t' t'' a b c p q = record {
  added = p.added ++ q.added;
  tasks_are = rw (q.tasks_are, p.tasks_are) (rw append_assoc);
  queues =
      rw (map-append)
        (Queues-trans t t' t'' (map task_key p.added) (map task_key q.added) p.queues q.queues);
}

-- A change of the log that queues nothing.
Adds-kept :
    (t t' : LogTable) (tasks : List SendTask)
    → ((k : Key) → logged k t ≡ true → logged k t' ≡ true)
    → Adds t tasks t' tasks
Adds-kept t t' tasks keep = record {
  added = [];
  tasks_are = rw append-nil;
  queues = record { kept = keep; were_new = tt; now_logged = tt; distinct = tt };
}

-- The row that `CreatePending` returned, if any, becomes a task.
queue_row :
    (user_id fire : ℕ) (k : Key) (t t' : LogTable) (row : Option NotificationLog)
    (task : ℕ → SendTask) (tasks : List SendTask)
    → Creates user_id fire k t t' row
    → ((id : ℕ) → task_key (task id) ≡ k)
    → Adds t tasks t' (tasks ++ task_if_new row task)
queue_row user_id fire k t t' none task tasks c same = rw append-nil (Adds-kept t t' tasks c.kept)
queue_row user_id fire k t t' (some row) task tasks c same = record {
  added = task row.id ∷ [];
  tasks_are = refl;
  queues = rw (same row.id) (record {
    kept = c.kept;
    were_new =
        (elim (Bool-cases (logged k t)) [ inl old ↦ cc ((c.refused old).0) | inr new ↦ new ], tt);
    now_logged = (c.now_logged, tt);
    distinct = (tt, tt);
  });
}

skip_if_new-logged :
    (row : Option NotificationLog) (t : LogTable) (k : Key)
    → logged k (skip_if_new row t) ≡ logged k t
skip_if_new-logged none t k = refl
skip_if_new-logged (some row) t k = logged-mark_skipped k row.id t

module _ (user : User) (event : Event) (calendar_type : String) (occ : Date) where
  created :
      (rule : ReminderRule) (fire : ℕ) (t : LogTable)
      → Creates user.id fire
          (key event.id rule.id occ)
          t
          (create_for user event calendar_type occ rule fire t).0
          (create_for user event calendar_type occ rule fire t).1
  created rule fire t = create_pending-Creates user.id fire (key event.id rule.id occ) t

  skip_rule-Adds :
      (rule : ReminderRule) (fire : ℕ) (p : Progress)
      → let p' = skip_rule user event calendar_type occ rule fire p in
        Adds p.logs p.tasks p'.logs p'.tasks
  unfolding skip_rule
  skip_rule-Adds rule fire p =
      Adds-kept p.logs _ p.tasks
        (λ k h. skip_if_new-logged _ _ k ∙ (created rule fire p.logs).kept k h)

  queue_rule-Adds :
      (rule : ReminderRule) (fire : ℕ) (p : Progress)
      → let p' = queue_rule user event calendar_type occ rule fire p in
        Adds p.logs p.tasks p'.logs p'.tasks
  unfolding queue_rule
  queue_rule-Adds rule fire p =
      queue_row user.id fire (key event.id rule.id occ) p.logs _ _
        (task_for user event calendar_type occ rule fire) p.tasks (created rule fire p.logs)
        (λ id. refl)

module _ (grace now : ℕ) (zone : Zone) (user : User) (event : Event) (calendar_type : String)
    (occ : Date) where
  fire_rule-Adds :
      (rule : ReminderRule) (fire : Option ℕ) (p : Progress)
      → let p' = fire_rule grace now zone user event calendar_type occ rule fire p in
        Adds p.logs p.tasks p'.logs p'.tasks
  unfolding fire_rule
  fire_rule-Adds rule none p = Adds-refl p.logs p.tasks
  fire_rule-Adds rule (some fire) p = elim (Bool-cases (ltb now fire)) [
    | inl early ↦ rw early (Adds-refl p.logs p.tasks)
    | inr due ↦ rw due (elim (Bool-cases (ltb grace (now - fire))) [
      | inl late ↦ rw late (skip_rule-Adds user event calendar_type occ rule fire p)
      | inr timely ↦
          rw timely (elim (Bool-cases (any (λ minute. minute == fire / minute_ns) p.seen)) [
            | inl seen ↦ rw seen (Adds-refl p.logs p.tasks)
            | inr fresh ↦ rw fresh (queue_rule-Adds user event calendar_type occ rule fire p)
          ])
    ])
  ]

  fire_rules-Adds :
      (rules : List ReminderRule) (p : Progress)
      → let p' = fire_rules grace now zone user event calendar_type occ rules p in
        Adds p.logs p.tasks p'.logs p'.tasks
  unfolding fire_rules
  fire_rules-Adds [] p = Adds-refl p.logs p.tasks
  fire_rules-Adds (rule ∷ rules) p =
      let fire = fire_time zone user event rule occ in
      let p' = fire_rule grace now zone user event calendar_type occ rule fire p in
      Adds-trans _ _ _ _ _ _ (fire_rule-Adds rule fire p) (fire_rules-Adds rules p')

module _ (grace now : ℕ) (zone : Zone) (user : User) where
  fire_track-Adds :
      (event : Event) (rules : List ReminderRule) (calendar_type : String) (occ : Option Date)
      (t : LogTable) (tasks : List SendTask)
      → let q = fire_track grace now zone user event rules calendar_type occ (t, tasks) in
        Adds t tasks q.0 q.1
  fire_track-Adds event rules calendar_type none t tasks = Adds-refl t tasks
  fire_track-Adds event rules calendar_type (some occ) t tasks =
      fire_rules-Adds grace now zone user event calendar_type occ rules
        (record { logs = t; seen = []; tasks = tasks })

  fire_tracks-Adds :
      (event : Event) (rules : List ReminderRule) (tracks : List OccurrenceTrack) (t : LogTable)
      (tasks : List SendTask)
      → let q = fire_tracks grace now zone user event rules tracks (t, tasks) in
        Adds t tasks q.0 q.1
  unfolding fire_tracks
  fire_tracks-Adds event rules [] t tasks = Adds-refl t tasks
  fire_tracks-Adds event rules (track ∷ tracks) t tasks =
      let q =
        fire_track grace now zone user event rules track.calendar_type track.occurrence
          (t, tasks) in
      Adds-trans _ _ _ _ _ _
        (fire_track-Adds event rules track.calendar_type track.occurrence t tasks)
        (fire_tracks-Adds event rules tracks q.0 q.1)

  -- Over all events of a user: the tasks that are added are those of keys that were not logged before, no
  -- key twice, and each of them is logged from then on.
  pub fire_events-Adds :
      (rules : List ReminderRule) (events : List Event) (t : LogTable) (tasks : List SendTask)
      → let q = fire_events grace now zone user rules events (t, tasks) in Adds t tasks q.0 q.1
  unfolding fire_events
  fire_events-Adds rules [] t tasks = Adds-refl t tasks
  fire_events-Adds rules (event ∷ events) t tasks =
      let q =
        fire_tracks grace now zone user event (applicable_rules rules event) (event_tracks event)
          (t, tasks) in
      Adds-trans _ _ _ _ _ _
        (fire_tracks-Adds event (applicable_rules rules event) (event_tracks event) t tasks)
        (fire_events-Adds rules events q.0 q.1)
