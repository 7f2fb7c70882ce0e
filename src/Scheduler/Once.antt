-- ===== src/Scheduler/Once.antt =====
-- No reminder is queued twice, in one tick or in two.
use birthly_go.Prelude.{
  refl, some_pair_inj, >>=-eq-some, zero, suc, ℕ, ◌+◌, ◌≡◌, sym, ap, ◌∙◌, Bool, true, false, List,
  [], ◌∷◌, Option, none, some, String, Bool-cases, inl, inr, arith, ltb, subst, map, All, ◌≢◌,
}
use birthly_go.Core.Civil.{Date}
use birthly_go.Core.Hebrew.{Hdate}
use birthly_go.Store.Models.{User, Event, NotificationLog}
use birthly_go.Store.LogLaws.{
  Key, logged, logged-mark_sent, logged-mark_failed, logged-mark_skipped,
}
use birthly_go.Store.Database.{Database, get_active_events_for_user, get_rules_for_user}
use birthly_go.Scheduler.Clock.{Zone}
use birthly_go.Scheduler.Plan.{SendTask}
use birthly_go.Scheduler.Queue.{
  Queues, Adds, Adds-refl, Adds-trans, task_key, fire_events-Adds, clash, All-map,
}
use birthly_go.Scheduler.Advance.{advance_event, advance_events, write_if}
use birthly_go.Scheduler.Send.{
  Answer, delivered, forbidden, too_many_requests, refused, with_logs, after_answer, send_attempts,
  send_reminder,
}
use birthly_go.Scheduler.Recover.{
  Config, SkipReason, grace_of, skip_reason, skip_or_send, recover_log, recover_logs,
  recover_pending,
}
use birthly_go.Scheduler.Tick.{
  plan_tick, window_start, window_end, zone_of, queue_user, tick_user, tick_users, send_tasks,
}

-- Sends mark rows, and log nothing.
after_answer-logged :
    (a : Answer) (k : Key) (attempt user_id log_id : ℕ) (again : Database × Bool) (db : Database)
    → logged k again.0.logs ≡ logged k db.logs
    → logged k (after_answer a attempt user_id log_id again db).0.logs ≡ logged k db.logs
unfolding after_answer
after_answer-logged (delivered at) k attempt user_id log_id again db h =
    logged-mark_sent k log_id at db.logs
after_answer-logged forbidden k attempt user_id log_id again db h =
    logged-mark_failed k log_id _ db.logs
after_answer-logged too_many_requests k attempt user_id log_id again db h =
    elim (Bool-cases (ltb attempt 2)) [
      | inl more ↦ rw more h
      | inr last ↦ rw last (logged-mark_failed k log_id _ db.logs)
    ]
after_answer-logged (refused text) k attempt user_id log_id again db h =
    logged-mark_failed k log_id _ db.logs

send_attempts-logged :
    (left : ℕ) (k : Key) (attempt user_id log_id : ℕ) (answers : ℕ → Answer) (db : Database)
    → logged k (send_attempts left attempt user_id log_id answers db).0.logs ≡ logged k db.logs
unfolding send_attempts
send_attempts-logged zero k attempt user_id log_id answers db = refl
send_attempts-logged (suc left) k attempt user_id log_id answers db =
    after_answer-logged (answers attempt) k attempt user_id log_id
      (send_attempts left (attempt + 1) user_id log_id answers db) db
      (send_attempts-logged left k (attempt + 1) user_id log_id answers db)

send_reminder-logged :
    (k : Key) (user_id log_id : ℕ) (answers : ℕ → Answer) (db : Database)
    → logged k (send_reminder user_id log_id answers db).0.logs ≡ logged k db.logs
unfolding send_reminder
send_reminder-logged k user_id log_id answers db =
    send_attempts-logged 3 k 0 user_id log_id answers db

send_tasks-logged :
    (H : Hdate) (load_location : String → Option Zone) (cfg : Config) (now : ℕ)
    (answers : ℕ → ℕ → Answer) (tasks : List SendTask) (k : Key) (db : Database)
    → logged k (send_tasks H load_location cfg now answers tasks db).logs ≡ logged k db.logs
unfolding send_tasks
send_tasks-logged H load_location cfg now answers [] k db = refl
send_tasks-logged H load_location cfg now answers (task ∷ tasks) k db =
    send_tasks-logged H load_location cfg now answers tasks k
      (send_reminder task.user.id task.log_id (answers task.log_id) db).0
    ∙ send_reminder-logged k task.user.id task.log_id (answers task.log_id) db

skip_or_send-logged :
    (reason : Option SkipReason) (k : Key) (user_id log_id : ℕ) (answers : ℕ → Answer)
    (db : Database)
    → logged k (skip_or_send reason user_id log_id answers db).logs ≡ logged k db.logs
skip_or_send-logged none k user_id log_id answers db =
    send_reminder-logged k user_id log_id answers db
skip_or_send-logged (some reason) k user_id log_id answers db = logged-mark_skipped k log_id db.logs

recover_logs-logged :
    (cfg : Config) (now : ℕ) (answers : ℕ → ℕ → Answer) (logs : List NotificationLog) (k : Key)
    (db : Database)
    → logged k (recover_logs cfg now answers logs db).logs ≡ logged k db.logs
unfolding recover_logs recover_log
recover_logs-logged cfg now answers [] k db = refl
recover_logs-logged cfg now answers (log ∷ logs) k db =
    recover_logs-logged cfg now answers logs k (recover_log cfg now (answers log.id) log db)
    ∙ skip_or_send-logged (skip_reason cfg now log db) k log.user_id log.id (answers log.id) db

recover_pending-logged :
    (cfg : Config) (now : ℕ) (answers : ℕ → ℕ → Answer) (k : Key) (db : Database)
    → logged k (recover_pending cfg now answers db).logs ≡ logged k db.logs
unfolding recover_pending
recover_pending-logged cfg now answers k db = recover_logs-logged cfg now answers _ k db

module _ (H : Hdate) (user : User) (today : Date) where
  write_if-logs :
      (now : ℕ) (r : Option (Event × Bool)) (db db' : Database)
      → write_if H user today now r db ≡ some db'
      → db'.logs ≡ db.logs
  write_if-logs now none db db' e = cc
  write_if-logs now (some (ev, true)) db db' e = ground arith
  write_if-logs now (some (ev, false)) db db' e = ground arith

  -- Moving occurrences on leaves the log alone.
  advance_events-logs :
      (now : ℕ) (events : List Event) (db db' : Database)
      → advance_events H user today now events db ≡ some db'
      → db'.logs ≡ db.logs
  unfolding advance_events
  advance_events-logs now [] db db' e = ground arith
  advance_events-logs now (ev ∷ events) db db' e =
      let (mid, w, rest) =
        >>=-eq-some (write_if H user today now (advance_event H user today ev) db)
          (λ d. advance_events H user today now events d) e in
      advance_events-logs now events mid db' rest
      ∙ write_if-logs now (advance_event H user today ev) db mid w

module _ (H : Hdate) (load_location : String → Option Zone) (cfg : Config) (now : ℕ) where
  tick_user-Adds :
      (user : User) (db db' : Database) (tasks tasks' : List SendTask)
      → tick_user H load_location cfg now user db tasks ≡ some (db', tasks')
      → Adds db.logs tasks db'.logs tasks'
  unfolding tick_user
  tick_user-Adds user db db' tasks tasks' e =
      let events = get_active_events_for_user user.id (window_start now) (window_end cfg now) db in
      let q = queue_user H load_location cfg now user events db tasks in
      let today : Date = (zone_of H load_location cfg now user).local_date now in
      let (mid, w, rest) =
        >>=-eq-some (advance_events H user today now events (with_logs db q.0)) (λ d. some (d, q.1))
          e in
      let (same_db, same_tasks) = some_pair_inj rest in
      let logs_are : q.0 ≡ db'.logs =
        sym (advance_events-logs H user today now events (with_logs db q.0) mid w)
        ∙ ap (λ (d : Database). d.logs) same_db in
      subst (λ t. Adds db.logs tasks t tasks') logs_are
        (subst (λ ts. Adds db.logs tasks q.0 ts) same_tasks
          (fire_events-Adds (grace_of cfg) now (zone_of H load_location cfg now user) user
            (get_rules_for_user user.id db) events db.logs tasks))

  tick_users-Adds :
      (users : List User) (db db' : Database) (tasks tasks' : List SendTask)
      → tick_users H load_location cfg now users db tasks ≡ some (db', tasks')
      → Adds db.logs tasks db'.logs tasks'
  unfolding tick_users
  tick_users-Adds [] db db' tasks tasks' e =
      let (same_db, same_tasks) = some_pair_inj e in
      subst (λ (d : Database). Adds db.logs tasks d.logs tasks') same_db
        (subst (λ ts. Adds db.logs tasks db.logs ts) same_tasks (Adds-refl db.logs tasks))
  tick_users-Adds (user ∷ users) db db' tasks tasks' e =
      let (q, w, rest) =
        >>=-eq-some (tick_user H load_location cfg now user db tasks)
          (λ (r : Database × List SendTask). tick_users H load_location cfg now users r.0 r.1)
          {b = (db', tasks')} e in
      Adds-trans _ _ _ _ _ _ (tick_user-Adds user db q.0 tasks q.1 w)
        (tick_users-Adds users q.0 db' q.1 tasks' rest)

  -- The keys of what a tick queues were not logged before it, are pairwise distinct, and are logged
  -- after it; and nothing that was logged is lost.
  pub plan_tick-Queues :
      (recovery : ℕ → ℕ → Answer) (db db' : Database) (tasks : List SendTask)
      → plan_tick H load_location cfg now recovery db ≡ some (db', tasks)
      → Queues db.logs db'.logs (map task_key tasks)
  unfolding plan_tick
  plan_tick-Queues recovery db db' tasks e =
      let recovered = recover_pending cfg now recovery db in
      let adds : Adds recovered.logs [] db'.logs tasks =
        tick_users-Adds _ recovered db' [] tasks e in
      let queues : Queues recovered.logs db'.logs (map task_key tasks) =
        subst (λ ts. Queues recovered.logs db'.logs (map task_key ts)) (sym adds.tasks_are)
          adds.queues in
      record {
        kept = λ k h. queues.kept k (recover_pending-logged cfg now recovery k db ∙ h);
        were_new =
            All-map (λ k. logged k recovered.logs ≡ false) (λ k. logged k db.logs ≡ false)
              (λ k h. sym (recover_pending-logged cfg now recovery k db) ∙ h) (map task_key tasks)
              queues.were_new;
        now_logged = queues.now_logged;
        distinct = queues.distinct;
      }

-- Between two ticks, the second at any later state of the database in which what the first one logged is
-- still logged: no key is queued by both, so no reminder goes out twice for one event, rule and date.
pub plan_tick_once :
    (H : Hdate) (load_location : String → Option Zone) (cfg : Config) (now later : ℕ)
    (recovery recovery' : ℕ → ℕ → Answer) (db db' mid end : Database) (tasks tasks' : List SendTask)
    → plan_tick H load_location cfg now recovery db ≡ some (db', tasks)
    → ((k : Key) → logged k db'.logs ≡ true → logged k mid.logs ≡ true)
    → plan_tick H load_location cfg later recovery' mid ≡ some (end, tasks')
    → All (λ k. All (λ j. k ≢ j) (map task_key tasks')) (map task_key tasks)
plan_tick_once H load_location cfg now later recovery recovery' db db' mid end tasks tasks' e keep
      e' =
    let first = plan_tick-Queues H load_location cfg now recovery db db' tasks e in
    let second = plan_tick-Queues H load_location cfg later recovery' mid end tasks' e' in
    All-map (λ k. logged k db'.logs ≡ true) (λ k. All (λ j. k ≢ j) (map task_key tasks'))
      (λ k h.
        All-map (λ j. logged j mid.logs ≡ false) (λ j. k ≢ j)
          (λ j n. clash mid.logs k j (keep k h) n) (map task_key tasks') second.were_new)
      (map task_key tasks) first.now_logged
