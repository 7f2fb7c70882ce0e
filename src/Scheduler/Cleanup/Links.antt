-- ===== src/Scheduler/Cleanup/Links.antt =====
-- The jobs that delete take just the rows they should, and leave no row that refers to a missing one.
use birthly_go.Prelude.{
  ℕ, ◌-◌, ◌*◌, ◌≡◌, refl, sym, ap, ◌∙◌, Bool, true, false, not, ◌&&◌, ltb, ◌==◌, List, [], ◌∷◌,
  Option, none, some, filterb, All, arith, Bool-cases, inl, inr,
}
use birthly_go.Scheduler.Clock.{day_ns}
use birthly_go.Scheduler.Recompute.{list_all_users}
use birthly_go.Scheduler.Users.{has_user-list_all_users}
use birthly_go.Store.Models.{in_seconds, User, Event, ReminderRule, NotificationLog}
use birthly_go.Store.Database.{Database}
use birthly_go.Store.Events.{has_user}
use birthly_go.Store.Logs.{delete_old_logs}
use birthly_go.Store.Links.{
  has_event, has_rule, NoneOrIn, RulesLinked, RowIsLinked, IsLinked, any-filterb,
}
use birthly_go.Scheduler.Cleanup.{
  cleanup_logs, soft_delete_retention_days, is_purged, is_gone, goes_with, is_lost, rule_left,
  logs_left, delete_events, purge_deleted_before, purge_users, purge_soft_deleted,
}

module _ (purged : Event → Bool) (db : Database) where
  kept_event :
      (id : ℕ)
      → has_event db.events id ≡ true
      → is_gone purged db id ≡ false
      → has_event (delete_events purged db).events id ≡ true
  unfolding delete_events is_gone
  kept_event id h n = any-filterb (λ (e : Event). e.id == id) purged db.events h n

  kept_rule :
      (id : ℕ)
      → has_rule db.rules id ≡ true
      → is_lost purged db id ≡ false
      → has_rule (delete_events purged db).rules id ≡ true
  unfolding delete_events is_lost
  kept_rule id h n =
      any-filterb (λ (r : ReminderRule). r.id == id) (λ r. goes_with purged db r.event_id) db.rules
        h n

  event_linked :
      (id : Option ℕ)
      → NoneOrIn (has_event db.events) id
      → goes_with purged db id ≡ false
      → NoneOrIn (has_event (delete_events purged db).events) id
  event_linked none h n = tt
  event_linked (some id) h n = kept_event id h n

  rules_left-linked :
      (rules : List ReminderRule)
      → RulesLinked db.events rules
      → RulesLinked
          (delete_events purged db).events
          (filterb (λ r. not (goes_with purged db r.event_id)) rules)
  rules_left-linked [] h = tt
  rules_left-linked (r ∷ rules) h = elim (Bool-cases (goes_with purged db r.event_id)) [
    | inl goes ↦ rw (goes, filterb) (rules_left-linked rules h.1)
    | inr stays ↦
        rw (stays, filterb) (event_linked r.event_id h.0 stays, rules_left-linked rules h.1)
  ]

  rule_linked :
      (id : Option ℕ)
      → NoneOrIn (has_rule db.rules) id
      → NoneOrIn (has_rule (delete_events purged db).rules) (rule_left purged db id)
  rule_linked none h = tt
  rule_linked (some id) h = elim (Bool-cases (is_lost purged db id)) [
    | inl lost ↦ rw lost tt
    | inr left ↦ rw left (kept_rule id h left)
  ]

  logs_left-linked :
      (rows : List NotificationLog)
      → All (λ row. RowIsLinked db.events db.rules row) rows
      → All
          (λ row. RowIsLinked (delete_events purged db).events (delete_events purged db).rules row)
          (logs_left purged db rows)
  unfolding logs_left
  logs_left-linked [] h = tt
  logs_left-linked (row ∷ rows) h = elim (Bool-cases (is_gone purged db row.event_id)) [
    | inl gone ↦ rw gone (logs_left-linked rows h.1)
    | inr stays ↦ rw stays (
      (kept_event row.event_id h.0.0 stays, rule_linked row.rule_id h.0.1),
      logs_left-linked rows h.1,
    )
  ]

  delete_events-IsLinked : IsLinked db → IsLinked (delete_events purged db)
  unfolding delete_events
  delete_events-IsLinked h = record {
    rules_linked = rules_left-linked db.rules h.rules_linked;
    logs_linked = logs_left-linked db.logs.rows h.logs_linked;
  }

purge_users-IsLinked :
    (users : List User) (cutoff : ℕ) (db : Database)
    → IsLinked db
    → IsLinked (purge_users users cutoff db)
unfolding purge_users purge_deleted_before
purge_users-IsLinked [] cutoff db h = h
purge_users-IsLinked (u ∷ users) cutoff db h =
    purge_users-IsLinked users cutoff (delete_events (is_purged u.id (in_seconds cutoff)) db)
      (delete_events-IsLinked (is_purged u.id (in_seconds cutoff)) db h)

-- Trashed before the cutoff, by one of the users.
abbrev pub is_expired : List User → ℕ → Event → Bool
is_expired users cutoff e = has_user e.user_id users && is_earlier e.deleted_at
  where
    is_earlier : Option ℕ → Bool
    is_earlier none = false
    is_earlier (some at) = ltb at cutoff

filterb-twice :
    (user_id : ℕ) (u : User) (users : List User) (cutoff : ℕ) (events : List Event)
    → filterb
        (λ e. not (is_expired users cutoff e))
        (filterb (λ e. not (is_purged u.id cutoff e)) events)
      ≡ filterb (λ e. not (is_expired (u ∷ users) cutoff e)) events
unfolding is_purged
filterb-twice user_id u users cutoff [] = refl
filterb-twice user_id u users cutoff (e ∷ events) =
    ground (arith, filterb-twice user_id u users cutoff events)

filterb-none :
    (cutoff : ℕ) (events : List Event) → filterb (λ e. not (is_expired [] cutoff e)) events ≡ events
filterb-none cutoff [] = refl
filterb-none cutoff (e ∷ events) = ap (λ r. e ∷ r) (filterb-none cutoff events)

purge_users-events :
    (users : List User) (cutoff : ℕ) (db : Database)
    → ((purge_users users cutoff db).events
        ≡ filterb (λ e. not (is_expired users (in_seconds cutoff) e)) db.events)
      × ((purge_users users cutoff db).users ≡ db.users)
unfolding purge_users purge_deleted_before delete_events
purge_users-events [] cutoff db = (sym (filterb-none (in_seconds cutoff) db.events), refl)
purge_users-events (u ∷ users) cutoff db =
    let (same, same_users) =
      purge_users-events users cutoff (delete_events (is_purged u.id (in_seconds cutoff)) db) in
    (same ∙ filterb-twice u.id u users (in_seconds cutoff) db.events, same_users)

same_expired :
    (users table : List User) (cutoff : ℕ) (events : List Event)
    → ((v : ℕ) → has_user v users ≡ has_user v table)
    → filterb (λ e. not (is_expired users cutoff e)) events
      ≡ filterb (λ e. not (is_expired table cutoff e)) events
same_expired users table cutoff [] h = refl
same_expired users table cutoff (e ∷ events) h =
    ground (arith, h e.user_id, same_expired users table cutoff events h)

-- Whether an event stays in the table when the trash is emptied at a time: no user of the table put it there
-- more than thirty days before, in whole seconds.
abbrev pub outlasts : List User → ℕ → Event → Bool
outlasts users now e = not (is_expired users (in_seconds (now - 2_592_000_000_000_000)) e)

-- The job that empties the trash removes just the events that a user of the table put there more than thirty
-- days ago, in whole seconds, keeps the others in their order, and keeps the users.
pub purge_soft_deleted-events :
    (now : ℕ) (db : Database)
    → ((purge_soft_deleted now db).events ≡ filterb (outlasts db.users now) db.events)
      × ((purge_soft_deleted now db).users ≡ db.users)
unfolding purge_soft_deleted
purge_soft_deleted-events now db =
    let cutoff = now - soft_delete_retention_days * day_ns in
    let (events, users) = purge_users-events (list_all_users db) cutoff db in
    (
      events
          ∙ same_expired (list_all_users db) db.users (in_seconds cutoff) db.events
              (λ v. has_user-list_all_users v db),
      users,
    )

-- The tables as the job leaves them have no row that refers to a missing one, if they had none before.
pub purge_soft_deleted-IsLinked :
    (now : ℕ) (db : Database) → IsLinked db → IsLinked (purge_soft_deleted now db)
unfolding purge_soft_deleted
purge_soft_deleted-IsLinked now db h =
    purge_users-IsLinked (list_all_users db) (now - soft_delete_retention_days * day_ns) db h

filterb-linked :
    (p : NotificationLog → Bool) (db : Database) (rows : List NotificationLog)
    → All (λ row. RowIsLinked db.events db.rules row) rows
    → All (λ row. RowIsLinked db.events db.rules row) (filterb p rows)
filterb-linked p db [] h = tt
filterb-linked p db (row ∷ rows) h = elim (Bool-cases (p row)) [
  | inl stays ↦ rw (stays, filterb) (h.0, filterb-linked p db rows h.1)
  | inr goes ↦ rw (goes, filterb) (filterb-linked p db rows h.1)
]

-- The job that shortens the log leaves every row with an event and a rule that are there, too.
pub cleanup_logs-IsLinked : (now : ℕ) (db : Database) → IsLinked db → IsLinked (cleanup_logs now db)
unfolding cleanup_logs delete_old_logs
cleanup_logs-IsLinked now db h = record {
  rules_linked = h.rules_linked;
  logs_linked = filterb-linked _ db db.logs.rows h.logs_linked;
}
