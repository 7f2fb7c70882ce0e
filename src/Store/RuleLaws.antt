-- ===== src/Store/RuleLaws.antt =====
-- The writes to the reminder rules leave no row that refers to a missing one.
use birthly_go.Prelude.{
  ℕ, ◌≡◌, refl, Bool, true, not, ◌&&◌, ◌==◌, List, [], ◌∷◌, ◌++◌, Option, none, some, filterb, any,
  All, arith, Bool-cases, Option-cases, inl, inr,
}
use birthly_go.Store.Models.{ReminderRule, NotificationLog}
use birthly_go.Store.Database.{Database, find_rule}
use birthly_go.Store.Events.{has_user}
use birthly_go.Store.Links.{
  has_event, has_rule, NoneOrIn, RulesLinked, RowIsLinked, IsLinked, any-filterb,
}
use birthly_go.Store.Rules.{
  event_exists, rule_checks, create_rule, is_rule, without_rule, unlink_rule, delete_rule,
  update_rules, with_fields, update_rule, flipped, toggle_rule,
}

-- One write of the repository of a user.
pub data RuleWrite : Type 0 where
  added : ReminderRule → ℕ → ℕ → RuleWrite
  changed : ReminderRule → RuleWrite
  removed : ℕ → RuleWrite
  toggled : ℕ → RuleWrite

abbrev pub written {ℓ} : {A : Type ℓ} → Option (A × Database) → Database → Database
written none db = db
written (some (a, db')) db = db'

-- The database after a write; a constraint that fails leaves it as it is.
unfoldable pub write_rule : ℕ → RuleWrite → Database → Database
write_rule user_id (added rule id now) db = written (create_rule user_id rule id now db) db
write_rule user_id (changed rule) db = written (update_rule user_id rule db) db
write_rule user_id (removed id) db = delete_rule id user_id db
write_rule user_id (toggled id) db = (toggle_rule id user_id db).1

module _ (db : Database) where
  event_exists-linked :
      (id : Option ℕ) → event_exists id db ≡ true → NoneOrIn (has_event db.events) id
  event_exists-linked none h = tt
  event_exists-linked (some id) h = h

  add-linked :
      (rules : List ReminderRule) (r : ReminderRule)
      → RulesLinked db.events rules
      → NoneOrIn (has_event db.events) r.event_id
      → RulesLinked db.events (rules ++ r ∷ [])
  add-linked [] r h k = (k, tt)
  add-linked (x ∷ rules) r h k = (h.0, add-linked rules r h.1 k)

  filter-linked :
      (p : ReminderRule → Bool) (rules : List ReminderRule)
      → RulesLinked db.events rules
      → RulesLinked db.events (filterb p rules)
  filter-linked p [] h = tt
  filter-linked p (r ∷ rules) h = elim (Bool-cases (p r)) [
    | inl stays ↦ rw (stays, filterb) (h.0, filter-linked p rules h.1)
    | inr goes ↦ rw (goes, filterb) (filter-linked p rules h.1)
  ]

  update-linked :
      (id user_id : ℕ) (f : ReminderRule → ReminderRule) (rules : List ReminderRule)
      → ((r : ReminderRule)
          → NoneOrIn (has_event db.events) r.event_id
          → NoneOrIn (has_event db.events) (f r).event_id)
      → RulesLinked db.events rules
      → RulesLinked db.events (update_rules id user_id f rules)
  unfolding update_rules
  update-linked id user_id f [] k h = tt
  update-linked id user_id f (r ∷ rules) k h = elim (Bool-cases (is_rule id user_id r)) [
    | inl here ↦ rw here (k r h.0, update-linked id user_id f rules k h.1)
    | inr other ↦ rw other (h.0, update-linked id user_id f rules k h.1)
  ]

  -- A row of the log keeps its links, if all rules are still there.
  rows-linked :
      (rules : List ReminderRule) (rows : List NotificationLog)
      → ((id : ℕ) → has_rule db.rules id ≡ true → has_rule rules id ≡ true)
      → All (λ row. RowIsLinked db.events db.rules row) rows
      → All (λ row. RowIsLinked db.events rules row) rows
  rows-linked rules [] k h = tt
  rows-linked rules (row ∷ rows) k h =
      ((h.0.0, still row.rule_id h.0.1), rows-linked rules rows k h.1)
    where
      still : (id : Option ℕ) → NoneOrIn (has_rule db.rules) id → NoneOrIn (has_rule rules) id
      still none g = tt
      still (some id) g = k id g

  unlink-linked :
      (id user_id : ℕ) (rows : List NotificationLog)
      → All (λ row. RowIsLinked db.events db.rules row) rows
      → All
          (λ row. RowIsLinked db.events (filterb (λ r. not (is_rule id user_id r)) db.rules) row)
          (unlink_rule db.rules id user_id rows)
  unfolding unlink_rule
  unlink-linked id user_id [] h = tt
  unlink-linked id user_id (row ∷ rows) h =
      ((h.0.0, left row.rule_id h.0.1), unlink-linked id user_id rows h.1)
    where
      left :
          (rule_id : Option ℕ)
          → NoneOrIn (has_rule db.rules) rule_id
          → NoneOrIn
              (has_rule (filterb (λ r. not (is_rule id user_id r)) db.rules))
              (without_rule db.rules id user_id rule_id)
      left none g = tt
      left (some rule_id) g =
          elim (Bool-cases
            (any (λ (r : ReminderRule). r.id == rule_id && is_rule id user_id r) db.rules)) [
              | inl lost ↦ rw lost tt
              | inr kept ↦ rw kept (
                  any-filterb (λ (r : ReminderRule). r.id == rule_id) (is_rule id user_id) db.rules
                    g kept)
            ]

has_rule-append :
    (rules : List ReminderRule) (r : ReminderRule) (id : ℕ)
    → has_rule rules id ≡ true
    → has_rule (rules ++ r ∷ []) id ≡ true
has_rule-append [] r id h = cc
has_rule-append (x ∷ rules) r id h = ground (arith, has_rule-append rules r id)

has_rule-update :
    (id user_id : ℕ) (f : ReminderRule → ReminderRule) (rules : List ReminderRule) (j : ℕ)
    → ((r : ReminderRule) → (f r).id ≡ r.id)
    → has_rule rules j ≡ true
    → has_rule (update_rules id user_id f rules) j ≡ true
unfolding update_rules
has_rule-update id user_id f [] j k h = h
has_rule-update id user_id f (r ∷ rules) j k h =
    ground (arith, k r, has_rule-update id user_id f rules j k)

update-IsLinked :
    (id user_id : ℕ) (f : ReminderRule → ReminderRule) (db : Database)
    → ((r : ReminderRule) → (f r).id ≡ r.id)
    → ((r : ReminderRule)
        → NoneOrIn (has_event db.events) r.event_id
        → NoneOrIn (has_event db.events) (f r).event_id)
    → IsLinked db
    → IsLinked (record db { rules = update_rules id user_id f db.rules })
update-IsLinked id user_id f db same k h = record {
  rules_linked = update-linked db id user_id f db.rules k h.rules_linked;
  logs_linked =
      rows-linked db (update_rules id user_id f db.rules) db.logs.rows
        (λ j. has_rule-update id user_id f db.rules j same) h.logs_linked;
}

create_rule-IsLinked :
    (user_id : ℕ) (rule : ReminderRule) (id now : ℕ) (db : Database)
    → IsLinked db
    → IsLinked (written (create_rule user_id rule id now db) db)
unfolding create_rule rule_checks
create_rule-IsLinked user_id rule id now db h =
    elim (Bool-cases (rule_checks rule db && has_user user_id db.users)) [
      | inl good ↦ rw good (record {
        rules_linked =
            add-linked db db.rules _ h.rules_linked
              (event_exists-linked db rule.event_id (ground arith));
        logs_linked = rows-linked db _ db.logs.rows (has_rule-append db.rules _) h.logs_linked;
      })
      | inr bad ↦ rw bad h
    ]

update_rule-IsLinked :
    (user_id : ℕ) (rule : ReminderRule) (db : Database)
    → IsLinked db
    → IsLinked (written (update_rule user_id rule db) db)
unfolding update_rule rule_checks
update_rule-IsLinked user_id rule db h = elim (Option-cases (find_rule rule.id user_id db.rules)) [
  | inl gone ↦ rw gone h
  | inr (row, there) ↦ rw there (elim (Bool-cases (rule_checks rule db)) [
    | inl good ↦ rw good (
        update-IsLinked rule.id user_id (with_fields rule) db (λ r. refl)
          (λ r g. event_exists-linked db rule.event_id (ground arith)) h)
    | inr bad ↦ rw bad h
  ])
]

-- Every write to the reminder rules of a user, whether its constraints hold or not, leaves each rule with an
-- event that is there and each row of the log with an event and a rule that are there, if they had them
-- before.
pub write_rule-IsLinked :
    (user_id : ℕ) (w : RuleWrite) (db : Database) → IsLinked db → IsLinked (write_rule user_id w db)
unfolding write_rule delete_rule toggle_rule
write_rule-IsLinked user_id (added rule id now) db h = create_rule-IsLinked user_id rule id now db h
write_rule-IsLinked user_id (changed rule) db h = update_rule-IsLinked user_id rule db h
write_rule-IsLinked user_id (removed id) db h = record {
  rules_linked = filter-linked db _ db.rules h.rules_linked;
  logs_linked = unlink-linked db id user_id db.logs.rows h.logs_linked;
}
write_rule-IsLinked user_id (toggled id) db h =
    update-IsLinked id user_id flipped db (λ r. refl) (λ r g. g) h
