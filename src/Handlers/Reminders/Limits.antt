-- ===== src/Handlers/Reminders/Limits.antt =====
-- The numbers of rules that the reminder screens leave a user with.
use birthly_go.Prelude.{
  ℕ, ◌+◌, ◌≤◌, ◌≡◌, refl, sym, subst, ◌∙◌, true, false, not, ◌&&◌, ◌==◌, if◌then◌else◌, Option,
  none, some, inl, inr, Bool-cases, any, All, arith, ℕ_discrete,
}
use birthly_go.Store.Models.{ReminderRule}
use birthly_go.Store.Database.{Database, find_rule, is_none}
use birthly_go.Store.Events.{has_user}
use birthly_go.Store.Rules.{
  count_global, count_for_event, list_global, list_for_event, is_at_event, create_rule, rule_checks,
  is_rule, delete_rule, update_rules, with_fields, update_rule, flipped, toggle_rule,
}
use birthly_go.Store.RuleLaws.{RuleWrite, added, changed, removed, toggled, written, write_rule}
use birthly_go.Handlers.EventAdd.{World, Update}
use birthly_go.Handlers.Reminders.Allowed.{
  RuleButton, handle_reminder, HasRoom, IsAllowed, Writes, handle_reminder-Writes,
}
use birthly_go.Handlers.Reminders.Numbers.{
  has_number, HasUniqueRules, matching-append, matching-filterb, matching-update, All-imp, always,
  append-HasUniqueRules, filterb-HasUniqueRules, update-HasUniqueRules, found-only,
}

-- A user has at most five rules for all events, and at most five for each event.
pub record AreLimited (user_id : ℕ) (db : Database) : Type 0 where
  pub global : count_global user_id db ≤ 5
  pub per_event : (event_id : ℕ) → count_for_event user_id event_id db ≤ 5
  pub unique : HasUniqueRules db.rules

module _ (user_id : ℕ) (db : Database) where
  global_room :
      (event_id : Option ℕ)
      → HasRoom user_id event_id db
      → count_global user_id db ≤ 5
      → count_global user_id db + (if is_none event_id then 1 else 0) ≤ 5
  global_room none room h = omega (arith, room)
  global_room (some id) room h = omega (arith, h)

  event_room :
      (event_id : Option ℕ) (id : ℕ)
      → HasRoom user_id event_id db
      → count_for_event user_id id db ≤ 5
      → count_for_event user_id id db + (if is_at_event id event_id then 1 else 0) ≤ 5
  event_room none id room h = omega (arith, h)
  event_room (some other) id room h = elim (ℕ_discrete other id) [
    | yes same ↦ rw (← same) (ground (arith, room))
    | no differ ↦ ground (arith, differ, h)
  ]

  create_rule-AreLimited :
      (rule : ReminderRule) (id now : ℕ)
      → AreLimited user_id db
      → has_number id db.rules ≡ false
      → HasRoom user_id rule.event_id db
      → AreLimited user_id (written (create_rule user_id rule id now db) db)
  unfolding create_rule list_global list_for_event
  create_rule-AreLimited rule id now h fresh room =
      elim (Bool-cases (rule_checks rule db && has_user user_id db.users)) [
        | inl good ↦ rw good (record {
          global =
              subst (λ n. n ≤ 5) (sym (matching-append _ _ db.rules))
                (ground (arith, global_room rule.event_id room h.global));
          per_event = λ e.
              subst (λ n. n ≤ 5) (sym (matching-append _ _ db.rules))
                (ground (arith, event_room rule.event_id e room (h.per_event e)));
          unique = append-HasUniqueRules _ db.rules fresh h.unique;
        })
        | inr bad ↦ rw bad h
      ]

  update-AreLimited :
      (id : ℕ) (f : ReminderRule → ReminderRule)
      → ((r : ReminderRule) → (f r).id ≡ r.id)
      → ((r : ReminderRule) → (f r).user_id ≡ r.user_id)
      → All
          (λ (r : ReminderRule). is_rule id user_id r ≡ true → (f r).event_id ≡ r.event_id)
          db.rules
      → AreLimited user_id db
      → AreLimited user_id (record db { rules = update_rules id user_id f db.rules })
  unfolding list_global list_for_event
  update-AreLimited id f same_id same_user same_event h = record {
    global =
        subst (λ n. n ≤ 5)
          (sym (
            matching-update (λ r. r.user_id == user_id && is_none r.event_id) id user_id f db.rules
              (All-imp (λ r k e. rw (same_user r, k e) refl) db.rules same_event)))
          h.global;
    per_event = λ e.
        subst (λ n. n ≤ 5)
          (sym (
            matching-update (λ r. r.user_id == user_id && is_at_event e r.event_id) id user_id f
              db.rules (All-imp (λ r k g. rw (same_user r, k g) refl) db.rules same_event)))
          (h.per_event e);
    unique = update-HasUniqueRules id user_id f db.rules same_id h.unique;
  }

  update_rule-AreLimited :
      (rule row : ReminderRule)
      → AreLimited user_id db
      → find_rule rule.id user_id db.rules ≡ some row
      → rule.event_id ≡ row.event_id
      → AreLimited user_id (written (update_rule user_id rule db) db)
  unfolding update_rule
  update_rule-AreLimited rule row h there same =
      let only = found-only rule.id user_id row db.rules h.unique there in
      rw there (elim (Bool-cases (rule_checks rule db)) [
        | inl good ↦ rw good (
            update-AreLimited rule.id (with_fields rule) (λ r. refl) (λ r. refl)
              (All-imp (λ r k e. same ∙ sym (k e)) db.rules only) h)
        | inr bad ↦ rw bad h
      ])

  delete_rule-AreLimited :
      (id : ℕ) → AreLimited user_id db → AreLimited user_id (delete_rule id user_id db)
  unfolding delete_rule list_global list_for_event
  delete_rule-AreLimited id h = record {
    global = omega (arith, matching-filterb _ (λ r. not (is_rule id user_id r)) db.rules, h.global);
    per_event = λ e.
        omega (arith, matching-filterb _ (λ r. not (is_rule id user_id r)) db.rules, h.per_event e);
    unique = filterb-HasUniqueRules (λ r. not (is_rule id user_id r)) db.rules h.unique;
  }

  -- Every allowed write of the rules of a user leaves at most five rules for all events, at most five for each
  -- event, and numbers that are unique, where a new rule has a number that the table does not have.
  pub write_rule-AreLimited :
      (next_id : ℕ) (x : RuleWrite)
      → AreLimited user_id db
      → has_number next_id db.rules ≡ false
      → IsAllowed user_id next_id x db
      → AreLimited user_id (write_rule user_id x db)
  unfolding write_rule toggle_rule
  write_rule-AreLimited next_id (added rule id now) h fresh allowed =
      create_rule-AreLimited rule id now h
        (subst (λ n. has_number n db.rules ≡ false) (sym allowed.0) fresh) allowed.1
  write_rule-AreLimited next_id (changed rule) h fresh (row, there, same) =
      update_rule-AreLimited rule row h there same
  write_rule-AreLimited next_id (removed id) h fresh allowed = delete_rule-AreLimited id h
  write_rule-AreLimited next_id (toggled id) h fresh allowed =
      update-AreLimited id flipped (λ r. refl) (λ r. refl) (always _ db.rules (λ r e. refl)) h

-- Whatever button of the reminder screens is tapped, with whatever payload: a user with at most five rules for
-- all events and at most five for each event, and a table whose numbers are unique, are left so, where the
-- table has no rule yet with the number that it gives to a new one.
pub handle_reminder-AreLimited :
    (u : Update) (next_id : ℕ) (m : RuleButton) (w : World)
    → AreLimited u.user.id w.db
    → any (λ (r : ReminderRule). r.id == next_id) w.db.rules ≡ false
    → AreLimited u.user.id (handle_reminder u next_id m w).1.db
unfolding Writes
handle_reminder-AreLimited u next_id m w h fresh = elim (handle_reminder-Writes u next_id m w) [
  | inl same ↦ rw same h
  | inr (x, allowed, made) ↦
      rw made (write_rule-AreLimited u.user.id w.db next_id x h fresh allowed)
]
