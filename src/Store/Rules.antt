-- ===== src/Store/Rules.antt =====
-- internal/store/repo/reminders.go: the reminder rules of a user, with the constraints of the table in
-- migrations/00001_baseline.sql. The number of a new rule is the database's.
use birthly_go.Prelude.{
  ℕ, Bool, true, false, not, ◌&&◌, ◌==◌, if◌then◌else◌, List, [], ◌∷◌, ◌++◌, Option, none, some,
  filterb, any, length,
}
use birthly_go.Store.Models.{in_seconds, ReminderRule, NotificationLog}
use birthly_go.Store.Database.{Database, is_none, find_rule}
use birthly_go.Store.Events.{has_user}
use birthly_go.Store.Links.{has_event}

abbrev pub is_at_event : ℕ → Option ℕ → Bool
is_at_event event_id none = false
is_at_event event_id (some id) = id == event_id

unfoldable pub list_global : ℕ → Database → List ReminderRule
list_global user_id db = filterb (λ r. r.user_id == user_id && is_none r.event_id) db.rules

unfoldable pub list_for_event : ℕ → ℕ → Database → List ReminderRule
list_for_event user_id event_id db =
    filterb (λ r. r.user_id == user_id && is_at_event event_id r.event_id) db.rules

abbrev pub count_global : ℕ → Database → ℕ
count_global user_id db = length (list_global user_id db)

abbrev pub count_for_event : ℕ → ℕ → Database → ℕ
count_for_event user_id event_id db = length (list_for_event user_id event_id db)

-- The CHECK constraint, and the foreign key to the events.
abbrev pub has_one_offset : ReminderRule → Bool
has_one_offset r =
    if is_none r.offset_days then not (is_none r.offset_minutes) else is_none r.offset_minutes

abbrev pub event_exists : Option ℕ → Database → Bool
event_exists none db = true
event_exists (some id) db = has_event db.events id

unfoldable pub rule_checks : ReminderRule → Database → Bool
rule_checks r db = has_one_offset r && event_exists r.event_id db

-- `Create`, with the row that it reads back; `none` where a constraint fails.
unfoldable pub create_rule : ℕ → ReminderRule → ℕ → ℕ → Database → Option (ReminderRule × Database)
unfolding rule_checks
create_rule user_id rule id now db =
    if rule_checks rule db && has_user user_id db.users
    then (let row : ReminderRule = record rule {
      id = id;
      user_id = user_id;
      created_at = in_seconds now;
    } in
        some (row, record db { rules = db.rules ++ row ∷ [] }))
    else none

abbrev pub is_rule : ℕ → ℕ → ReminderRule → Bool
is_rule id user_id r = r.id == id && r.user_id == user_id

-- ON DELETE SET NULL of the log.
abbrev pub without_rule : List ReminderRule → ℕ → ℕ → Option ℕ → Option ℕ
without_rule rules id user_id none = none
without_rule rules id user_id (some rule_id) =
    if any (λ r. r.id == rule_id && is_rule id user_id r) rules then none else some rule_id

unfoldable pub unlink_rule : List ReminderRule → ℕ → ℕ → List NotificationLog → List NotificationLog
unlink_rule rules id user_id [] = []
unlink_rule rules id user_id (row ∷ rows) =
    record row { rule_id = without_rule rules id user_id row.rule_id }
    ∷ unlink_rule rules id user_id rows

unfoldable pub delete_rule : ℕ → ℕ → Database → Database
unfolding unlink_rule
delete_rule id user_id db = record db {
  rules = filterb (λ r. not (is_rule id user_id r)) db.rules;
  logs = record db.logs { rows = unlink_rule db.rules id user_id db.logs.rows };
}

-- A change of the rows of a number and an owner.
unfoldable pub update_rules :
    ℕ → ℕ → (ReminderRule → ReminderRule) → List ReminderRule → List ReminderRule
update_rules id user_id f [] = []
update_rules id user_id f (r ∷ rules) =
    (if is_rule id user_id r then f r else r) ∷ update_rules id user_id f rules

abbrev pub with_fields : ReminderRule → ReminderRule → ReminderRule
with_fields rule row = record row {
  event_id = rule.event_id;
  offset_days = rule.offset_days;
  offset_minutes = rule.offset_minutes;
  send_time = rule.send_time;
  enabled = rule.enabled;
}

-- `Update`, with the row that it reads back; `none` where a constraint fails on a row that is there.
unfoldable pub update_rule : ℕ → ReminderRule → Database → Option (Option ReminderRule × Database)
unfolding rule_checks update_rules
update_rule user_id rule db =
    if is_none (find_rule rule.id user_id db.rules)
    then some (none, db)
    else if rule_checks rule db
    then (let rules = update_rules rule.id user_id (with_fields rule) db.rules in
        some (find_rule rule.id user_id rules, record db { rules = rules }))
    else none

abbrev pub flipped : ReminderRule → ReminderRule
flipped row = record row { enabled = not row.enabled }

unfoldable pub toggle_rule : ℕ → ℕ → Database → Option ReminderRule × Database
unfolding update_rules
toggle_rule id user_id db =
    let rules = update_rules id user_id flipped db.rules in
    (find_rule id user_id rules, record db { rules = rules })
