-- ===== src/Handlers/Reminders.antt =====
-- The screens of the reminder rules, internal/bot/handlers/reminders.go. A button comes with the values that
-- its payload holds, its numbers from 0 on; `next_id` is the number that the table gives to a new rule. What
-- the screens show is left out: a handler gives which of them comes.
pub mod Allowed
pub mod Limits
pub mod Numbers
use birthly_go.Prelude.{
  ℕ, ◌+◌, min, Bool, true, false, not, ◌&&◌, ◌||◌, leb, ltb, ◌==◌, if◌then◌else◌, Option, none,
  some, [], ◌∷◌, ◌++◌, any,
}
use birthly_go.Prelude.Text.{Text}
use birthly_go.Prelude.Decimal.{int_max, digits_from}
use birthly_go.Core.InputText.{is_all_ascii_digits}
use birthly_go.Core.DateText.Format.{decimal}
use birthly_go.Fsm.Defs.{no_data}
use birthly_go.Store.Models.{Event, ReminderRule}
use birthly_go.Store.Database.{Database, find_rule}
use birthly_go.Store.Rules.{
  count_global, count_for_event, create_rule, delete_rule, update_rule, toggle_rule,
}
use birthly_go.Services.Action.{Failure, not_found, Result, ok, err, panicked}
use birthly_go.Services.Events.{get_owned_event}
use birthly_go.Handlers.EventAdd.{World, Update, number, no_value, with_entry, keep, zero_if_none}

abbrev pub max_reminder_rules_global : ℕ
max_reminder_rules_global = 5

abbrev pub max_reminder_rules_per_event : ℕ
max_reminder_rules_per_event = 5

-- Which answer the user gets: the rules, a menu, that the limit is reached, that the event or the rule is not
-- the user's, that the choice is no time, or an error.
pub data RuleAnswer : Type 0 where
  rules_shown menu_shown nobody_found no_time : RuleAnswer
  limit_shown : ℕ → RuleAnswer
  rules_failed : Failure → RuleAnswer
  rules_panicked : RuleAnswer

abbrev pub RuleHandler : Type 0
RuleHandler = World → RuleAnswer × World

-- `strings.Cut` at the first hyphen.
unfoldable pub cut_hyphen : Text → Option (Text × Text)
cut_hyphen [] = none
cut_hyphen (c ∷ s) =
    let rest = cut_hyphen s in
    if c == b'-' then some ([], s) else elim rest [ none ↦ none | some (a, b) ↦ some (c ∷ a, b) ]

unfoldable pub fmt_hhmm : ℕ → Text → Text
fmt_hhmm hour mm = (if ltb hour 10 then b'0' ∷ decimal hour else decimal hour) ++ b':' ∷ mm

-- `strconv.Atoi` of digits, which stops at the largest number.
abbrev pub clamped_hour : Text → ℕ
clamped_hour hh = min (zero_if_none (digits_from 0 hh)) int_max

abbrev pub time_of_parts : Option (Text × Text) → Option Text
time_of_parts none = none
time_of_parts (some (hh, mm)) =
    if not (is_all_ascii_digits hh) || not (is_all_ascii_digits mm)
    then none
    else some (fmt_hhmm (clamped_hour hh) mm)

unfoldable pub chosen_time : Text → Option Text
unfolding cut_hyphen fmt_hhmm
chosen_time value = time_of_parts (cut_hyphen value)

-- A new rule, with zero values where the source sets none.
abbrev pub offset_rule : Option ℕ → ℕ → ReminderRule
offset_rule event_id offset_days = record {
  id = 0;
  user_id = 0;
  event_id = event_id;
  offset_days = some offset_days;
  offset_minutes = none;
  send_time = none;
  enabled = true;
  created_at = 0;
}

module _ (u : Update) where
  -- `GetOwnedEvent`, where there is an event; the answer to an error depends on the handler.
  abbrev pub event_in : Option ℕ → World → Option (Result Event)
  event_in none w = none
  event_in (some id) w = some (get_owned_event u.user id w.db).0

  abbrev pub rules_or : (Failure → RuleAnswer) → Option (Result Event) → RuleAnswer
  rules_or on_error none = rules_shown
  rules_or on_error (some (ok e)) = rules_shown
  rules_or on_error (some (err f)) = on_error f
  rules_or on_error (some panicked) = rules_panicked

  abbrev pub render_rules : Option ℕ → RuleHandler
  render_rules event_id w = (rules_or rules_failed (event_in event_id w), w)

  abbrev pub found_or_failed : Failure → RuleAnswer
  found_or_failed not_found = nobody_found
  found_or_failed f = rules_failed f

  unfoldable pub cb_menu_reminders : RuleHandler
  cb_menu_reminders w =
      render_rules none
        (keep u (with_entry "rem_event_id" no_value no_data) (u.clock 0) (u.clock 1) w)

  unfoldable pub cb_event_reminders : ℕ → RuleHandler
  cb_event_reminders event_id w =
      let kept =
        keep u (with_entry "rem_event_id" (number event_id) no_data) (u.clock 0) (u.clock 1) w in
      (rules_or found_or_failed (event_in (some event_id) kept), kept)

  unfoldable pub cb_rem_back : Option ℕ → RuleHandler
  cb_rem_back event_id w = (rules_or found_or_failed (event_in event_id w), w)

  abbrev pub existing_rules : Option ℕ → Database → ℕ
  existing_rules none db = count_global u.user.id db
  existing_rules (some event_id) db = count_for_event u.user.id event_id db

  abbrev pub rule_limit : Option ℕ → ℕ
  rule_limit none = max_reminder_rules_global
  rule_limit (some event_id) = max_reminder_rules_per_event

  abbrev pub created_rule : Option ℕ → Option (ReminderRule × Database) → RuleHandler
  created_rule event_id none w = (rules_failed Failure.constraint_failed, w)
  created_rule event_id (some (row, db')) w = render_rules event_id (record w { db = db' })

  -- The rule is made where there is no event, or it is the user's.
  abbrev pub with_owned : Option (Result Event) → RuleHandler → RuleHandler
  with_owned none h w = h w
  with_owned (some (ok e)) h w = h w
  with_owned (some (err f)) h w = (found_or_failed f, w)
  with_owned (some panicked) h w = (rules_panicked, w)

  unfoldable pub cb_rem_pick_offset : ℕ → Option ℕ → ℕ → RuleHandler
  cb_rem_pick_offset next_id event_id offset_days w =
      if leb (rule_limit event_id) (existing_rules event_id w.db)
      then (limit_shown (rule_limit event_id), w)
      else with_owned (event_in event_id w)
          (created_rule event_id
            (create_rule u.user.id (offset_rule event_id offset_days) next_id u.now w.db))
          w

  abbrev pub with_rule : Option ReminderRule → (ReminderRule → RuleHandler) → RuleHandler
  with_rule none h w = (nobody_found, w)
  with_rule (some rule) h w = h rule w

  abbrev pub owned_rule : ℕ → World → Option ReminderRule
  owned_rule rule_id w = find_rule rule_id u.user.id w.db.rules

  unfoldable pub cb_rem_rule_menu : ℕ → RuleHandler
  cb_rem_rule_menu rule_id w = with_rule (owned_rule rule_id w) (λ rule v. (menu_shown, v)) w

  unfoldable pub cb_rem_toggle : ℕ → Option ℕ → RuleHandler
  cb_rem_toggle rule_id event_id w =
      with_rule (owned_rule rule_id w)
        (λ rule v. render_rules event_id (record v { db = (toggle_rule rule_id u.user.id v.db).1 }))
        w

  unfoldable pub cb_rem_delete : ℕ → Option ℕ → RuleHandler
  cb_rem_delete rule_id event_id w =
      with_rule (owned_rule rule_id w)
        (λ rule v. render_rules event_id (record v { db = delete_rule rule_id u.user.id v.db })) w

  abbrev pub changed_rule : Option ℕ → Option (Option ReminderRule × Database) → RuleHandler
  changed_rule event_id none w = (rules_failed Failure.constraint_failed, w)
  changed_rule event_id (some (row, db')) w = render_rules event_id (record w { db = db' })

  abbrev pub set_rule_time : Option Text → ℕ → Option ℕ → RuleHandler
  set_rule_time none rule_id event_id w = (no_time, w)
  set_rule_time (some send_time) rule_id event_id w =
      with_rule (owned_rule rule_id w)
        (λ rule v.
          changed_rule event_id
            (update_rule u.user.id (record rule { send_time = some send_time }) v.db) v)
        w

  unfoldable pub cb_rem_set_time : Option Text → Option ℕ → Option ℕ → RuleHandler
  unfolding chosen_time
  cb_rem_set_time (some value) (some rule_id) event_id w =
      set_rule_time (chosen_time value) rule_id event_id w
  cb_rem_set_time none rule_id event_id w = (no_time, w)
  cb_rem_set_time (some value) none event_id w = (no_time, w)
