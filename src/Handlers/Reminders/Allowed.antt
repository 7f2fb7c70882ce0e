-- ===== src/Handlers/Reminders/Allowed.antt =====
-- Every button of the reminder screens makes at most one write of the rules, of a kind that is allowed.
use birthly_go.Prelude.{
  ℕ, ◌<◌, ◌≡◌, refl, sym, subst, false, ◌&&◌, leb, ◌==◌, Option, none, some, ◌⊎◌, inl, inr,
  Bool-cases, arith, List, [], ◌∷◌, ◌∙◌,
}
use birthly_go.Prelude.Text.{Text}
use birthly_go.Store.Models.{Event, ReminderRule}
use birthly_go.Store.Database.{Database, find_rule}
use birthly_go.Store.Rules.{create_rule, update_rule, count_global, count_for_event}
use birthly_go.Store.RuleLaws.{RuleWrite, added, changed, removed, toggled, write_rule}
use birthly_go.Services.Action.{Result, ok, err, panicked}
use birthly_go.Handlers.EventAdd.{World, Update}
use birthly_go.Handlers.Reminders.{
  RuleAnswer, RuleHandler, offset_rule, event_in, existing_rules, rule_limit, created_rule,
  with_owned, owned_rule, with_rule, changed_rule, set_rule_time, chosen_time, cb_menu_reminders,
  cb_event_reminders, cb_rem_back, cb_rem_pick_offset, cb_rem_rule_menu, cb_rem_toggle,
  cb_rem_delete, cb_rem_set_time,
}

pub data RuleButton : Type 0 where
  rules_menu : RuleButton
  event_rules : ℕ → RuleButton
  rules_back : Option ℕ → RuleButton
  pick_offset : Option ℕ → ℕ → RuleButton
  rule_menu : ℕ → RuleButton
  toggle_button delete_button : ℕ → Option ℕ → RuleButton
  time_button : Option Text → Option ℕ → Option ℕ → RuleButton

-- Fewer rules than the limit, of the event or of all events.
abbrev pub HasRoom : ℕ → Option ℕ → Database → Type 0
HasRoom user_id none db = count_global user_id db < 5
HasRoom user_id (some event_id) db = count_for_event user_id event_id db < 5

-- A new rule has the table's number and room; a change of a rule of the user keeps its event.
abbrev pub IsAllowed : ℕ → ℕ → RuleWrite → Database → Type 0
IsAllowed user_id next_id (added rule id now) db = (id ≡ next_id) × HasRoom user_id rule.event_id db
IsAllowed user_id next_id (changed rule) db =
    (row : ReminderRule) × (find_rule rule.id user_id db.rules ≡ some row)
    × (rule.event_id ≡ row.event_id)
IsAllowed user_id next_id (removed id) db = Unit
IsAllowed user_id next_id (toggled id) db = Unit

find_rule-id :
    (id user_id : ℕ) (rule : ReminderRule) (rules : List ReminderRule)
    → find_rule id user_id rules ≡ some rule
    → rule.id ≡ id
unfolding find_rule
find_rule-id id user_id rule [] h = cc
find_rule-id id user_id rule (r ∷ rules) h =
    elim (Bool-cases (r.id == id && r.user_id == user_id)) [
      | inl here ↦
          let first : find_rule id user_id (r ∷ rules) ≡ some r = rw here refl in
          let same : r ≡ rule = cc in rw (sym same) (ground (arith, here))
      | inr other ↦
          let later : find_rule id user_id (r ∷ rules) ≡ find_rule id user_id rules =
            rw other refl in
          find_rule-id id user_id rule rules (sym later ∙ h)
    ]

module _ (u : Update) (next_id : ℕ) where
  unfoldable pub handle_reminder : RuleButton → RuleHandler
  handle_reminder rules_menu = cb_menu_reminders u
  handle_reminder (event_rules event_id) = cb_event_reminders u event_id
  handle_reminder (rules_back event_id) = cb_rem_back u event_id
  handle_reminder (pick_offset event_id offset_days) =
      cb_rem_pick_offset u next_id event_id offset_days
  handle_reminder (rule_menu rule_id) = cb_rem_rule_menu u rule_id
  handle_reminder (toggle_button rule_id event_id) = cb_rem_toggle u rule_id event_id
  handle_reminder (delete_button rule_id event_id) = cb_rem_delete u rule_id event_id
  handle_reminder (time_button value rule_id event_id) = cb_rem_set_time u value rule_id event_id

  -- Nothing is written, or one allowed change of the rules.
  unfoldable pub Writes : World → RuleAnswer × World → Type 0
  Writes w r =
      (r.1.db ≡ w.db)
      ⊎ ((x : RuleWrite) × IsAllowed u.user.id next_id x w.db
          × (r.1.db ≡ write_rule u.user.id x w.db))

  existing-HasRoom :
      (event_id : Option ℕ) (offset_days : ℕ) (w : World)
      → leb (rule_limit u event_id) (existing_rules u event_id w.db) ≡ false
      → HasRoom u.user.id event_id w.db
  existing-HasRoom none offset_days w h = ground (arith, h)
  existing-HasRoom (some event_id) offset_days w h = ground (arith, h)

  created_rule-Writes :
      (event_id : Option ℕ) (offset_days : ℕ) (w : World) (o : Option (ReminderRule × Database))
      → create_rule u.user.id (offset_rule event_id offset_days) next_id u.now w.db ≡ o
      → HasRoom u.user.id event_id w.db
      → Writes w (created_rule u event_id o w)
  unfolding Writes write_rule
  created_rule-Writes event_id offset_days w none made room = inl refl
  created_rule-Writes event_id offset_days w (some (row, db')) made room =
      inr (added (offset_rule event_id offset_days) next_id u.now, (refl, room), rw made refl)

  with_owned-Writes :
      (o : Option (Result Event)) (h : RuleHandler) (w : World)
      → Writes w (h w)
      → Writes w (with_owned u o h w)
  unfolding Writes
  with_owned-Writes none h w k = k
  with_owned-Writes (some (ok e)) h w k = k
  with_owned-Writes (some (err f)) h w k = inl refl
  with_owned-Writes (some panicked) h w k = inl refl

  pick_offset-Writes :
      (event_id : Option ℕ) (offset_days : ℕ) (w : World)
      → Writes w (cb_rem_pick_offset u next_id event_id offset_days w)
  unfolding cb_rem_pick_offset Writes
  pick_offset-Writes event_id offset_days w =
      let made = create_rule u.user.id (offset_rule event_id offset_days) next_id u.now w.db in
      elim (Bool-cases (leb (rule_limit u event_id) (existing_rules u event_id w.db))) [
        | inl full ↦ rw full (inl refl)
        | inr room ↦ rw room (
            with_owned-Writes (event_in u event_id w) (created_rule u event_id made) w (
              created_rule-Writes event_id offset_days w made refl
                (existing-HasRoom event_id offset_days w room)))
      ]

  with_rule-Writes :
      (o : Option ReminderRule) (h : ReminderRule → RuleHandler) (w : World)
      → ((rule : ReminderRule) → o ≡ some rule → Writes w (h rule w))
      → Writes w (with_rule u o h w)
  unfolding Writes
  with_rule-Writes none h w k = inl refl
  with_rule-Writes (some rule) h w k = k rule refl

  changed_rule-Writes :
      (event_id : Option ℕ) (rule : ReminderRule) (send_time : Text) (w : World)
      (o : Option (Option ReminderRule × Database))
      → find_rule rule.id u.user.id w.db.rules ≡ some rule
      → update_rule u.user.id (record rule { send_time = some send_time }) w.db ≡ o
      → Writes w (changed_rule u event_id o w)
  unfolding Writes write_rule
  changed_rule-Writes event_id rule send_time w none there made = inl refl
  changed_rule-Writes event_id rule send_time w (some (row, db')) there made =
      inr (changed (record rule { send_time = some send_time }), (rule, there, refl), rw made refl)

  set_rule_time-Writes :
      (o : Option Text) (rule_id : ℕ) (event_id : Option ℕ) (w : World)
      → Writes w (set_rule_time u o rule_id event_id w)
  unfolding Writes
  set_rule_time-Writes none rule_id event_id w = inl refl
  set_rule_time-Writes (some send_time) rule_id event_id w =
      with_rule-Writes (owned_rule u rule_id w) _ w (λ rule there.
        let same = find_rule-id rule_id u.user.id rule w.db.rules there in
        changed_rule-Writes event_id rule send_time w _
          (subst (λ i. find_rule i u.user.id w.db.rules ≡ some rule) (sym same) there) refl)

  -- Every button of the reminder screens, whatever its payload says, makes at most one write of the rules; a
  -- new rule is made only where the user has fewer than five rules for its event, or for all events, and a
  -- rule is changed only where it is the user's, and stays with its event.
  pub handle_reminder-Writes : (m : RuleButton) (w : World) → Writes w (handle_reminder m w)
  unfolding handle_reminder Writes cb_menu_reminders cb_event_reminders cb_rem_back cb_rem_rule_menu
      cb_rem_toggle cb_rem_delete cb_rem_set_time write_rule
  handle_reminder-Writes rules_menu w = inl refl
  handle_reminder-Writes (event_rules event_id) w = inl refl
  handle_reminder-Writes (rules_back event_id) w = inl refl
  handle_reminder-Writes (pick_offset event_id offset_days) w =
      pick_offset-Writes event_id offset_days w
  handle_reminder-Writes (rule_menu rule_id) w =
      with_rule-Writes (owned_rule u rule_id w) _ w (λ rule _. inl refl)
  handle_reminder-Writes (toggle_button rule_id event_id) w =
      with_rule-Writes (owned_rule u rule_id w) _ w (λ rule _. inr (toggled rule_id, tt, refl))
  handle_reminder-Writes (delete_button rule_id event_id) w =
      with_rule-Writes (owned_rule u rule_id w) _ w (λ rule _. inr (removed rule_id, tt, refl))
  handle_reminder-Writes (time_button (some value) (some rule_id) event_id) w =
      set_rule_time-Writes (chosen_time value) rule_id event_id w
  handle_reminder-Writes (time_button none rule_id event_id) w = inl refl
  handle_reminder-Writes (time_button (some value) none event_id) w = inl refl
