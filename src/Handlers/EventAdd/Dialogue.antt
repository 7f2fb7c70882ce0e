-- ===== src/Handlers/EventAdd/Dialogue.antt =====
-- The shortest way through the dialogue: the button, a name, a date.
use birthly_go.Prelude.{ℕ, Bool, Option}
use birthly_go.Prelude.Text.{Text}
use birthly_go.Core.Hebrew.{Hdate}
use birthly_go.Core.DateText.{ParsedDate}
use birthly_go.Store.Models.{Event}
use birthly_go.Services.Events.{NewEventInput}
use birthly_go.Fsm.State.{add_event_date}
use birthly_go.Fsm.Defs.{Store}
use birthly_go.Handlers.EventAdd.{
  World, Outcome, Update, go_to, keep, cb_menu_add, name_data, msg_add_name, split_name,
  msg_add_date,
}
use birthly_go.Handlers.EventAdd.Creation.{gregorian_input, new_row}

module _ (H : Hdate) (is_letter_or_number : ℕ → Bool) (detect_gender : Text → Option Text)
    (max_events : ℕ) (u : Update) (name_clock date_clock : ℕ → ℕ) (w : World) where
  -- The button, the message with a name, and the message with a date, each with its own clock.
  unfoldable pub after_button : World
  after_button = (cb_menu_add u w).1

  unfoldable pub after_name : Text → Outcome × World
  after_name name_text =
      msg_add_name (record u { clock = name_clock }) is_letter_or_number name_text after_button

  unfoldable pub after_date : Text → Text → Outcome × World
  after_date name_text date_text =
      msg_add_date (record u { clock = date_clock }) H detect_gender max_events date_text
        (after_name name_text).1

  abbrev max_age : ℕ
  max_age = w.sessions.max_age

  after_naming : Text → World
  after_naming name =
      go_to (record u { clock = name_clock }) add_event_date (name_clock 2) (name_clock 3)
        (keep (record u { clock = name_clock }) (name_data (split_name name)) (name_clock 0)
          (name_clock 1) after_button)

  abbrev pub named_input : Text → ParsedDate → NewEventInput
  named_input name d =
      gregorian_input (split_name name).0 (split_name name).1 d (detect_gender (split_name name).0)

  named_row : Text → ParsedDate → Event
  named_row name d = new_row u w.db (named_input name d)
