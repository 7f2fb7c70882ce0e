-- ===== src/Handlers/EventAdd/Writes.antt =====
-- Every handler of the dialogue, and what it may change in the database.
use birthly_go.Prelude.{
  ℕ, ◌≡◌, refl, ◌&&◌, not, ◌==◌, Bool, true, false, Option, none, some, String, Bool-cases, inl,
  inr, if◌then◌else◌,
}
use birthly_go.Prelude.Text.{Text}
use birthly_go.Core.Hebrew.{Hdate, month_length, to_hebrew, calendar_type_gregorian}
use birthly_go.Core.InputText.{Checked, valid, invalid, validate_name, parse_hebrew_year_input}
use birthly_go.Core.DateText.{ParsedDate, parse_gregorian}
use birthly_go.Core.Civil.{Date}
use birthly_go.Fsm.Defs.{get_state}
use birthly_go.Store.Models.{Event}
use birthly_go.Store.Database.{Database}
use birthly_go.Services.Action.{Failure, Result, ok, err, panicked, limit_reached}
use birthly_go.Services.Events.{create_minimal_event}
use birthly_go.Services.Events.Calls.{perform, create, is_ok}
use birthly_go.Services.Events.Owner.{Keeps, perform-Keeps}
use birthly_go.Fsm.State.{
  State, add_event_name, add_event_date, add_event_heb_month, add_event_heb_day, add_event_heb_year,
  add_event_secondary_prompt, add_event_secondary_date, add_event_secondary_auto_confirm,
}
use birthly_go.Handlers.EventAdd.{
  World, prompted, length_known, ask, take_day, take_month, take_auto_date, as_flag, Update,
  Handler, is_in, at_step, take_name, take_date, take_secondary_date, take_year, offer_date, finish,
  input_of, data_in, finalize_event, finalize_secondary_flow, cb_menu_add, msg_add_name,
  msg_add_date, cb_add_no_year, cb_add_hebrew_track, cb_add_hebrew_month, cb_add_hebrew_day,
  msg_add_hebrew_year, cb_add_secondary_yes, cb_add_secondary_no, cb_add_secondary_auto_yes,
  cb_add_secondary_auto_manual, cb_add_secondary_auto_no, msg_add_secondary_date,
}
use birthly_go.Handlers.Safety.{in_database, Safe, at_step-Safe, nothing-Safe}

-- A button or a text, with the handler that it is for.
pub data Message : Type 0 where
  menu_add no_year hebrew_track secondary_yes secondary_no auto_yes auto_manual auto_no : Message
  hebrew_month hebrew_day : ℕ → Message
  name_text date_text year_text secondary_text : Text → Message

module _ (u : Update) (H : Hdate) (is_letter_or_number : ℕ → Bool)
    (detect_gender : Text → Option Text) (max_events : ℕ) where
  unfoldable pub handle : Message → Handler
  handle menu_add = cb_menu_add u
  handle no_year = cb_add_no_year u
  handle hebrew_track = cb_add_hebrew_track u
  handle secondary_yes = cb_add_secondary_yes u
  handle secondary_no = cb_add_secondary_no u H detect_gender max_events
  handle auto_yes = cb_add_secondary_auto_yes u H detect_gender max_events
  handle auto_manual = cb_add_secondary_auto_manual u
  handle auto_no = cb_add_secondary_auto_no u H detect_gender max_events
  handle (hebrew_month month) = cb_add_hebrew_month u H month
  handle (hebrew_day day) = cb_add_hebrew_day u day
  handle (name_text s) = msg_add_name u is_letter_or_number s
  handle (date_text s) = msg_add_date u H detect_gender max_events s
  handle (year_text s) = msg_add_hebrew_year u H s
  handle (secondary_text s) = msg_add_secondary_date u H detect_gender max_events s

  finish-Safe :
      (r : Result Event) (db' : Database) (w : World)
      → Keeps u.user.id w.db (is_ok r, db')
      → Safe u w (finish u H detect_gender max_events (r, db') w)
  unfolding Safe
  finish-Safe (ok e) db' w k = k
  finish-Safe (err limit_reached) db' w k = k
  finish-Safe (err Failure.not_found) db' w k = k
  finish-Safe (err Failure.no_such_month) db' w k = k
  finish-Safe (err Failure.constraint_failed) db' w k = k
  finish-Safe panicked db' w k = k

  finalize_event-Safe :
      (month day : ℕ) (year : Option ℕ) (calendar_type : String)
      (secondary_month secondary_day : Option ℕ) (w : World)
      → Safe u w (
          finalize_event u H detect_gender max_events month day year calendar_type secondary_month
            secondary_day w)
  unfolding finalize_event perform
  finalize_event-Safe month day year calendar_type secondary_month secondary_day w =
      let input =
        input_of u H detect_gender max_events (data_in u w) month day year calendar_type
          secondary_month secondary_day in
      let made = create_minimal_event H u.user u.today input max_events u.now w.db in
      finish-Safe made.0 made.1 w
        (perform-Keeps H u.user u.today (create input max_events u.now) w.db)

  secondary-Safe :
      (secondary_month secondary_day : Option ℕ) (w : World)
      → Safe u w
          (finalize_secondary_flow u H detect_gender max_events secondary_month secondary_day w)
  unfolding finalize_secondary_flow
  secondary-Safe secondary_month secondary_day w =
      finalize_event-Safe _ _ _ _ secondary_month secondary_day w

  take_name-Safe : (c : Checked Text) (w : World) → Safe u w (take_name u is_letter_or_number c w)
  take_name-Safe (valid name) w = nothing-Safe u w _ _ refl refl
  take_name-Safe (invalid complaint) w = nothing-Safe u w _ _ refl refl

  take_date-Safe :
      (d : Option ParsedDate) (w : World) → Safe u w (take_date u H detect_gender max_events d w)
  take_date-Safe none w = nothing-Safe u w _ _ refl refl
  take_date-Safe (some d) w =
      finalize_event-Safe d.month d.day d.year calendar_type_gregorian none none w

  take_secondary_date-Safe :
      (d : Option ParsedDate) (w : World)
      → Safe u w (take_secondary_date u H detect_gender max_events d w)
  take_secondary_date-Safe none w = nothing-Safe u w _ _ refl refl
  take_secondary_date-Safe (some d) w = secondary-Safe (some d.month) (some d.day) w

  offer_date-Safe : (w w' : World) (d : Option Date) → w'.db ≡ w.db → Safe u w (offer_date u H d w')
  offer_date-Safe w w' none same = nothing-Safe u w _ _ refl same
  offer_date-Safe w w' (some d) same = nothing-Safe u w _ _ refl same

  take_year-Safe : (c : Checked ℕ) (w : World) → Safe u w (take_year u H c w)
  take_year-Safe (invalid complaint) w = nothing-Safe u w _ _ refl refl
  take_year-Safe (valid year) w = offer_date-Safe w _ _ refl

  ask-Safe : (step next : State) (w : World) → Safe u w (at_step u step (ask u next) w)
  ask-Safe step next w =
      at_step-Safe u step (ask u next) w (nothing-Safe u w (ask u next w).1 prompted refl refl)

  pick-Safe :
      (b : Bool) (length : Option ℕ) (w w1 w2 : World)
      → w1.db ≡ w.db
      → w2.db ≡ w.db
      → Safe u w (if b then (prompted, w1) else (length_known u H length, w2))
  pick-Safe true length w w1 w2 s1 s2 = nothing-Safe u w w1 prompted refl s1
  pick-Safe false none w w1 w2 s1 s2 = nothing-Safe u w w2 (length_known u H none) refl s2
  pick-Safe false (some n) w w1 w2 s1 s2 = nothing-Safe u w w2 prompted refl s2

  -- Whatever button or text comes to the dialogue and whatever the session holds, the handler leaves the
  -- other users' events and all users, rules and log rows as they are, and it changes nothing at all in the
  -- database unless it tells the user that an event is saved.
  pub handle-Keeps : (m : Message) (w : World) → Keeps u.user.id w.db (in_database (handle m w))
  unfolding handle Safe cb_menu_add msg_add_name msg_add_date cb_add_no_year cb_add_hebrew_track
      cb_add_hebrew_month cb_add_hebrew_day msg_add_hebrew_year cb_add_secondary_yes
      cb_add_secondary_no cb_add_secondary_auto_yes cb_add_secondary_auto_manual
      cb_add_secondary_auto_no msg_add_secondary_date
  handle-Keeps menu_add w = nothing-Safe u w (ask u add_event_name w).1 prompted refl refl
  handle-Keeps no_year w =
      elim (Bool-cases (is_in add_event_date (get_state u.user.id w.sessions))) [
        | inl here ↦ rw here (nothing-Safe u w w prompted refl refl)
        | inr other ↦ rw other (ask-Safe add_event_heb_year add_event_secondary_prompt w)
      ]
  handle-Keeps hebrew_track w = ask-Safe add_event_date add_event_heb_month w
  handle-Keeps secondary_yes w = ask-Safe add_event_secondary_prompt add_event_secondary_date w
  handle-Keeps secondary_no w =
      at_step-Safe u add_event_secondary_prompt
        (finalize_secondary_flow u H detect_gender max_events none none) w
        (secondary-Safe none none w)
  handle-Keeps auto_yes w =
      at_step-Safe u add_event_secondary_auto_confirm (take_auto_date u H detect_gender max_events)
        w (secondary-Safe _ _ w)
  handle-Keeps auto_manual w = ask-Safe add_event_secondary_auto_confirm add_event_secondary_date w
  handle-Keeps auto_no w =
      at_step-Safe u add_event_secondary_auto_confirm
        (finalize_secondary_flow u H detect_gender max_events none none) w
        (secondary-Safe none none w)
  handle-Keeps (hebrew_month month) w =
      at_step-Safe u add_event_heb_month (take_month u H month) w (
        pick-Safe (month == 12 && not (as_flag (data_in u w "adar_choice_shown")))
          (month_length H (to_hebrew H u.current).year month) w _ _ refl refl)
  handle-Keeps (hebrew_day day) w =
      at_step-Safe u add_event_heb_day (take_day u day) w
        (nothing-Safe u w (take_day u day w).1 prompted refl refl)
  handle-Keeps (name_text s) w =
      let c = validate_name is_letter_or_number s in
      at_step-Safe u add_event_name (take_name u is_letter_or_number c) w (take_name-Safe c w)
  handle-Keeps (date_text s) w =
      let d = parse_gregorian u.current.year s in
      at_step-Safe u add_event_date (take_date u H detect_gender max_events d) w
        (take_date-Safe d w)
  handle-Keeps (year_text s) w =
      let c = parse_hebrew_year_input H s in
      at_step-Safe u add_event_heb_year (take_year u H c) w (take_year-Safe c w)
  handle-Keeps (secondary_text s) w =
      let d = parse_gregorian u.current.year s in
      at_step-Safe u add_event_secondary_date (take_secondary_date u H detect_gender max_events d) w
        (take_secondary_date-Safe d w)
