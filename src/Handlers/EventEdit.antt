-- ===== src/Handlers/EventEdit.antt =====
-- The editor of an event's further details, internal/bot/handlers/event_edit.go, with the state, the update
-- and the outcomes of the dialogue that adds an event. A button comes with the value that its payload holds,
-- a photo with the names of its sizes, the largest last.
pub mod Time
pub mod Owned
pub mod Columns
pub mod Stored
pub mod Edits
pub mod Handled
pub mod Kept
use birthly_go.Prelude.{
  ℕ, ◌-◌, ◌+◌, ◌*◌, Bool, true, false, not, ◌&&◌, ◌||◌, leb, ◌==◌, if◌then◌else◌, Option, none,
  some, List, [], ◌∷◌, ◌++◌, String, str_eq, any,
}
use birthly_go.Prelude.Text.{Text, codes, text_eq}
use birthly_go.Prelude.Decimal.{is_digit}
use birthly_go.Core.Chars.{is_empty, trim_space}
use birthly_go.Core.DateText.Format.{pad}
use birthly_go.Core.Hebrew.{Hdate}
use birthly_go.Core.InputText.{
  Complaint, Checked, valid, invalid, validate_nickname, validate_notes, validate_relation,
  validate_phone,
}
use birthly_go.Fsm.State.{State, wire, edit_event_choosing_field, edit_event_entering_value}
use birthly_go.Fsm.Defs.{no_data, get_state}
use birthly_go.Store.Models.{User, Event}
use birthly_go.Store.Database.{Database, is_none}
use birthly_go.Scheduler.Clock.{cut_colon}
use birthly_go.Scheduler.Plan.{or_else}
use birthly_go.Services.Action.{Failure, not_found, Result, ok, err, panicked}
use birthly_go.Services.Events.{get_owned_event, update_event}
use birthly_go.Handlers.EditFields.{
  hour_of, is_minutes, padded_time, time_at_colon, read_time, is_named, set_event_field, has_text,
  field_has_value, typed_time, typed_checked, read_field, largest_photo, TypedValue, not_typed,
  bad_time, complained, given,
}
use birthly_go.Handlers.EventAdd.{
  World, Value, text, number, Outcome, passed_on, prompted, not_found_told, broken_off, value_asked,
  refused, refused_time, saved, failed, Update, Handler, or_empty, as_text, number_in, with_entry,
  is_in, at_step, go_to, keep, forget, data_in,
}

-- What an error of a service is for the user.
abbrev pub told_error : Failure → Outcome
told_error not_found = not_found_told
told_error e = failed e

module _ (u : Update) where
  abbrev pub fsm_event_id : World → Option ℕ
  fsm_event_id w = number_in (data_in u w "event_id")

  abbrev pub editing_field : World → Text
  editing_field w = as_text (data_in u w "editing_field")

  abbrev pub with_event_id : Option ℕ → (ℕ → Handler) → Handler
  with_event_id none h w = (not_found_told, w)
  with_event_id (some id) h w = h id w

  -- Where the event is the user's and not in the trash.
  abbrev pub with_event : Result Event → (Event → Handler) → Handler
  with_event (ok e) h w = h e w
  with_event (err f) h w = (told_error f, w)
  with_event panicked h w = (broken_off, w)

  abbrev pub owned_in : ℕ → World → Result Event
  owned_in id w = (get_owned_event u.user id w.db).0

  unfoldable pub render_more_details : ℕ → Handler
  render_more_details id w = with_event (owned_in id w) (λ e v. (prompted, v)) w

  -- The card shows the next occurrence, and a missing one is a panic.
  abbrev pub shown_card : Event → Handler
  shown_card e w = (if is_none e.next_occurrence then broken_off else prompted, w)

  unfoldable pub render_card : ℕ → Handler
  render_card id w = with_event (owned_in id w) shown_card w

  unfoldable pub cb_event_edit_menu : ℕ → Handler
  unfolding render_more_details
  cb_event_edit_menu id w = render_more_details id (
      keep u (with_entry "event_id" (number id) no_data) (u.clock 2) (u.clock 3)
        (go_to u edit_event_choosing_field (u.clock 0) (u.clock 1) w))

  abbrev pub back_to_fields : ℕ → Handler
  back_to_fields id w =
      render_more_details id (go_to u edit_event_choosing_field (u.clock 0) (u.clock 1) w)

  unfoldable pub cb_more_details : Handler
  unfolding render_more_details
  cb_more_details w = with_event_id (fsm_event_id w) back_to_fields w

  unfoldable pub cb_field_skip_or_done : Handler
  unfolding at_step render_more_details render_card
  cb_field_skip_or_done w =
      if is_in edit_event_choosing_field (get_state u.user.id w.sessions)
      then with_event_id (fsm_event_id w) render_card (forget u w)
      else at_step u edit_event_entering_value (with_event_id (fsm_event_id w) back_to_fields) w

  -- A picker, or a question that says whether there is a value to clear.
  abbrev pub asked_for : Event → Text → Outcome
  asked_for e field =
      if is_named field "category" || is_named field "gender" || is_named field "event_type"
      then prompted
      else value_asked (field_has_value e field)

  abbrev pub pick_field : Text → Event → Handler
  pick_field field e w = (
    asked_for e field,
    go_to u edit_event_entering_value (u.clock 2) (u.clock 3)
        (keep u (with_entry "editing_field" (text field) no_data) (u.clock 0) (u.clock 1) w),
  )

  unfoldable pub cb_field_pick : Option Text → Handler
  unfolding field_has_value
  cb_field_pick value w =
      with_event_id (fsm_event_id w)
        (λ id v. with_event (owned_in id v) (pick_field (or_empty value)) v) w

  module _ (H : Hdate) where
    -- After the update of a row: the fields are shown again.
    abbrev pub stored_by_button : ℕ → Result (Option Event) × Database → Handler
    stored_by_button id (ok row, db') w =
        let w' =
          go_to u edit_event_choosing_field (u.clock 0) (u.clock 1) (record w { db = db' }) in
        with_event (owned_in id w') (λ e v. (saved e, v)) w'
    stored_by_button id (err f, db') w = (told_error f, record w { db = db' })
    stored_by_button id (panicked, db') w = (broken_off, record w { db = db' })

    abbrev pub edited : Event → Text → Option Text → World → Result (Option Event) × Database
    edited e field value w =
        update_event H u.user u.today (set_event_field e field value) u.now w.db

    unfoldable pub apply_field : Text → Option Text → Handler
    unfolding set_event_field
    apply_field field value w =
        with_event_id (fsm_event_id w)
          (λ id v. with_event (owned_in id v) (λ e. stored_by_button id (edited e field value v)) v)
          w

    unfoldable pub apply_field_from_callback : String → Option Text → Handler
    unfolding at_step apply_field
    apply_field_from_callback name value =
        at_step u edit_event_entering_value (apply_field (codes name) value)

    abbrev pub cb_field_set_category : Option Text → Handler
    cb_field_set_category = apply_field_from_callback "category"

    abbrev pub cb_field_set_gender : Option Text → Handler
    cb_field_set_gender = apply_field_from_callback "gender"

    abbrev pub cb_field_set_event_type : Option Text → Handler
    cb_field_set_event_type = apply_field_from_callback "event_type"

    unfoldable pub cb_field_clear : Option Text → Handler
    unfolding at_step apply_field
    cb_field_clear value = at_step u edit_event_entering_value (apply_field (or_empty value) none)

    -- After an update by a message: the answer names the row that was read back.
    abbrev pub stored_by_message : Result (Option Event) × Database → Handler
    stored_by_message (ok none, db') w = (
      broken_off,
      go_to u edit_event_choosing_field (u.clock 0) (u.clock 1) (record w { db = db' }),
    )
    stored_by_message (ok (some row), db') w = (
      saved row,
      go_to u edit_event_choosing_field (u.clock 0) (u.clock 1) (record w { db = db' }),
    )
    stored_by_message (err f, db') w = (told_error f, record w { db = db' })
    stored_by_message (panicked, db') w = (broken_off, record w { db = db' })

    unfoldable pub store_value : ℕ → Text → Text → Handler
    unfolding set_event_field
    store_value id field value w =
        with_event (owned_in id w) (λ e. stored_by_message (edited e field (some value) w)) w

    abbrev pub take_value : ℕ → Text → TypedValue → Handler
    take_value id field not_typed w = (passed_on, w)
    take_value id field bad_time w = (refused_time, w)
    take_value id field (complained complaint) w = (refused complaint, w)
    take_value id field (given value) w = store_value id field value w

    abbrev pub take_text : Text → Option ℕ → Text → Handler
    take_text field none raw w = (passed_on, w)
    take_text field (some id) raw w =
        if is_empty field || is_named field "photo"
        then (passed_on, w)
        else take_value id field (read_field field raw) w

    unfoldable pub msg_field_value : Text → Handler
    unfolding at_step store_value read_field
    msg_field_value raw =
        at_step u edit_event_entering_value
          (λ w. take_text (editing_field w) (fsm_event_id w) raw w)

    abbrev pub take_photo : Text → Option ℕ → Text → Handler
    take_photo field none file_id w = (passed_on, w)
    take_photo field (some id) file_id w =
        if not (is_named field "photo")
        then (passed_on, w)
        else store_value id (codes "photo") file_id w

    unfoldable pub msg_field_photo : Text → List Text → Handler
    unfolding at_step store_value
    msg_field_photo photo photos =
        at_step u edit_event_entering_value
          (λ w. take_photo (editing_field w) (fsm_event_id w) (largest_photo photo photos) w)
