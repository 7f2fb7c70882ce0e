-- ===== src/Handlers/EventEdit/Handled.antt =====
-- Every handler of the editor, and what it may change in the database.
use birthly_go.Prelude.{
  ℕ, ◌≡◌, refl, sym, subst, not, ◌||◌, false, Option, none, some, List, inl, inr, Bool-cases,
  if-holds,
}
use birthly_go.Prelude.Text.{Text, codes}
use birthly_go.Core.Chars.{is_empty}
use birthly_go.Core.Hebrew.{Hdate}
use birthly_go.Fsm.State.{edit_event_choosing_field, edit_event_entering_value}
use birthly_go.Fsm.Defs.{get_state, no_data}
use birthly_go.Store.Models.{Event}
use birthly_go.Store.Database.{Database, is_none}
use birthly_go.Services.Action.{Result, ok, err, panicked}
use birthly_go.Handlers.EventAdd.{
  World, Update, prompted, passed_on, broken_off, refused_time, refused, Handler, is_in, or_empty,
  go_to, keep, forget, with_entry, number,
}
use birthly_go.Handlers.Safety.{is_saved}
use birthly_go.Handlers.EventEdit.Owned.{IsOwned, get_owned_event-cases, IsOwned-get_owned_event}
use birthly_go.Handlers.EventEdit.Stored.{IsStored, Stores, update_event-Stores}
use birthly_go.Handlers.EventEdit.Columns.{SetsColumn, stored_row-SetsColumn}
use birthly_go.Handlers.EventEdit.Edits.{
  Edits, nothing-Edits, at_step-Edits, with_event-Edits, with_event_id-Edits, told_error-unsaved,
}
use birthly_go.Handlers.EditFields.{
  set_event_field, TypedValue, not_typed, bad_time, complained, given, read_field, largest_photo,
  is_named,
}
use birthly_go.Handlers.EventEdit.{
  fsm_event_id, editing_field, with_event_id, owned_in, render_more_details, render_card,
  shown_card, back_to_fields, asked_for, pick_field, stored_by_button, edited, apply_field,
  stored_by_message, store_value, take_value, take_text, take_photo, cb_event_edit_menu,
  cb_more_details, cb_field_skip_or_done, cb_field_pick, cb_field_set_category, cb_field_set_gender,
  cb_field_set_event_type, cb_field_clear, msg_field_value, msg_field_photo,
  apply_field_from_callback,
}

-- A button, a text or a photo, with the handler that it is for.
pub data EditMessage : Type 0 where
  edit_menu : ℕ → EditMessage
  more_details skip_or_done : EditMessage
  pick_button category_button gender_button type_button clear_button : Option Text → EditMessage
  typed_text : Text → EditMessage
  sent_photo : Text → List Text → EditMessage

module _ (u : Update) (H : Hdate) where
  unfoldable pub handle_edit : EditMessage → Handler
  handle_edit (edit_menu id) = cb_event_edit_menu u id
  handle_edit more_details = cb_more_details u
  handle_edit skip_or_done = cb_field_skip_or_done u
  handle_edit (pick_button value) = cb_field_pick u value
  handle_edit (category_button value) = cb_field_set_category u H value
  handle_edit (gender_button value) = cb_field_set_gender u H value
  handle_edit (type_button value) = cb_field_set_event_type u H value
  handle_edit (clear_button value) = cb_field_clear u H value
  handle_edit (typed_text raw) = msg_field_value u H raw
  handle_edit (sent_photo photo photos) = msg_field_photo u H photo photos

  abbrev ResultOf :
      World → ℕ → Event → Text → Option Text → Result (Option Event) → Database → Type 0
  ResultOf w id e field value r db' =
      Stores H u.user u.today u.now id e (set_event_field e field value) w.db (r, db')

  render-Edits : (id : ℕ) (w w' : World) → w'.db ≡ w.db → Edits u H w (render_more_details u id w')
  unfolding render_more_details
  render-Edits id w w' same =
      with_event-Edits u H w w' (owned_in u id w') (λ e v. (prompted, v)) same
        (λ e _. nothing-Edits u H w w' prompted refl same)

  shown_card-Edits : (e : Event) (w w' : World) → w'.db ≡ w.db → Edits u H w (shown_card u e w')
  shown_card-Edits e w w' same = elim (Bool-cases (is_none e.next_occurrence)) [
    | inl gone ↦ rw gone (nothing-Edits u H w w' broken_off refl same)
    | inr there ↦ rw there (nothing-Edits u H w w' prompted refl same)
  ]

  render_card-Edits : (id : ℕ) (w w' : World) → w'.db ≡ w.db → Edits u H w (render_card u id w')
  unfolding render_card
  render_card-Edits id w w' same =
      with_event-Edits u H w w' (owned_in u id w') (shown_card u) same
        (λ e _. shown_card-Edits e w w' same)

  sets_column :
      (w : World) (id : ℕ) (e row : Event) (field : Text) (value : Option Text) (db' : Database)
      → IsStored H u.user u.today u.now id e (set_event_field e field value) w.db row db'
      → SetsColumn field value e row
  sets_column w id e row field value db' s =
      subst (SetsColumn field value e) (sym s.row_is)
        (stored_row-SetsColumn H u.user u.today u.now field value e s.computed s.recomputed)

  stored_by_message-Edits :
      (w : World) (id : ℕ) (e : Event) (field : Text) (value : Option Text)
      (r : Result (Option Event)) (db' : Database)
      → IsOwned u.user id e w.db
      → ResultOf w id e field value r db'
      → Edits u H w (stored_by_message u H (r, db') w)
  unfolding Edits
  stored_by_message-Edits w id e field value (err f) db' h (inl (bad, same)) =
      inl (told_error-unsaved u H f, same)
  stored_by_message-Edits w id e field value panicked db' h (inl (bad, same)) = inl (refl, same)
  stored_by_message-Edits w id e field value (ok r) db' h (inl (bad, same)) = cc
  stored_by_message-Edits w id e field value (ok (some x)) db' h (inr (row, there, s)) =
      inr (record {
        id = id;
        field = field;
        value = value;
        before = e;
        row = row;
        owned_before = h;
        kept_row = s;
        sets = sets_column w id e row field value db' s;
        told = cc;
      })
  stored_by_message-Edits w id e field value (ok none) db' h (inr (row, there, s)) = cc
  stored_by_message-Edits w id e field value (err f) db' h (inr (row, there, s)) = cc
  stored_by_message-Edits w id e field value panicked db' h (inr (row, there, s)) = cc

  stored_by_button-Edits :
      (w : World) (id : ℕ) (e : Event) (field : Text) (value : Option Text)
      (r : Result (Option Event)) (db' : Database)
      → IsOwned u.user id e w.db
      → ResultOf w id e field value r db'
      → Edits u H w (stored_by_button u H id (r, db') w)
  unfolding Edits
  stored_by_button-Edits w id e field value (err f) db' h (inl (bad, same)) =
      inl (told_error-unsaved u H f, same)
  stored_by_button-Edits w id e field value panicked db' h (inl (bad, same)) = inl (refl, same)
  stored_by_button-Edits w id e field value (ok r) db' h (inl (bad, same)) = cc
  stored_by_button-Edits w id e field value (ok x) db' h (inr (row, there, s)) =
      rw (IsOwned-get_owned_event u.user id row db' s.owned) (
        inr (record {
          id = id;
          field = field;
          value = value;
          before = e;
          row = row;
          owned_before = h;
          kept_row = s;
          sets = sets_column w id e row field value db' s;
          told = refl;
        }))
  stored_by_button-Edits w id e field value (err f) db' h (inr (row, there, s)) = cc
  stored_by_button-Edits w id e field value panicked db' h (inr (row, there, s)) = cc

  -- An event that the service finds is the user's.
  owned_in-IsOwned :
      (id : ℕ) (e : Event) (w : World) → owned_in u id w ≡ ok e → IsOwned u.user id e w.db
  owned_in-IsOwned id e w there = elim (get_owned_event-cases u.user id w.db) [
    | inl gone ↦ absurd cc
    | inr (x, found, h) ↦ let same : x ≡ e = cc in subst (λ y. IsOwned u.user id y w.db) same h
  ]

  apply_field-Edits :
      (field : Text) (value : Option Text) (w : World) → Edits u H w (apply_field u H field value w)
  unfolding apply_field
  apply_field-Edits field value w = with_event_id-Edits u H w w (fsm_event_id u w) _ refl (λ id.
      with_event-Edits u H w w (owned_in u id w)
        (λ e. stored_by_button u H id (edited u H e field value w)) refl
        (λ e there.
          let h = owned_in-IsOwned id e w there in
          stored_by_button-Edits w id e field value _ _ h
            (update_event-Stores H u.user u.today u.now id e field value w.db h)))

  store_value-Edits :
      (id : ℕ) (field value : Text) (w : World) → Edits u H w (store_value u H id field value w)
  unfolding store_value
  store_value-Edits id field value w =
      with_event-Edits u H w w (owned_in u id w)
        (λ e. stored_by_message u H (edited u H e field (some value) w)) refl
        (λ e there.
          let h = owned_in-IsOwned id e w there in
          stored_by_message-Edits w id e field (some value) _ _ h
            (update_event-Stores H u.user u.today u.now id e field (some value) w.db h))

  take_value-Edits :
      (id : ℕ) (field : Text) (v : TypedValue) (w : World)
      → Edits u H w (take_value u H id field v w)
  take_value-Edits id field not_typed w = nothing-Edits u H w w passed_on refl refl
  take_value-Edits id field bad_time w = nothing-Edits u H w w refused_time refl refl
  take_value-Edits id field (complained c) w = nothing-Edits u H w w (refused c) refl refl
  take_value-Edits id field (given value) w = store_value-Edits id field value w

  take_text-Edits :
      (field : Text) (id : Option ℕ) (raw : Text) (w : World)
      → Edits u H w (take_text u H field id raw w)
  take_text-Edits field none raw w = nothing-Edits u H w w passed_on refl refl
  take_text-Edits field (some id) raw w =
      elim (Bool-cases (is_empty field || is_named field "photo")) [
        | inl other ↦ rw other (nothing-Edits u H w w passed_on refl refl)
        | inr typed ↦ rw typed (take_value-Edits id field (read_field field raw) w)
      ]

  take_photo-Edits :
      (field : Text) (id : Option ℕ) (file_id : Text) (w : World)
      → Edits u H w (take_photo u H field id file_id w)
  take_photo-Edits field none file_id w = nothing-Edits u H w w passed_on refl refl
  take_photo-Edits field (some id) file_id w = elim (Bool-cases (not (is_named field "photo"))) [
    | inl other ↦ rw other (nothing-Edits u H w w passed_on refl refl)
    | inr photo ↦ rw photo (store_value-Edits id (codes "photo") file_id w)
  ]

  asked_for-unsaved : (e : Event) (field : Text) → is_saved (asked_for u e field) ≡ false
  asked_for-unsaved e field =
      if-holds (λ o. is_saved o ≡ false)
        (is_named field "category" || is_named field "gender" || is_named field "event_type") _ _
        refl refl

  back-Edits : (id : ℕ) (w : World) → Edits u H w (back_to_fields u id w)
  back-Edits id w =
      render-Edits id w (go_to u edit_event_choosing_field (u.clock 0) (u.clock 1) w) refl

  -- Whatever button, text or photo comes to the editor and whatever the session holds: either the user is
  -- not told that an event is saved, and the database is as it was; or an event of the user outside the
  -- trash is stored with one column set, which is the row that the user is told of, every other column but the
  -- occurrences and the time of the last write is as it was, and it is still the user's and outside the trash.
  pub handle_edit-Edits : (m : EditMessage) (w : World) → Edits u H w (handle_edit m w)
  unfolding handle_edit cb_event_edit_menu cb_more_details cb_field_skip_or_done cb_field_pick
      apply_field_from_callback cb_field_clear msg_field_value msg_field_photo
  handle_edit-Edits (edit_menu id) w =
      render-Edits id w
        (keep u (with_entry "event_id" (number id) no_data) (u.clock 2) (u.clock 3)
          (go_to u edit_event_choosing_field (u.clock 0) (u.clock 1) w))
        refl
  handle_edit-Edits more_details w =
      with_event_id-Edits u H w w (fsm_event_id u w) (back_to_fields u) refl (λ id. back-Edits id w)
  handle_edit-Edits skip_or_done w =
      elim (Bool-cases (is_in edit_event_choosing_field (get_state u.user.id w.sessions))) [
        | inl here ↦ rw here (
            with_event_id-Edits u H w (forget u w) (fsm_event_id u w) (render_card u) refl
              (λ id. render_card-Edits id w (forget u w) refl))
        | inr other ↦ rw other (
            at_step-Edits u H edit_event_entering_value
              (with_event_id u (fsm_event_id u w) (back_to_fields u)) w
              (with_event_id-Edits u H w w (fsm_event_id u w) (back_to_fields u) refl
                (λ id. back-Edits id w)))
      ]
  handle_edit-Edits (pick_button value) w =
      with_event_id-Edits u H w w (fsm_event_id u w) _ refl (λ id.
        with_event-Edits u H w w (owned_in u id w) (pick_field u (or_empty value)) refl (λ e _.
          nothing-Edits u H w (pick_field u (or_empty value) e w).1 _
            (asked_for-unsaved e (or_empty value)) refl))
  handle_edit-Edits (category_button value) w =
      at_step-Edits u H edit_event_entering_value (apply_field u H (codes "category") value) w
        (apply_field-Edits (codes "category") value w)
  handle_edit-Edits (gender_button value) w =
      at_step-Edits u H edit_event_entering_value (apply_field u H (codes "gender") value) w
        (apply_field-Edits (codes "gender") value w)
  handle_edit-Edits (type_button value) w =
      at_step-Edits u H edit_event_entering_value (apply_field u H (codes "event_type") value) w
        (apply_field-Edits (codes "event_type") value w)
  handle_edit-Edits (clear_button value) w =
      at_step-Edits u H edit_event_entering_value (apply_field u H (or_empty value) none) w
        (apply_field-Edits (or_empty value) none w)
  handle_edit-Edits (typed_text raw) w =
      at_step-Edits u H edit_event_entering_value
        (λ v. take_text u H (editing_field u v) (fsm_event_id u v) raw v) w
        (take_text-Edits (editing_field u w) (fsm_event_id u w) raw w)
  handle_edit-Edits (sent_photo photo photos) w =
      at_step-Edits u H edit_event_entering_value
        (λ v. take_photo u H (editing_field u v) (fsm_event_id u v) (largest_photo photo photos) v)
        w (take_photo-Edits (editing_field u w) (fsm_event_id u w) (largest_photo photo photos) w)
