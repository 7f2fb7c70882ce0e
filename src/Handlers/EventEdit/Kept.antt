-- ===== src/Handlers/EventEdit/Kept.antt =====
-- What the editor leaves alone, and a text that is typed for a field.
use birthly_go.Prelude.{
  ℕ, ◌≡◌, refl, sym, ◌∙◌, subst, ◌||◌, true, false, Option, none, some, [], ◌∷◌, inl, inr,
  Bool-cases, ◌<◌,
}
use birthly_go.Prelude.Text.{Text, codes, text_eq, text_eq_iff}
use birthly_go.Prelude.Int.{pos}
use birthly_go.Core.Chars.{is_empty}
use birthly_go.Core.Hebrew.{Hdate}
use birthly_go.Scheduler.Clock.{parse_hhmm}
use birthly_go.Fsm.State.{edit_event_entering_value}
use birthly_go.Fsm.Defs.{get_state}
use birthly_go.Store.Models.{Event}
use birthly_go.Store.Database.{update_events, find_event}
use birthly_go.Store.Events.{event_checks, update_event_row}
use birthly_go.Store.EventLaws.{others-update_events}
use birthly_go.Services.Action.{ok}
use birthly_go.Services.Events.{recompute_occurrence, update_event}
use birthly_go.Services.Events.Owner.{Keeps, Keeps-refl}
use birthly_go.Handlers.EventAdd.{World, Update, Outcome, saved, is_in}
use birthly_go.Handlers.Safety.{in_database}
use birthly_go.Handlers.EventEdit.Owned.{
  IsOwned, IsOwned-get_owned_event, stored_row, find_event-id, set_event_field-id,
  recompute_occurrence-id, recompute_occurrence-event_time, find_event-update_events,
}
use birthly_go.Handlers.EventEdit.Columns.{
  Column, column_name, SetsColumn, stored_row-SetsColumn, named_column,
}
use birthly_go.Handlers.EventEdit.Edits.{Edits}
use birthly_go.Handlers.EventEdit.Handled.{EditMessage, handle_edit, handle_edit-Edits}
use birthly_go.Handlers.EventEdit.Time.{read_time-parse_hhmm}
use birthly_go.Handlers.EditFields.{
  set_event_field, read_field, read_time, given, not_typed, typed_time, is_named,
}
use birthly_go.Handlers.EventEdit.{fsm_event_id, editing_field, msg_field_value}

module _ (u : Update) (H : Hdate) where
  Edits-Keeps :
      (w : World) (r : Outcome × World) → Edits u H w r → Keeps u.user.id w.db (in_database r)
  unfolding Edits
  Edits-Keeps w r (inl (unsaved, same)) = rw (unsaved, same) (Keeps-refl u.user.id w.db false)
  Edits-Keeps w r (inr e) =
      rw (e.told, e.kept_row.changed)
        (record {
          same_others = others-update_events u.user.id e.kept_row.computed u.now w.db.events;
          same_users = refl;
          same_rules = refl;
          same_logs = refl;
          same_on_error = λ h. cc;
        })

  -- Whatever button, text or photo comes to the editor and whatever the session holds, the handler leaves
  -- the other users' events and all users, rules and log rows as they are, and it changes nothing at all in
  -- the database unless it tells the user that an event is saved.
  pub handle_edit-Keeps :
      (m : EditMessage) (w : World) → Keeps u.user.id w.db (in_database (handle_edit u H m w))
  handle_edit-Keeps m w = Edits-Keeps w (handle_edit u H m w) (handle_edit-Edits u H m w)

  not_photo :
      (field raw value : Text)
      → read_field field raw ≡ given value
      → (is_empty field || is_named field "photo") ≡ false
  unfolding read_field text_eq
  not_photo [] raw value h = cc
  not_photo (c ∷ s) raw value h = elim (Bool-cases (is_named (c ∷ s) "photo")) [
    | inl photo ↦
        let same : c ∷ s ≡ codes "photo" = (text_eq_iff (c ∷ s) (codes "photo")).0 photo in
        let none_read : not_typed ≡ given value =
          subst (λ f. read_field f raw ≡ given value) same h in
        cc
    | inr other ↦ other
  ]

  -- The session waits for a value of a field of an event of the user, and the value is taken.
  pub record IsTyped (w : World) (raw value : Text) (e computed : Event) : Type 0 where
    pub at_value : is_in edit_event_entering_value (get_state u.user.id w.sessions) ≡ true
    pub id : ℕ
    pub names : fsm_event_id u w ≡ some id
    pub reads : read_field (editing_field u w) raw ≡ given value
    pub owned : IsOwned u.user id e w.db
    pub computes :
        recompute_occurrence H u.user u.today (set_event_field e (editing_field u w) (some value))
        ≡ ok computed
    pub checks : event_checks computed ≡ true

  abbrev pub typed_event : (w : World) → Text → Event → Event
  typed_event w value e = set_event_field e (editing_field u w) (some value)

  typed-id :
      (w : World) (raw value : Text) (e computed : Event)
      → (h : IsTyped w raw value e computed) → computed.id ≡ h.id
  typed-id w raw value e computed h =
      recompute_occurrence-id H u.user u.today _ computed h.computes
      ∙ set_event_field-id e (editing_field u w) (some value)
      ∙ find_event-id h.id u.user.id e w.db.events h.owned.found

  update-stored :
      (w : World) (raw value : Text) (e computed : Event)
      → (h : IsTyped w raw value e computed)
      → update_event H u.user u.today
          (set_event_field e (editing_field u w) (some value))
          u.now
          w.db
        ≡ (
          ok (some (stored_row e computed u.now)),
          record w.db { events = update_events u.user.id computed u.now w.db.events },
        )
  unfolding update_event update_event_row
  update-stored w raw value e computed h =
      let same = typed-id w raw value e computed h in
      let there : find_event computed.id u.user.id w.db.events ≡ some e = rw same h.owned.found in
      let back =
        find_event-update_events computed.id u.user.id u.now computed e w.db.events refl there in
      rw (h.computes, there, h.checks, back) refl

  msg_field_value-stored :
      (w : World) (raw value : Text) (e computed : Event)
      → (h : IsTyped w raw value e computed)
      → ((msg_field_value u H raw w).0 ≡ saved (stored_row e computed u.now))
        × ((msg_field_value u H raw w).1.db
            ≡ record w.db { events = update_events u.user.id computed u.now w.db.events })
  unfolding msg_field_value
  msg_field_value-stored w raw value e computed h =
      rw
        (
          h.at_value,
          h.names,
          not_photo (editing_field u w) raw value h.reads,
          h.reads,
          IsOwned-get_owned_event u.user h.id e w.db h.owned,
          update-stored w raw value e computed h,
        )
        (refl, refl)

  -- Where the session waits for a value of a field of an event of the user, the field is typed, the text
  -- is a value for it, and the event with that value has its next occurrences and passes the checks of
  -- the table: the user is told of a row that is saved, in which the column that the field names has the
  -- value and every other column but the occurrences and the time of the last write is as it was, and the
  -- event is what the table gives for its number.
  pub msg_field_value-saved :
      (w : World) (raw value : Text) (e computed : Event)
      → (h : IsTyped w raw value e computed)
      → (row : Event) × (column : Column) × (editing_field u w ≡ codes (column_name column))
        × SetsColumn (editing_field u w) (some value) e row
        × ((msg_field_value u H raw w).0 ≡ saved row)
        × IsOwned u.user h.id row (msg_field_value u H raw w).1.db
  msg_field_value-saved w raw value e computed h =
      let (column, named) = named_column (editing_field u w) raw value h.reads in
      let (told, stored) = msg_field_value-stored w raw value e computed h in
      (
        stored_row e computed u.now,
        column,
        named,
        stored_row-SetsColumn H u.user u.today u.now (editing_field u w) (some value) e computed
            h.computes,
        told,
        subst (IsOwned u.user h.id (stored_row e computed u.now)) (sym stored) (record {
          found =
              find_event-update_events h.id u.user.id u.now computed e w.db.events
                (typed-id w raw value e computed h) h.owned.found;
          live_still = h.owned.live_still;
        }),
      )

  time_field :
      (e : Event) (t : Text) → (set_event_field e (codes "event_time") (some t)).event_time ≡ some t
  unfolding set_event_field text_eq
  time_field e t = refl

  time_read :
      (raw t : Text) → read_field (codes "event_time") raw ≡ given t → read_time raw ≡ some t
  unfolding read_field text_eq
  time_read raw t h = of_typed (read_time raw) h
    where
      of_typed : (o : Option Text) → typed_time o ≡ given t → o ≡ some t
      of_typed none h = cc
      of_typed (some s) h = cc

  -- Where the field that is typed is the time of the event, and its value is taken and stored as above: the
  -- row that the user is told of has a time that the reminder engine reads, with an hour from 0 to 23 and a
  -- minute from 0 to 59.
  pub msg_field_value-time :
      (w : World) (raw value : Text) (e computed : Event)
      → editing_field u w ≡ codes "event_time"
      → (h : IsTyped w raw value e computed)
      → ((msg_field_value u H raw w).0 ≡ saved (stored_row e computed u.now))
        × ((stored_row e computed u.now).event_time ≡ some value)
        × ((hour : ℕ) × (minute : ℕ) × (parse_hhmm value ≡ some (pos hour, pos minute))
            × (hour < 24)
            × (minute < 60))
  msg_field_value-time w raw value e computed field h = (
    (msg_field_value-stored w raw value e computed h).0,
    recompute_occurrence-event_time H u.user u.today (typed_event w value e) computed h.computes
        ∙ (rw field (time_field e value)),
    (read_time-parse_hhmm raw value (time_read raw value (rw⁻¹ field h.reads))).0,
  )
