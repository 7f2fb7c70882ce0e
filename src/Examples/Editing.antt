-- ===== src/Examples/Editing.antt =====
-- A user who types a time for an event.
use birthly_go.Prelude.{◌≡◌, refl, true, some, ℕ, ◌<◌}
use birthly_go.Prelude.Int.{pos}
use birthly_go.Prelude.Text.{codes, text_eq}
use birthly_go.Core.Civil.{
  date, days_in_month, is_leap, ordinal, days_before_year, time_date, carry_days, days_before_month,
}
use birthly_go.Core.Gregorian.{next_gregorian_occurrence, occurrence_in, must_date, resolve_feb29}
use birthly_go.Core.Hebrew.{next_occurrence}
use birthly_go.Scheduler.Clock.{parse_hhmm, cut_colon}
use birthly_go.Store.Models.{Event}
use birthly_go.Store.Database.{find_event}
use birthly_go.Store.Events.{event_checks}
use birthly_go.Services.Action.{ok}
use birthly_go.Services.Events.{recompute_occurrence}
use birthly_go.Fsm.State.{wire, edit_event_entering_value}
use birthly_go.Fsm.Defs.{
  new_store, set_state, update_data, no_data, get_state, get_data, touch, modify, evict_stale,
}
use birthly_go.Prelude.Assoc.{lookup, insert, retain}
use birthly_go.Core.DateText.Format.{pad}
use birthly_go.Prelude.Decimal.{digits_of}
use birthly_go.Core.Chars.{trim_space, drop_trailing, drop_leading, is_space}
use birthly_go.Handlers.EventAdd.{is_in, World, number, text, with_entry, saved}
use birthly_go.Handlers.EditFields.{given, read_field, read_time, set_event_field}
use birthly_go.Handlers.EventEdit.{fsm_event_id, editing_field, msg_field_value}
use birthly_go.Handlers.EventEdit.Owned.{stored_row, IsOwned}
use birthly_go.Handlers.EventEdit.Columns.{Column, column_name, SetsColumn}
use birthly_go.Handlers.EventEdit.Edits.{Edits}
use birthly_go.Handlers.EventEdit.Handled.{handle_edit, handle_edit-Edits, typed_text}
use birthly_go.Handlers.EventEdit.Kept.{IsTyped, msg_field_value-saved, msg_field_value-time}
use birthly_go.Examples.Calendar.{shifted}
use birthly_go.Examples.Ticks.{db, event}
use birthly_go.Examples.Adding.{update}

abbrev time_world : World
time_world = record {
  sessions = set_state 7 edit_event_entering_value 102 103 (
      update_data 7
        (with_entry "event_id" (number 3)
          (with_entry "editing_field" (text (codes "event_time")) no_data))
        100 101 (new_store 1000 3));
  db = db;
}

abbrev timed_event : Event
timed_event = record event {
  event_time = some (codes "08:05");
  next_occurrence = some (date 2025 4 10);
}

next_birthday : next_gregorian_occurrence 4 10 (date 2025 3 1) "feb28" ≡ date 2025 4 10
unfolding next_gregorian_occurrence occurrence_in must_date resolve_feb29 days_in_month ordinal
    days_before_year time_date carry_days days_before_month is_leap
next_birthday = refl

session_typed :
    (is_in edit_event_entering_value (get_state 7 time_world.sessions) ≡ true)
    × (fsm_event_id update time_world ≡ some 3)
    × (editing_field update time_world ≡ codes "event_time")
unfolding set_state update_data new_store get_state get_data touch modify evict_stale insert lookup
    retain wire
session_typed = (refl, refl, refl)

value_typed : read_field (codes "event_time") (codes " 8:05") ≡ given (codes "08:05")
unfolding read_field read_time text_eq cut_colon pad digits_of trim_space drop_trailing drop_leading
    is_space
value_typed = refl

event-IsOwned : IsOwned update.user 3 event db
unfolding find_event
event-IsOwned = record { found = refl; live_still = refl }

event_computed :
    recompute_occurrence shifted update.user update.today
      (set_event_field event (codes "event_time") (some (codes "08:05")))
    ≡ ok timed_event
unfolding recompute_occurrence set_event_field text_eq next_occurrence
event_computed = rw next_birthday refl

event_checked : event_checks timed_event ≡ true
unfolding event_checks text_eq
event_checked = refl

time-IsTyped : IsTyped update shifted time_world (codes " 8:05") (codes "08:05") event timed_event
time-IsTyped = record {
  at_value = session_typed.0;
  id = 3;
  names = session_typed.1;
  reads = rw session_typed.2 value_typed;
  owned = event-IsOwned;
  computes = rw session_typed.2 event_computed;
  checks = event_checked;
}

handle_edit-Edits_example :
    Edits update shifted time_world
      (handle_edit update shifted (typed_text (codes " 8:05")) time_world)
handle_edit-Edits_example = handle_edit-Edits update shifted (typed_text (codes " 8:05")) time_world

msg_field_value-saved_example :
    (row : Event) × (column : Column) × (editing_field update time_world
      ≡ codes (column_name column))
    × SetsColumn (editing_field update time_world) (some (codes "08:05")) event row
    × ((msg_field_value update shifted (codes " 8:05") time_world).0 ≡ saved row)
    × IsOwned update.user time-IsTyped.id row
        (msg_field_value update shifted (codes " 8:05") time_world).1.db
msg_field_value-saved_example =
    msg_field_value-saved update shifted time_world (codes " 8:05") (codes "08:05") event
      timed_event time-IsTyped

msg_field_value-time_example :
    ((msg_field_value update shifted (codes " 8:05") time_world).0
      ≡ saved (stored_row event timed_event 60))
    × ((stored_row event timed_event 60).event_time ≡ some (codes "08:05"))
    × ((hour : ℕ) × (minute : ℕ) × (parse_hhmm (codes "08:05") ≡ some (pos hour, pos minute))
        × (hour < 24)
        × (minute < 60))
msg_field_value-time_example =
    msg_field_value-time update shifted time_world (codes " 8:05") (codes "08:05") event timed_event
      session_typed.2 time-IsTyped
