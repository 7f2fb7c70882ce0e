-- ===== src/Services/Events.antt =====
-- internal/services/event_service.go. `today` is what `UserToday` returns for the user, and `now` the time
-- that a write reads.
pub mod Counts
pub mod Owner
pub mod Calls
use birthly_go.Prelude.{
  ℕ, Bool, true, false, not, ◌&&◌, leb, if◌then◌else◌, Option, none, some, String, str_eq,
}
use birthly_go.Prelude.Text.{Text, codes}
use birthly_go.Core.Civil.{Date}
use birthly_go.Core.Hebrew.{
  Hdate, Occurrence, found, no_such_month, unreachable, next_occurrence, calendar_type_gregorian,
  calendar_type_hebrew,
}
use birthly_go.Store.Models.{User, Event}
use birthly_go.Store.Database.{Database, is_none, find_event}
use birthly_go.Store.Events.{
  count_not_deleted, create_event, update_event_row, soft_delete, restore,
}
use birthly_go.Services.Action.{
  Failure, limit_reached, not_found, constraint_failed, Result, ok, err, panicked, Action, pure,
  fail, lift, stored, or_fail, and_then, continue_with,
}

pub record NewEventInput : Type 0 where
  pub first_name : Text
  pub last_name : Option Text
  pub month : ℕ
  pub day : ℕ
  pub year : Option ℕ
  pub calendar_type : String
  pub gender : Option Text
  pub secondary_month : Option ℕ
  pub secondary_day : Option ℕ

abbrev pub or_gregorian : String → String
or_gregorian calendar_type =
    if str_eq calendar_type "" then calendar_type_gregorian else calendar_type

-- The fields that the source leaves to their zero values are those of Go; the row's own numbers and times
-- are the database's.
abbrev pub minimal_event : NewEventInput → Event
minimal_event input = record {
  id = 0;
  user_id = 0;
  event_type = codes "birthday";
  custom_type_label = none;
  first_name = input.first_name;
  last_name = input.last_name;
  nickname = none;
  gender = input.gender;
  relation = none;
  category = codes "other";
  calendar_type = or_gregorian input.calendar_type;
  year = input.year;
  month = input.month;
  day = input.day;
  event_time = none;
  phone = none;
  telegram_username = none;
  photo_file_id = none;
  notes = none;
  next_occurrence = none;
  secondary_calendar_type = none;
  secondary_month = none;
  secondary_day = none;
  secondary_next_occurrence = none;
  is_active = true;
  deleted_at = none;
  created_at = 0;
  updated_at = 0;
}

abbrev pub with_secondary : Event → Option ℕ → Option ℕ → Event
with_secondary e (some month) (some day) =
    if str_eq e.calendar_type calendar_type_hebrew
    then record e {
      secondary_calendar_type = some calendar_type_gregorian;
      secondary_month = some month;
      secondary_day = some day;
    }
    else e
with_secondary e _ _ = e

abbrev pub event_of : NewEventInput → Event
event_of input = with_secondary (minimal_event input) input.secondary_month input.secondary_day

abbrev pub or_gregorian_type : Option String → String
or_gregorian_type none = calendar_type_gregorian
or_gregorian_type (some calendar_type) = calendar_type

abbrev pub date_result : Occurrence → Result Date
date_result (found d) = ok d
date_result Occurrence.no_such_month = err Failure.no_such_month
date_result unreachable = panicked

abbrev pub set_secondary : Event → Result Date → Result Event
set_secondary e (ok d) = ok (record e { secondary_next_occurrence = some d })
set_secondary e (err f) = err f
set_secondary e panicked = panicked

module _ (H : Hdate) (user : User) (today : Date) where
  abbrev pub occurrence_of : String → ℕ → ℕ → Result Date
  occurrence_of calendar_type month day =
      date_result
        (next_occurrence H calendar_type month day today user.adar_policy user.feb29_policy)

  abbrev pub recompute_secondary : Event → Option ℕ → Option ℕ → Result Event
  recompute_secondary e (some month) (some day) =
      set_secondary e (occurrence_of (or_gregorian_type e.secondary_calendar_type) month day)
  recompute_secondary e _ _ = ok (record e { secondary_next_occurrence = none })

  abbrev pub set_primary : Event → Result Date → Result Event
  set_primary e (ok d) =
      recompute_secondary (record e { next_occurrence = some d }) e.secondary_month e.secondary_day
  set_primary e (err f) = err f
  set_primary e panicked = panicked

  unfoldable pub recompute_occurrence : Event → Result Event
  recompute_occurrence e = set_primary e (occurrence_of e.calendar_type e.month e.day)

  unfoldable pub create_minimal_event : NewEventInput → ℕ → ℕ → Action Event
  create_minimal_event input max_events_per_user now db =
      if leb max_events_per_user (count_not_deleted user.id db.events)
      then (err limit_reached, db)
      else and_then (lift (recompute_occurrence (event_of input)))
          (λ e d. stored (create_event user.id e now d) d) db

  -- The row that is read back is missing where the event is not the user's.
  unfoldable pub update_event : Event → ℕ → Action (Option Event)
  update_event e now =
      and_then (lift (recompute_occurrence e)) (λ r d. stored (update_event_row user.id r now d) d)

module _ (user : User) where
  abbrev pub live : Option Event → Option Event
  live none = none
  live (some e) = if is_none e.deleted_at then some e else none

  unfoldable pub get_owned_event : ℕ → Action Event
  get_owned_event id db = or_fail (live (find_event id user.id db.events)) not_found db

  unfoldable pub delete_event : ℕ → ℕ → Action Event
  delete_event id now = and_then (get_owned_event id) (λ e d. (ok e, soft_delete id user.id now d))

  unfoldable pub restore_event : ℕ → Action Event
  restore_event id =
      and_then (λ d. or_fail (find_event id user.id d.events) not_found d)
        (λ e d. (ok (record e { deleted_at = none }), restore id user.id d))

  unfoldable pub toggle_mute : ℕ → ℕ → Action (Option Event)
  toggle_mute id now =
      and_then (get_owned_event id) (λ e d.
        stored (update_event_row user.id (record e { is_active = not e.is_active }) now d) d)
