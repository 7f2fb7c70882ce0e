-- ===== src/Scheduler/Tracks.antt =====
-- The tracks of an event and the rules that apply to it (jobs.go).
use birthly_go.Prelude.{
  ℕ, Bool, false, not, ◌&&◌, ◌==◌, if◌then◌else◌, List, [], ◌∷◌, ◌++◌, Option, none, some, String,
  str_eq, filterb, any,
}
use birthly_go.Core.Civil.{Date, equal}
use birthly_go.Core.Hebrew.{calendar_type_gregorian}
use birthly_go.Store.Models.{Event, ReminderRule}
use birthly_go.Store.Database.{is_none}

pub record OccurrenceTrack : Type 0 where
  pub calendar_type : String
  pub occurrence : Option Date

abbrev pub gregorian_unless : Option String → String
gregorian_unless none = calendar_type_gregorian
gregorian_unless (some calendar_type) = calendar_type

unfoldable pub secondary_calendar_type : Event → String
secondary_calendar_type event = gregorian_unless event.secondary_calendar_type

-- The primary track always, the secondary one where it is set and has an occurrence.
unfoldable pub event_tracks : Event → List OccurrenceTrack
unfolding secondary_calendar_type
event_tracks event =
    let primary : OccurrenceTrack = record {
      calendar_type = event.calendar_type;
      occurrence = event.next_occurrence;
    } in
    if not (is_none event.secondary_month)
      && not (is_none event.secondary_day)
      && not (is_none event.secondary_next_occurrence)
    then primary
      ∷ record {
        calendar_type = secondary_calendar_type event;
        occurrence = event.secondary_next_occurrence;
      }
      ∷ []
    else primary ∷ []

unfoldable pub track_label : Event → String → String
track_label event calendar_type =
    if str_eq calendar_type event.calendar_type then "primary" else "secondary"

abbrev pub is_at : Option Date → Date → Bool
is_at none d = false
is_at (some t) d = equal t d

unfoldable pub resolve_track_calendar_type : Event → Date → String
unfolding secondary_calendar_type
resolve_track_calendar_type event occurrence_date =
    if is_at event.secondary_next_occurrence occurrence_date
    then secondary_calendar_type event
    else event.calendar_type

abbrev pub is_global : ReminderRule → Bool
is_global r = is_none r.event_id

abbrev pub is_for : ℕ → ReminderRule → Bool
is_for event_id r = elim r.event_id [ none ↦ false | some id ↦ id == event_id ]

abbrev pub has_offset : ℕ → ReminderRule → Bool
has_offset days r = elim r.offset_days [ none ↦ false | some d ↦ d == days ]

-- A rule of the event has the same offset in days.
abbrev pub is_overridden : List ReminderRule → ReminderRule → Bool
is_overridden specific r = elim r.offset_days [
  | none ↦ false
  | some d ↦ any (has_offset d) specific
]

-- The event's own rules, then the global rules whose offset in days they do not override.
unfoldable pub applicable_rules : List ReminderRule → Event → List ReminderRule
applicable_rules rules event =
    let specific = filterb (is_for event.id) rules in
    specific ++ filterb (λ r. not (is_overridden specific r)) (filterb is_global rules)
