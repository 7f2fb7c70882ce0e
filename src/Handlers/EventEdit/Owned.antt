-- ===== src/Handlers/EventEdit/Owned.antt =====
-- An event that is the user's, and what an update of its columns keeps.
use birthly_go.Prelude.{
  ℕ, ◌≡◌, refl, ap, ◌∙◌, sym, subst, true, false, ◌&&◌, ◌==◌, Option, none, some, List, [], ◌∷◌,
  ◌⊎◌, inl, inr, Bool-cases, Option-cases, if-holds, arith,
}
use birthly_go.Prelude.Text.{Text}
use birthly_go.Core.Civil.{Date}
use birthly_go.Core.Hebrew.{Hdate}
use birthly_go.Store.Models.{in_seconds, User, Event}
use birthly_go.Store.Database.{Database, find_event, update_events, is_none}
use birthly_go.Services.Action.{Result, ok, err, panicked, not_found}
use birthly_go.Services.Events.{
  recompute_occurrence, set_primary, recompute_secondary, set_secondary, live, get_owned_event,
  occurrence_of,
}
use birthly_go.Handlers.EditFields.{set_event_field, is_named}

abbrev HasId : ℕ → Event → Type 0
HasId id e = e.id ≡ id

-- A change of a field keeps the number of the event.
pub set_event_field-id :
    (e : Event) (field : Text) (value : Option Text) → (set_event_field e field value).id ≡ e.id
unfolding set_event_field
set_event_field-id e field value = if-holds (HasId e.id) (is_named field "category") _ _ refl (
    if-holds (HasId e.id) (is_named field "relation") _ _ refl (
      if-holds (HasId e.id) (is_named field "phone") _ _ refl (
        if-holds (HasId e.id) (is_named field "nickname") _ _ refl (
          if-holds (HasId e.id) (is_named field "notes") _ _ refl (
            if-holds (HasId e.id) (is_named field "gender") _ _ refl (
              if-holds (HasId e.id) (is_named field "event_time") _ _ refl (
                if-holds (HasId e.id) (is_named field "event_type") _ _ refl
                  (if-holds (HasId e.id) (is_named field "photo") _ _ refl refl))))))))

-- A computed event is the event with other occurrences.
abbrev pub OnlyDates : Event → Result Event → Type 0
OnlyDates e (ok r) =
    (next : Option Date) × (secondary : Option Date) × (r
      ≡ record e { next_occurrence = next; secondary_next_occurrence = secondary })
OnlyDates e (err f) = Unit
OnlyDates e panicked = Unit

set_secondary-OnlyDates :
    (e : Event) (next : Option Date) (d : Result Date)
    → OnlyDates e (set_secondary (record e { next_occurrence = next }) d)
set_secondary-OnlyDates e next (ok d) = (next, some d, refl)
set_secondary-OnlyDates e next (err f) = tt
set_secondary-OnlyDates e next panicked = tt

module _ (H : Hdate) (user : User) (today : Date) where
  recompute_secondary-OnlyDates :
      (e : Event) (next : Option Date) (month day : Option ℕ)
      → OnlyDates e
          (recompute_secondary H user today (record e { next_occurrence = next }) month day)
  recompute_secondary-OnlyDates e next (some month) (some day) = set_secondary-OnlyDates e next _
  recompute_secondary-OnlyDates e next (some month) none = (next, none, refl)
  recompute_secondary-OnlyDates e next none (some day) = (next, none, refl)
  recompute_secondary-OnlyDates e next none none = (next, none, refl)

  set_primary-OnlyDates : (e : Event) (d : Result Date) → OnlyDates e (set_primary H user today e d)
  set_primary-OnlyDates e (ok d) =
      recompute_secondary-OnlyDates e (some d) e.secondary_month e.secondary_day
  set_primary-OnlyDates e (err f) = tt
  set_primary-OnlyDates e panicked = tt

  pub recompute_occurrence-OnlyDates :
      (e r : Event) → recompute_occurrence H user today e ≡ ok r → OnlyDates e (ok r)
  unfolding recompute_occurrence
  recompute_occurrence-OnlyDates e r h =
      subst (OnlyDates e) h
        (set_primary-OnlyDates e (occurrence_of H user today e.calendar_type e.month e.day))

  pub recompute_occurrence-id :
      (e r : Event) → recompute_occurrence H user today e ≡ ok r → r.id ≡ e.id
  recompute_occurrence-id e r h =
      let (next, secondary, same) = recompute_occurrence-OnlyDates e r h in
      ap (λ (x : Event). x.id) same

  pub recompute_occurrence-event_time :
      (e r : Event) → recompute_occurrence H user today e ≡ ok r → r.event_time ≡ e.event_time
  recompute_occurrence-event_time e r h =
      let (next, secondary, same) = recompute_occurrence-OnlyDates e r h in
      ap (λ (x : Event). x.event_time) same

-- The row of an owner, with the columns that an update leaves.
abbrev pub stored_row : Event → Event → ℕ → Event
stored_row row e now = record e {
  user_id = row.user_id;
  deleted_at = row.deleted_at;
  created_at = row.created_at;
  updated_at = in_seconds now;
}

pub find_event-update_events :
    (id user_id now : ℕ) (e row : Event) (events : List Event)
    → e.id ≡ id
    → find_event id user_id events ≡ some row
    → find_event id user_id (update_events user_id e now events) ≡ some (stored_row row e now)
unfolding find_event update_events
find_event-update_events id user_id now e row [] same h = cc
find_event-update_events id user_id now e row (x ∷ events) same h =
    elim (Bool-cases (x.id == id && x.user_id == user_id)) [
      | inl here ↦
          let changed : (x.id == e.id && x.user_id == user_id) ≡ true = rw same here in
          let kept : (e.id == id && x.user_id == user_id) ≡ true = ground (arith, same, here) in
          let first : find_event id user_id (x ∷ events) ≡ some x = rw here refl in
          let x_row : x ≡ row = cc in rw (changed, kept) (ap (λ r. some (stored_row r e now)) x_row)
      | inr other ↦
          let unchanged : (x.id == e.id && x.user_id == user_id) ≡ false = rw same other in
          let later : find_event id user_id (x ∷ events) ≡ find_event id user_id events =
            rw other refl in
          rw (unchanged, other)
            (find_event-update_events id user_id now e row events same (sym later ∙ h))
    ]

-- An event of the user outside the trash.
pub record IsOwned (user : User) (id : ℕ) (e : Event) (db : Database) : Type 0 where
  pub found : find_event id user.id db.events ≡ some e
  pub live_still : is_none e.deleted_at ≡ true

live-IsOwned :
    (user : User) (id : ℕ) (o : Option Event) (e : Event) (db : Database)
    → find_event id user.id db.events ≡ o
    → live user o ≡ some e
    → IsOwned user id e db
live-IsOwned user id none e db there h = cc
live-IsOwned user id (some x) e db there h = elim (Bool-cases (is_none x.deleted_at)) [
  | inl good ↦
      let taken : live user (some x) ≡ some x = rw good refl in
      let same : x ≡ e = cc in
      record { found = rw (sym same) there; live_still = rw (sym same) good }
  | inr bad ↦ let gone : live user (some x) ≡ none = rw bad refl in cc
]

pub get_owned_event-cases :
    (user : User) (id : ℕ) (db : Database)
    → ((get_owned_event user id db).0 ≡ err not_found)
      ⊎ ((e : Event) × ((get_owned_event user id db).0 ≡ ok e) × IsOwned user id e db)
unfolding get_owned_event
get_owned_event-cases user id db =
    elim (Option-cases (live user (find_event id user.id db.events))) [
      | inl gone ↦ inl (rw gone refl)
      | inr (e, there) ↦
          inr (
            e,
            rw there refl,
            live-IsOwned user id (find_event id user.id db.events) e db refl there,
          )
    ]

pub IsOwned-get_owned_event :
    (user : User) (id : ℕ) (e : Event) (db : Database)
    → IsOwned user id e db
    → (get_owned_event user id db).0 ≡ ok e
unfolding get_owned_event
IsOwned-get_owned_event user id e db h = rw (h.found, h.live_still) refl

pub find_event-id :
    (id user_id : ℕ) (e : Event) (events : List Event)
    → find_event id user_id events ≡ some e
    → e.id ≡ id
unfolding find_event
find_event-id id user_id e [] h = cc
find_event-id id user_id e (x ∷ events) h = elim (Bool-cases (x.id == id && x.user_id == user_id)) [
  | inl here ↦
      let first : find_event id user_id (x ∷ events) ≡ some x = rw here refl in
      let same : x ≡ e = cc in rw (sym same) (ground (arith, here))
  | inr other ↦
      let later : find_event id user_id (x ∷ events) ≡ find_event id user_id events =
        rw other refl in
      find_event-id id user_id e events (sym later ∙ h)
]
