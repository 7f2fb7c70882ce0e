-- ===== src/Handlers/EventEdit/Stored.antt =====
-- An update of an event of the user: it changes nothing, or stores a row that is read back.
use birthly_go.Prelude.{
  ℕ, ◌≡◌, refl, ◌∙◌, sym, subst, true, false, Option, some, ◌⊎◌, inl, inr, Bool-cases,
}
use birthly_go.Prelude.Text.{Text}
use birthly_go.Core.Civil.{Date}
use birthly_go.Core.Hebrew.{Hdate}
use birthly_go.Store.Models.{User, Event}
use birthly_go.Store.Database.{Database, find_event, update_events}
use birthly_go.Services.Action.{Result, ok, err, panicked, stored, continue_with}
use birthly_go.Services.Events.Calls.{is_ok}
use birthly_go.Store.Events.{update_event_row, event_checks}
use birthly_go.Services.Events.{recompute_occurrence, update_event}
use birthly_go.Handlers.EventEdit.Owned.{
  set_event_field-id, recompute_occurrence-id, stored_row, find_event-update_events, find_event-id,
  IsOwned,
}
use birthly_go.Handlers.EditFields.{set_event_field}

module _ (H : Hdate) (user : User) (today : Date) (now : ℕ) where
  -- The row `row` of the database `db'` is the event `e` of `db` with the columns of `e'` and the
  -- occurrences that these have.
  pub record IsStored (id : ℕ) (e e' : Event) (db : Database) (row : Event) (db' : Database)
      : Type 0 where
    pub computed : Event
    pub recomputed : recompute_occurrence H user today e' ≡ ok computed
    pub checked : event_checks computed ≡ true
    pub row_is : row ≡ stored_row e computed now
    pub changed : db' ≡ record db { events = update_events user.id computed now db.events }
    pub owned : IsOwned user id row db'

  -- A call that changes nothing, or stores the event.
  abbrev pub Stores : ℕ → Event → Event → Database → Result (Option Event) × Database → Type 0
  Stores id e e' db r =
      ((is_ok r.0 ≡ false) × (r.1 ≡ db))
      ⊎ ((row : Event) × (r.0 ≡ ok (some row)) × IsStored id e e' db row r.1)

  stored-Stores :
      (id : ℕ) (e e' computed : Event) (db : Database)
      → IsOwned user id e db
      → computed.id ≡ id
      → recompute_occurrence H user today e' ≡ ok computed
      → Stores id e e' db (stored (update_event_row user.id computed now db) db)
  unfolding update_event_row
  stored-Stores id e e' computed db h same recomputed =
      let there : find_event computed.id user.id db.events ≡ some e = rw same h.found in
      let after = find_event-update_events id user.id now computed e db.events same h.found in
      let back : find_event computed.id user.id (update_events user.id computed now db.events)
          ≡ some (stored_row e computed now) =
        subst
          (λ i.
            find_event i user.id (update_events user.id computed now db.events)
            ≡ some (stored_row e computed now))
          (sym same) after in
      rw there (elim (Bool-cases (event_checks computed)) [
        | inl good ↦ rw good (
            inr (
              stored_row e computed now,
              rw back refl,
              record {
                computed = computed;
                recomputed = recomputed;
                checked = good;
                row_is = refl;
                changed = refl;
                owned = record { found = after; live_still = h.live_still };
              },
            ))
        | inr bad ↦ rw bad (inl (refl, refl))
      ])

  continue-Stores :
      (id : ℕ) (e e' : Event) (db : Database) (r : Result Event)
      → IsOwned user id e db
      → e'.id ≡ id
      → recompute_occurrence H user today e' ≡ r
      → Stores id e e' db (continue_with r (λ c d. stored (update_event_row user.id c now d) d) db)
  continue-Stores id e e' db (ok c) h same recomputed =
      stored-Stores id e e' c db h (recompute_occurrence-id H user today e' c recomputed ∙ same)
        recomputed
  continue-Stores id e e' db (err f) h same recomputed = inl (refl, refl)
  continue-Stores id e e' db panicked h same recomputed = inl (refl, refl)

  pub update_event-Stores :
      (id : ℕ) (e : Event) (field : Text) (value : Option Text) (db : Database)
      → IsOwned user id e db
      → Stores id e
          (set_event_field e field value)
          db
          (update_event H user today (set_event_field e field value) now db)
  unfolding update_event
  update_event-Stores id e field value db h =
      continue-Stores id e (set_event_field e field value) db _ h
        (set_event_field-id e field value ∙ find_event-id id user.id e db.events h.found) refl
