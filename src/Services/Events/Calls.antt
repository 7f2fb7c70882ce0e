-- ===== src/Services/Events/Calls.antt =====
-- The calls that change the events of a user, as one type: whether a call returned without an error, and the
-- database after it.
use birthly_go.Prelude.{ℕ, Bool, true, false, List, [], ◌∷◌}
use birthly_go.Core.Civil.{Date}
use birthly_go.Core.Hebrew.{Hdate}
use birthly_go.Store.Models.{User, Event}
use birthly_go.Store.Database.{Database}
use birthly_go.Services.Action.{Result, ok, err, panicked}
use birthly_go.Services.Events.{
  NewEventInput, create_minimal_event, update_event, delete_event, restore_event, toggle_mute,
}

pub data Call : Type 0 where
  create : NewEventInput → ℕ → ℕ → Call
  update : Event → ℕ → Call
  delete : ℕ → ℕ → Call
  restore : ℕ → Call
  toggle : ℕ → ℕ → Call

abbrev pub is_ok : {A : Type 0} → Result A → Bool
is_ok (ok a) = true
is_ok (err e) = false
is_ok panicked = false

abbrev pub finished : {A : Type 0} → Result A × Database → Bool × Database
finished r = (is_ok r.0, r.1)

module _ (H : Hdate) (user : User) (today : Date) where
  unfoldable pub perform : Call → Database → Bool × Database
  perform (create input max_events now) db =
      finished (create_minimal_event H user today input max_events now db)
  perform (update e now) db = finished (update_event H user today e now db)
  perform (delete id now) db = finished (delete_event user id now db)
  perform (restore id) db = finished (restore_event user id db)
  perform (toggle id now) db = finished (toggle_mute user id now db)

  unfoldable pub perform_all : List Call → Database → Database
  perform_all [] db = db
  perform_all (c ∷ calls) db = perform_all calls (perform c db).1
