-- ===== src/Services/Events/Owner.antt =====
-- A failed call changes nothing, and no call touches another user's events.
use birthly_go.Prelude.{
  not, ℕ, ◌≡◌, refl, Bool, true, false, ◌&&◌, leb, Bool-cases, Option-cases, inl, inr, Option, none,
  some,
}
use birthly_go.Core.Civil.{Date}
use birthly_go.Core.Hebrew.{Hdate}
use birthly_go.Store.Models.{in_seconds, User, Event}
use birthly_go.Store.Database.{Database, find_event}
use birthly_go.Store.Events.{
  mark_deleted, soft_delete, create_event, update_event_row, event_checks, has_user,
  count_not_deleted,
}
use birthly_go.Store.EventLaws.{others, others-mark_deleted, others-update_events, others-append}
use birthly_go.Services.Action.{
  Failure, not_found, or_fail, continue_with, Result, ok, err, panicked, Action, stored, and_then,
}
use birthly_go.Store.Events
use birthly_go.Services.Events.{
  live, recompute_occurrence, event_of, create_minimal_event, update_event, get_owned_event,
  delete_event, restore_event, toggle_mute,
}
use birthly_go.Services.Events.Calls.{
  Call, create, update, delete, restore, toggle, finished, perform,
}

-- What a call leaves alone: the rows of the other users, the users, the rules, and the log; and everything,
-- if it failed.
pub record Keeps (user_id : ℕ) (db : Database) (r : Bool × Database) : Type 0 where
  pub same_others : others user_id r.1.events ≡ others user_id db.events
  pub same_users : r.1.users ≡ db.users
  pub same_rules : r.1.rules ≡ db.rules
  pub same_logs : r.1.logs ≡ db.logs
  pub same_on_error : r.0 ≡ false → r.1 ≡ db

pub Keeps-refl : (user_id : ℕ) (db : Database) (b : Bool) → Keeps user_id db (b, db)
Keeps-refl user_id db b = record {
  same_others = refl;
  same_users = refl;
  same_rules = refl;
  same_logs = refl;
  same_on_error = λ _. refl;
}

create_event-Keeps :
    (user_id : ℕ) (e : Event) (now : ℕ) (db : Database)
    → Keeps user_id db (finished (stored (create_event user_id e now db) db))
unfolding create_event
create_event-Keeps user_id e now db =
    elim (Bool-cases (event_checks e && has_user user_id db.users)) [
      | inl good ↦ rw good (record {
        same_others = others-append user_id db.events _ refl;
        same_users = refl;
        same_rules = refl;
        same_logs = refl;
        same_on_error = λ h. cc;
      })
      | inr bad ↦ rw bad (Keeps-refl user_id db false)
    ]

update_event_row-Keeps :
    (user_id : ℕ) (e : Event) (now : ℕ) (db : Database)
    → Keeps user_id db (finished (stored (update_event_row user_id e now db) db))
unfolding update_event_row
update_event_row-Keeps user_id e now db = elim (Option-cases (find_event e.id user_id db.events)) [
  | inl gone ↦ rw gone (Keeps-refl user_id db true)
  | inr (row, there) ↦ rw there (elim (Bool-cases (event_checks e)) [
    | inl good ↦ rw good (record {
      same_others = others-update_events user_id e now db.events;
      same_users = refl;
      same_rules = refl;
      same_logs = refl;
      same_on_error = λ h. cc;
    })
    | inr bad ↦ rw bad (Keeps-refl user_id db false)
  ])
]

continue_with-Keeps :
    {A B : Type 0} (user_id : ℕ) (r : Result A) (f : A → Action B) (db : Database)
    → ((a : A) → Keeps user_id db (finished (f a db)))
    → Keeps user_id db (finished (continue_with r f db))
continue_with-Keeps user_id (ok a) f db h = h a
continue_with-Keeps user_id (err e) f db h = Keeps-refl user_id db false
continue_with-Keeps user_id panicked f db h = Keeps-refl user_id db false

or_fail-Keeps :
    {A B : Type 0} (user_id : ℕ) (o : Option A) (e : Failure) (f : A → Action B) (db : Database)
    → ((a : A) → Keeps user_id db (finished (f a db)))
    → Keeps user_id db (finished (and_then (or_fail o e) f db))
or_fail-Keeps user_id none e f db h = Keeps-refl user_id db false
or_fail-Keeps user_id (some a) e f db h = h a

mark_deleted-Keeps :
    (user_id id : ℕ) (at : Option ℕ) (db : Database)
    → Keeps user_id db (true, record db { events = mark_deleted id user_id at db.events })
mark_deleted-Keeps user_id id at db = record {
  same_others = others-mark_deleted id user_id at db.events;
  same_users = refl;
  same_rules = refl;
  same_logs = refl;
  same_on_error = λ h. cc;
}

-- A call of a user's service leaves the other users' events, and all users, rules and log rows, as they
-- are; and a call that fails leaves the whole database as it is.
pub perform-Keeps :
    (H : Hdate) (user : User) (today : Date) (c : Call) (db : Database)
    → Keeps user.id db (perform H user today c db)
unfolding perform create_minimal_event update_event delete_event restore_event toggle_mute
    get_owned_event
perform-Keeps H user today (create input max_events now) db =
    elim (Bool-cases (leb max_events (count_not_deleted user.id db.events))) [
      | inl full ↦ rw full (Keeps-refl user.id db false)
      | inr room ↦ rw room (
          continue_with-Keeps user.id (recompute_occurrence H user today (event_of input))
            (λ e d. stored (create_event user.id e now d) d) db
            (λ e. create_event-Keeps user.id e now db))
    ]
perform-Keeps H user today (update e now) db =
    continue_with-Keeps user.id (recompute_occurrence H user today e)
      (λ r d. stored (update_event_row user.id r now d) d) db
      (λ r. update_event_row-Keeps user.id r now db)
perform-Keeps H user today (delete id now) db =
    or_fail-Keeps user.id (live user (find_event id user.id db.events)) not_found
      (λ e d. (ok e, soft_delete id user.id now d)) db
      (λ e. mark_deleted-Keeps user.id id (some (in_seconds now)) db)
perform-Keeps H user today (restore id) db =
    or_fail-Keeps user.id (find_event id user.id db.events) not_found
      (λ e d. (ok (record e { deleted_at = none }), Events.restore id user.id d)) db
      (λ e. mark_deleted-Keeps user.id id none db)
perform-Keeps H user today (toggle id now) db =
    or_fail-Keeps user.id (live user (find_event id user.id db.events)) not_found
      (λ e d. stored (update_event_row user.id (record e { is_active = not e.is_active }) now d) d)
      db (λ e. update_event_row-Keeps user.id (record e { is_active = not e.is_active }) now db)
