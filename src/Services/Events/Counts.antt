-- ===== src/Services/Events/Counts.antt =====
-- How many events a user keeps after each call, and that the numbers of the events stay unique.
use birthly_go.Prelude.{
  not, ℕ, ◌+◌, ◌≤◌, ◌≡◌, refl, Bool, true, false, ◌&&◌, leb, arith, Bool-cases, Option-cases, inl,
  inr, Option, none, some, List, [], ◌∷◌, ◌++◌,
}
use birthly_go.Core.Civil.{Date}
use birthly_go.Core.Hebrew.{Hdate}
use birthly_go.Store.Models.{in_seconds, User, Event}
use birthly_go.Store.Database.{Database, find_event, is_none}
use birthly_go.Store.Events.{
  mark_deleted, soft_delete, create_event, update_event_row, event_checks, has_user,
  count_not_deleted,
}
use birthly_go.Store.EventLaws.{
  IsTable, count-append, count-update_events, count-mark_deleted, as_number, append-HasUniqueIds,
  append-below, update_events-HasUniqueIds, update_events-below, mark_deleted-HasUniqueIds,
  mark_deleted-below,
}
use birthly_go.Services.Action.{
  Failure, not_found, or_fail, continue_with, Result, ok, err, panicked, Action, stored, and_then,
}
use birthly_go.Store.Events
use birthly_go.Services.Events.{
  live, recompute_occurrence, event_of, create_minimal_event, update_event, get_owned_event,
  delete_event, restore_event, toggle_mute,
}
use birthly_go.Services.Events.Calls.{
  Call, create, update, delete, restore, toggle, finished, perform, perform_all,
}

-- What holds of the database where a call succeeded.
abbrev pub OnSuccess : (Database → Type 0) → Bool × Database → Type 0
OnSuccess P r = r.0 ≡ true → P r.1

continue_with-OnSuccess :
    {A B : Type 0} (P : Database → Type 0) (r : Result A) (f : A → Action B) (db : Database)
    → ((a : A) → r ≡ ok a → OnSuccess P (finished (f a db)))
    → OnSuccess P (finished (continue_with r f db))
continue_with-OnSuccess P (ok a) f db h good = h a refl good
continue_with-OnSuccess P (err e) f db h good = cc
continue_with-OnSuccess P panicked f db h good = cc

or_fail-OnSuccess :
    {A B : Type 0} (P : Database → Type 0) (o : Option A) (e : Failure) (f : A → Action B)
    (db : Database)
    → ((a : A) → o ≡ some a → OnSuccess P (finished (f a db)))
    → OnSuccess P (finished (and_then (or_fail o e) f db))
or_fail-OnSuccess P none e f db h good = cc
or_fail-OnSuccess P (some a) e f db h good = h a refl good

create_event-OnSuccess :
    (user_id : ℕ) (e : Event) (now : ℕ) (db : Database)
    → OnSuccess
        (λ d. count_not_deleted user_id d.events ≡ count_not_deleted user_id db.events + 1)
        (finished (stored (create_event user_id e now db) db))
unfolding create_event
create_event-OnSuccess user_id e now db =
    elim (Bool-cases (event_checks e && has_user user_id db.users)) [
      | inl good ↦ rw good (λ _. count-append user_id db.events _ (ground arith))
      | inr bad ↦ rw bad (λ h. cc)
    ]

update_event_row-OnSuccess :
    (user_id : ℕ) (e : Event) (now : ℕ) (db : Database)
    → OnSuccess
        (λ d. count_not_deleted user_id d.events ≡ count_not_deleted user_id db.events)
        (finished (stored (update_event_row user_id e now db) db))
unfolding update_event_row
update_event_row-OnSuccess user_id e now db =
    elim (Option-cases (find_event e.id user_id db.events)) [
      | inl gone ↦ rw gone (λ _. refl)
      | inr (row, there) ↦ rw there (elim (Bool-cases (event_checks e)) [
        | inl good ↦ rw good (λ _. count-update_events user_id e now db.events)
        | inr bad ↦ rw bad (λ h. cc)
      ])
    ]

-- Whether a number is that of an event of the user in the trash.
unfoldable pub is_trashed : ℕ → ℕ → List Event → Bool
is_trashed id user_id events = trashed (find_event id user_id events)
  where
    trashed : Option Event → Bool
    trashed none = false
    trashed (some e) = not (is_none e.deleted_at)

-- The number of events that a user keeps after a call, from the number before.
unfoldable pub IsCounted : ℕ → Call → Database → Database → Type 0
IsCounted user_id (create input max_events now) db db' =
    (count_not_deleted user_id db'.events ≡ count_not_deleted user_id db.events + 1)
    × (count_not_deleted user_id db'.events ≤ max_events)
IsCounted user_id (update e now) db db' =
    count_not_deleted user_id db'.events ≡ count_not_deleted user_id db.events
IsCounted user_id (delete id now) db db' =
    count_not_deleted user_id db'.events + 1 ≡ count_not_deleted user_id db.events
IsCounted user_id (restore id) db db' =
    count_not_deleted user_id db'.events
    ≡ count_not_deleted user_id db.events + as_number (is_trashed id user_id db.events)
IsCounted user_id (toggle id now) db db' =
    count_not_deleted user_id db'.events ≡ count_not_deleted user_id db.events

live-found :
    (user : User) (o : Option Event) (e : Event)
    → live user o ≡ some e
    → (o ≡ some e) × (is_none e.deleted_at ≡ true)
live-found user none e h = cc
live-found user (some x) e h = (ground arith, ground arith)

trashed-found :
    (id user_id : ℕ) (events : List Event) (e : Event)
    → find_event id user_id events ≡ some e
    → is_trashed id user_id events ≡ not (is_none e.deleted_at)
unfolding is_trashed
trashed-found id user_id events e found = rw found refl

-- One more row, numbered as the database says.
append-IsTable :
    (db : Database) (e : Event)
    → IsTable db
    → e.id ≡ db.next_event_id
    → IsTable (record db { events = db.events ++ e ∷ []; next_event_id = db.next_event_id + 1 })
append-IsTable db e t same = record {
  unique = append-HasUniqueIds db.next_event_id db.events e t.unique t.below same;
  below = append-below db.next_event_id db.events e t.below same;
}

mark_deleted-IsTable :
    (id user_id : ℕ) (at : Option ℕ) (db : Database)
    → IsTable db
    → IsTable (record db { events = mark_deleted id user_id at db.events })
mark_deleted-IsTable id user_id at db t = record {
  unique = mark_deleted-HasUniqueIds id user_id at db.events t.unique;
  below = mark_deleted-below db.next_event_id id user_id at db.events t.below;
}

create_event-IsTable :
    (user_id : ℕ) (e : Event) (now : ℕ) (db : Database)
    → IsTable db
    → IsTable (finished (stored (create_event user_id e now db) db)).1
unfolding create_event
create_event-IsTable user_id e now db t =
    elim (Bool-cases (event_checks e && has_user user_id db.users)) [
      | inl good ↦ rw good (append-IsTable db _ t refl)
      | inr bad ↦ rw bad t
    ]

update_event_row-IsTable :
    (user_id : ℕ) (e : Event) (now : ℕ) (db : Database)
    → IsTable db
    → IsTable (finished (stored (update_event_row user_id e now db) db)).1
unfolding update_event_row
update_event_row-IsTable user_id e now db t =
    elim (Option-cases (find_event e.id user_id db.events)) [
      | inl gone ↦ rw gone t
      | inr (row, there) ↦ rw there (elim (Bool-cases (event_checks e)) [
        | inl good ↦ rw good (record {
          unique = update_events-HasUniqueIds user_id e now db.events t.unique;
          below = update_events-below db.next_event_id user_id e now db.events t.below;
        })
        | inr bad ↦ rw bad t
      ])
    ]

continue_with-IsTable :
    {A B : Type 0} (r : Result A) (f : A → Action B) (db : Database)
    → IsTable db
    → ((a : A) → IsTable (finished (f a db)).1)
    → IsTable (finished (continue_with r f db)).1
continue_with-IsTable (ok a) f db t h = h a
continue_with-IsTable (err e) f db t h = t
continue_with-IsTable panicked f db t h = t

or_fail-IsTable :
    {A B : Type 0} (o : Option A) (e : Failure) (f : A → Action B) (db : Database)
    → IsTable db
    → ((a : A) → IsTable (finished (f a db)).1)
    → IsTable (finished (and_then (or_fail o e) f db)).1
or_fail-IsTable none e f db t h = t
or_fail-IsTable (some a) e f db t h = h a

module _ (H : Hdate) (user : User) (today : Date) where
  perform-IsTable : (c : Call) (db : Database) → IsTable db → IsTable (perform H user today c db).1
  unfolding perform create_minimal_event update_event delete_event restore_event toggle_mute
      get_owned_event
  perform-IsTable (create input max_events now) db t =
      elim (Bool-cases (leb max_events (count_not_deleted user.id db.events))) [
        | inl full ↦ rw full t
        | inr room ↦ rw room (
            continue_with-IsTable (recompute_occurrence H user today (event_of input))
              (λ e d. stored (create_event user.id e now d) d) db t
              (λ e. create_event-IsTable user.id e now db t))
      ]
  perform-IsTable (update e now) db t =
      continue_with-IsTable (recompute_occurrence H user today e)
        (λ r d. stored (update_event_row user.id r now d) d) db t
        (λ r. update_event_row-IsTable user.id r now db t)
  perform-IsTable (delete id now) db t =
      or_fail-IsTable (live user (find_event id user.id db.events)) not_found
        (λ e d. (ok e, soft_delete id user.id now d)) db t
        (λ e. mark_deleted-IsTable id user.id (some (in_seconds now)) db t)
  perform-IsTable (restore id) db t =
      or_fail-IsTable (find_event id user.id db.events) not_found
        (λ e d. (ok (record e { deleted_at = none }), Events.restore id user.id d)) db t
        (λ e. mark_deleted-IsTable id user.id none db t)
  perform-IsTable (toggle id now) db t =
      or_fail-IsTable (live user (find_event id user.id db.events)) not_found
        (λ e d.
          stored (update_event_row user.id (record e { is_active = not e.is_active }) now d) d)
        db t
        (λ e. update_event_row-IsTable user.id (record e { is_active = not e.is_active }) now db t)

  -- Event numbers stay unique, and below the next one that is given, over any calls of a user's service.
  pub perform_all-IsTable :
      (calls : List Call) (db : Database) → IsTable db → IsTable (perform_all H user today calls db)
  unfolding perform_all
  perform_all-IsTable [] db t = t
  perform_all-IsTable (c ∷ calls) db t =
      perform_all-IsTable calls (perform H user today c db).1 (perform-IsTable c db t)

  -- In a table whose event numbers are unique, a call that succeeds changes the number of events that the user keeps outside the trash as follows: creating adds one and never exceeds the limit; editing and muting change nothing; deleting takes one away; restoring adds one if the event was in the trash.
  pub perform-IsCounted :
      (c : Call) (db : Database)
      → IsTable db
      → (perform H user today c db).0 ≡ true
      → IsCounted user.id c db (perform H user today c db).1
  unfolding perform create_minimal_event update_event delete_event restore_event toggle_mute
      get_owned_event IsCounted
  perform-IsCounted (create input max_events now) db t =
      elim (Bool-cases (leb max_events (count_not_deleted user.id db.events))) [
        | inl full ↦ rw full (λ h. cc)
        | inr room ↦ rw room (
            continue_with-OnSuccess (IsCounted user.id (create input max_events now) db)
              (recompute_occurrence H user today (event_of input))
              (λ e d. stored (create_event user.id e now d) d) db
              (λ e _ good. (
                create_event-OnSuccess user.id e now db good,
                ground (arith, create_event-OnSuccess user.id e now db good),
              )))
      ]
  perform-IsCounted (update e now) db t =
      continue_with-OnSuccess (IsCounted user.id (update e now) db)
        (recompute_occurrence H user today e) (λ r d. stored (update_event_row user.id r now d) d)
        db (λ r _. update_event_row-OnSuccess user.id r now db)
  perform-IsCounted (delete id now) db t =
      or_fail-OnSuccess (IsCounted user.id (delete id now) db)
        (live user (find_event id user.id db.events)) not_found
        (λ e d. (ok e, soft_delete id user.id now d)) db
        (λ e found _. ground (
          arith,
          live-found user (find_event id user.id db.events) e found,
          count-mark_deleted id user.id (some (in_seconds now)) db.events e t.unique
              (live-found user (find_event id user.id db.events) e found).0,
        ))
  perform-IsCounted (restore id) db t =
      or_fail-OnSuccess (IsCounted user.id (restore id) db) (find_event id user.id db.events)
        not_found (λ e d. (ok (record e { deleted_at = none }), Events.restore id user.id d)) db
        (λ e found _. ground (
          arith,
          trashed-found id user.id db.events e found,
          count-mark_deleted id user.id none db.events e t.unique found,
        ))
  perform-IsCounted (toggle id now) db t =
      or_fail-OnSuccess (IsCounted user.id (toggle id now) db)
        (live user (find_event id user.id db.events)) not_found
        (λ e d.
          stored (update_event_row user.id (record e { is_active = not e.is_active }) now d) d)
        db
        (λ e _.
          update_event_row-OnSuccess user.id (record e { is_active = not e.is_active }) now db)
