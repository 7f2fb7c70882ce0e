-- ===== src/Store/Events.antt =====
-- internal/store/repo/events.go: the events of a user, and the constraints of the table in
-- migrations/00001_baseline.sql and migrations/00003_dual_calendar_dates.sql. Rows stand in the order of
-- their numbers, since each new one gets a number above all others.
use birthly_go.Prelude.{
  ℕ, ◌+◌, Bool, true, ◌&&◌, ◌||◌, leb, ◌==◌, if◌then◌else◌, List, [], ◌∷◌, ◌++◌, Option, none, some,
  String, str_eq, any, filterb, countb,
}
use birthly_go.Prelude.Text.{Text, codes, text_eq}
use birthly_go.Store.Models.{User, Event, in_seconds}
use birthly_go.Store.Database.{Database, is_none, find_event, update_events}

abbrev pub is_one_of : List String → String → Bool
is_one_of names s = any (λ n. str_eq n s) names

abbrev pub is_word_of : List String → Text → Bool
is_word_of names s = any (λ n. text_eq (codes n) s) names

abbrev pub none_or {ℓ} : {A : Type ℓ} → (A → Bool) → Option A → Bool
none_or p none = true
none_or p (some a) = p a

abbrev pub within : ℕ → ℕ → ℕ → Bool
within low high n = leb low n && leb n high

-- The CHECK constraints.
unfoldable pub event_checks : Event → Bool
event_checks e =
    is_word_of ("birthday" ∷ "anniversary" ∷ "wedding" ∷ "memorial" ∷ "custom" ∷ []) e.event_type
    && is_one_of ("gregorian" ∷ "hebrew" ∷ []) e.calendar_type
    && within 1 13 e.month
    && within 1 31 e.day
    && none_or (λ y. within 1900 2100 y || within 5660 5860 y) e.year
    && none_or (is_word_of ("m" ∷ "f" ∷ "other" ∷ [])) e.gender
    && is_word_of ("family" ∷ "friends" ∷ "work" ∷ "clients" ∷ "school" ∷ "other" ∷ []) e.category
    && none_or (is_one_of ("gregorian" ∷ [])) e.secondary_calendar_type
    && none_or (within 1 12) e.secondary_month
    && none_or (within 1 31) e.secondary_day

-- An event of the user outside the trash.
abbrev pub is_kept_by : ℕ → Event → Bool
is_kept_by user_id e = e.user_id == user_id && is_none e.deleted_at

unfoldable pub count_not_deleted : ℕ → List Event → ℕ
count_not_deleted user_id events = countb (is_kept_by user_id) events

unfoldable pub list_not_deleted : ℕ → List Event → List Event
list_not_deleted user_id events = filterb (is_kept_by user_id) events

-- The foreign key to the users.
abbrev pub has_user : ℕ → List User → Bool
has_user user_id users = any (λ (u : User). u.id == user_id) users

-- `Create`; `none` where a constraint fails.
unfoldable pub create_event : ℕ → Event → ℕ → Database → Option (Event × Database)
create_event user_id e now db =
    if event_checks e && has_user user_id db.users
    then (let row : Event = record e {
      id = db.next_event_id;
      user_id = user_id;
      deleted_at = none;
      created_at = in_seconds now;
      updated_at = in_seconds now;
    } in
        some
          (row, record db { events = db.events ++ row ∷ []; next_event_id = db.next_event_id + 1 }))
    else none

-- `Update`, with the row that it reads back; `none` where a constraint fails on a row that is there.
unfoldable pub update_event_row : ℕ → Event → ℕ → Database → Option (Option Event × Database)
update_event_row user_id e now db =
    if is_none (find_event e.id user_id db.events)
    then some (none, db)
    else if event_checks e
    then (let events = update_events user_id e now db.events in
        some (find_event e.id user_id events, record db { events = events }))
    else none

-- A change of the trash mark of one row.
unfoldable pub mark_deleted : ℕ → ℕ → Option ℕ → List Event → List Event
mark_deleted id user_id at [] = []
mark_deleted id user_id at (e ∷ events) =
    (if e.id == id && e.user_id == user_id then record e { deleted_at = at } else e)
    ∷ mark_deleted id user_id at events

abbrev pub soft_delete : ℕ → ℕ → ℕ → Database → Database
soft_delete id user_id now db = record db {
  events = mark_deleted id user_id (some (in_seconds now)) db.events;
}

abbrev pub restore : ℕ → ℕ → Database → Database
restore id user_id db = record db { events = mark_deleted id user_id none db.events }
