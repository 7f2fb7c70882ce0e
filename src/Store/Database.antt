-- ===== src/Store/Database.antt =====
-- The tables that the reminder engine works on, and the queries of notifications.go and events.go that
-- it makes. A query without ORDER BY gives the rows in the order of the table.
use birthly_go.Prelude.{
  ℕ, Bool, true, false, not, ◌&&◌, ◌||◌, leb, ◌==◌, if◌then◌else◌, List, [], ◌∷◌, Option, none,
  some, filterb, any,
}
use birthly_go.Core.Civil.{Date, ordinal}
use birthly_go.Store.Models.{in_seconds, User, Event, ReminderRule}
use birthly_go.Store.Logs.{LogTable}

pub record Database : Type 0 where
  pub users : List User
  pub events : List Event
  pub rules : List ReminderRule
  pub logs : LogTable
  pub last_tick_at : Option ℕ
  pub next_event_id : ℕ

abbrev pub in_window : Date → Date → Option Date → Bool
in_window start end none = false
in_window start end (some d) = leb (ordinal start) (ordinal d) && leb (ordinal d) (ordinal end)

abbrev pub is_none {ℓ} : {A : Type ℓ} → Option A → Bool
is_none none = true
is_none (some a) = false

-- Live, and with an occurrence of one of its two tracks in the window.
unfoldable pub is_upcoming : Date → Date → Event → Bool
is_upcoming start end e =
    is_none e.deleted_at
    && e.is_active
    && (in_window start end e.next_occurrence || in_window start end e.secondary_next_occurrence)

unfoldable pub wants_reminders : User → Bool
wants_reminders u = u.notifications_enabled && not u.is_blocked && not u.bot_blocked_by_user

unfoldable pub get_active_events_for_user : ℕ → Date → Date → Database → List Event
get_active_events_for_user user_id start end db =
    filterb (λ e. e.user_id == user_id && is_upcoming start end e) db.events

unfoldable pub list_active_users_with_events : Date → Date → Database → List User
list_active_users_with_events start end db =
    filterb
      (λ u. wants_reminders u && any (λ e. e.user_id == u.id && is_upcoming start end e) db.events)
      db.users

unfoldable pub get_rules_for_user : ℕ → Database → List ReminderRule
get_rules_for_user user_id db = filterb (λ r. r.user_id == user_id && r.enabled) db.rules

unfoldable pub find_event : ℕ → ℕ → List Event → Option Event
find_event id user_id [] = none
find_event id user_id (e ∷ events) =
    if e.id == id && e.user_id == user_id then some e else find_event id user_id events

unfoldable pub find_rule : ℕ → ℕ → List ReminderRule → Option ReminderRule
find_rule id user_id [] = none
find_rule id user_id (r ∷ rules) =
    if r.id == id && r.user_id == user_id then some r else find_rule id user_id rules

unfoldable pub find_user : ℕ → List User → Option User
find_user id [] = none
find_user id (u ∷ users) = if u.id == id then some u else find_user id users

-- `EventRepo.Update`: every column but the owner's, `deleted_at` and `created_at`.
unfoldable pub update_events : ℕ → Event → ℕ → List Event → List Event
update_events user_id e now [] = []
update_events user_id e now (row ∷ rows) =
    (if row.id == e.id && row.user_id == user_id
      then record e {
        user_id = row.user_id;
        deleted_at = row.deleted_at;
        created_at = row.created_at;
        updated_at = in_seconds now;
      }
      else row)
    ∷ update_events user_id e now rows

-- `SetBotBlockedByUser`
unfoldable pub set_bot_blocked : ℕ → Bool → List User → List User
set_bot_blocked user_id blocked [] = []
set_bot_blocked user_id blocked (u ∷ users) =
    (if u.id == user_id then record u { bot_blocked_by_user = blocked } else u)
    ∷ set_bot_blocked user_id blocked users
