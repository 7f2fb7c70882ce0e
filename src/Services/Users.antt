-- ===== src/Services/Users.antt =====
-- internal/services/user_service.go, and `userHandler` of internal/bot/router/middleware.go. The numbers of
-- the two rules of a new user are those that the table gives to new rows.
pub mod FirstContact
use birthly_go.Prelude.{
  ℕ, Bool, true, false, not, ◌==◌, if◌then◌else◌, List, [], ◌∷◌, Option, none, some, String, any,
  str_eq,
}
use birthly_go.Prelude.Text.{Text}
use birthly_go.Store.Models.{User, ReminderRule}
use birthly_go.Store.Database.{Database}
use birthly_go.Store.Rules.{create_rule}
use birthly_go.Store.Users.{Contact, get_or_create, update_settings}
use birthly_go.Services.Action.{Failure, constraint_failed, Result, ok, err, panicked, Action}

-- A rule for all events, a number of days before.
abbrev pub default_rule : ℕ → ReminderRule
default_rule offset_days = record {
  id = 0;
  user_id = 0;
  event_id = none;
  offset_days = some offset_days;
  offset_minutes = none;
  send_time = none;
  enabled = true;
  created_at = 0;
}

-- The transaction: an error gives the database `db` from before it.
abbrev pub second_rule : Database → User → Option (ReminderRule × Database) → Result User × Database
second_rule db user none = (err constraint_failed, db)
second_rule db user (some (row, db')) = (ok user, db')

abbrev pub first_rule :
    Database → User → ℕ → ℕ → Option (ReminderRule × Database) → Result User × Database
first_rule db user id now none = (err constraint_failed, db)
first_rule db user id now (some (row, db')) =
    second_rule db user (create_rule user.id (default_rule 0) id now db')

-- A row that is not read back is a nil user, whose first reading is a panic, before or after the commit.
abbrev pub with_default_rules :
    Database → ℕ → ℕ → ℕ → (Option User × Bool) × Database → Result User × Database
with_default_rules db id1 id2 now ((none, true), db') = (panicked, db)
with_default_rules db id1 id2 now ((none, false), db') = (panicked, db')
with_default_rules db id1 id2 now ((some user, true), db') =
    first_rule db user id2 now (create_rule user.id (default_rule 1) id1 now db')
with_default_rules db id1 id2 now ((some user, false), db') = (ok user, db')

unfoldable pub get_or_create_user : Contact → ℕ → ℕ → ℕ → Action User
unfolding get_or_create create_rule
get_or_create_user c id1 id2 now db = with_default_rules db id1 id2 now (get_or_create c now db)

-- `SyncAdmins`, with no query where there is no number.
unfoldable pub promote : List ℕ → List User → List User
promote ids [] = []
promote ids (u ∷ users) =
    (if any (λ id. id == u.id) ids then record u { is_admin = true } else u) ∷ promote ids users

abbrev pub sync_admins : List ℕ → Database → Database
sync_admins [] db = db
sync_admins (id ∷ ids) db = record db { users = promote (id ∷ ids) db.users }

unfoldable pub set_language : User → String → ℕ → Database → Database
unfolding update_settings
set_language user language now db = update_settings (record user { language = language }) now db

unfoldable pub set_timezone : User → String → ℕ → Database → Database
unfolding update_settings
set_timezone user timezone now db = update_settings (record user { timezone = timezone }) now db

unfoldable pub set_default_notify_time : User → Text → ℕ → Database → Database
unfolding update_settings
set_default_notify_time user hhmm now db =
    update_settings (record user { default_notify_time = hhmm }) now db

unfoldable pub complete_onboarding : User → ℕ → Database → Database
unfolding update_settings
complete_onboarding user now db = update_settings (record user { onboarded = true }) now db

-- The sender of an update; an empty username or last name counts as none.
pub record Sender : Type 0 where
  pub id : ℕ
  pub username : String
  pub first_name : Text
  pub last_name : Text

abbrev pub non_empty_string : String → Option String
non_empty_string s = if str_eq s "" then none else some s

abbrev pub non_empty_text : Text → Option Text
non_empty_text [] = none
non_empty_text (c ∷ s) = some (c ∷ s)

abbrev pub contact_of : List ℕ → Sender → Contact
contact_of admin_ids sender = record {
  user_id = sender.id;
  username = non_empty_string sender.username;
  first_name = sender.first_name;
  last_name = non_empty_text sender.last_name;
  is_admin = any (λ id. id == sender.id) admin_ids;
}

-- What the middleware does with an update: it goes on with a user or without one, it ends, or it fails.
pub data Admission : Type 0 where
  admitted : Option User → Admission
  blocked_out crashed : Admission
  lookup_failed : Failure → Admission

abbrev pub admission_of : Result User → Admission
admission_of (ok user) = if user.is_blocked then blocked_out else admitted (some user)
admission_of (err f) = lookup_failed f
admission_of panicked = crashed

unfoldable pub user_handler : List ℕ → Option Sender → ℕ → ℕ → ℕ → Database → Admission × Database
unfolding get_or_create_user
user_handler admin_ids none id1 id2 now db = (admitted none, db)
user_handler admin_ids (some sender) id1 id2 now db =
    let r = get_or_create_user (contact_of admin_ids sender) id1 id2 now db in
    (admission_of r.0, r.1)
