-- ===== src/Store/Users.antt =====
-- internal/store/repo/users.go: the rows of the users, in the order of their numbers. A new row has the
-- defaults of migrations/00001_baseline.sql.
use birthly_go.Prelude.{
  ℕ, Bool, true, false, not, ◌&&◌, ltb, leb, ◌==◌, if◌then◌else◌, List, [], ◌∷◌, Option, none, some,
  String, filterb, countb, length,
}
use birthly_go.Prelude.Text.{Text, codes}
use birthly_go.Store.Models.{User, in_seconds}
use birthly_go.Store.Database.{Database, find_user}

-- What an update says of its sender, and whether the configuration names an administrator.
pub record Contact : Type 0 where
  pub user_id : ℕ
  pub username : Option String
  pub first_name : Text
  pub last_name : Option Text
  pub is_admin : Bool

unfoldable pub new_user : Contact → ℕ → User
new_user c now = record {
  id = c.user_id;
  username = c.username;
  first_name = c.first_name;
  last_name = c.last_name;
  language = "he";
  timezone = "Asia/Jerusalem";
  date_format = "DD/MM/YYYY";
  time_format = "24h";
  default_notify_time = codes "09:00";
  notifications_enabled = true;
  silent_notifications = false;
  show_hebrew_date = true;
  daily_digest_enabled = false;
  digest_time = codes "08:00";
  list_sort = "upcoming";
  list_filter = none;
  adar_policy = "adar_ii";
  feb29_policy = "feb28";
  is_admin = c.is_admin;
  is_blocked = false;
  bot_blocked_by_user = false;
  onboarded = false;
  created_at = in_seconds now;
  updated_at = in_seconds now;
  last_seen_at = in_seconds now;
}

unfoldable pub insert_user : User → List User → List User
insert_user u [] = u ∷ []
insert_user u (x ∷ users) =
    let rest = insert_user u users in if ltb u.id x.id then u ∷ x ∷ users else x ∷ rest

-- A change of the row of a number.
unfoldable pub change_user : ℕ → (User → User) → List User → List User
change_user id f [] = []
change_user id f (u ∷ users) = (if u.id == id then f u else u) ∷ change_user id f users

abbrev pub refreshed : Contact → ℕ → User → User
refreshed c now u = record u {
  username = c.username;
  first_name = c.first_name;
  last_name = c.last_name;
  last_seen_at = in_seconds now;
}

-- `GetOrCreate`: the row that is read back, and whether it is new.
abbrev pub contact_row : Contact → ℕ → Option User → Database → (Option User × Bool) × Database
contact_row c now none db =
    let users = insert_user (new_user c now) db.users in
    ((find_user c.user_id users, true), record db { users = users })
contact_row c now (some u) db =
    let users = change_user c.user_id (refreshed c now) db.users in
    ((find_user c.user_id users, false), record db { users = users })

unfoldable pub get_or_create : Contact → ℕ → Database → (Option User × Bool) × Database
unfolding insert_user change_user new_user
get_or_create c now db = contact_row c now (find_user c.user_id db.users) db

abbrev pub seen_at : ℕ → User → User
seen_at now u = record u { last_seen_at = in_seconds now }

abbrev pub touch_last_seen : ℕ → ℕ → Database → Database
touch_last_seen user_id now db = record db { users = change_user user_id (seen_at now) db.users }

-- The settings of one user on the row of another.
abbrev pub with_settings : User → ℕ → User → User
with_settings u now row = record row {
  language = u.language;
  timezone = u.timezone;
  date_format = u.date_format;
  time_format = u.time_format;
  default_notify_time = u.default_notify_time;
  notifications_enabled = u.notifications_enabled;
  silent_notifications = u.silent_notifications;
  show_hebrew_date = u.show_hebrew_date;
  daily_digest_enabled = u.daily_digest_enabled;
  digest_time = u.digest_time;
  list_sort = u.list_sort;
  list_filter = u.list_filter;
  adar_policy = u.adar_policy;
  feb29_policy = u.feb29_policy;
  onboarded = u.onboarded;
  updated_at = in_seconds now;
}

-- `UpdateSettings`, where the constraints of the table hold.
unfoldable pub update_settings : User → ℕ → Database → Database
unfolding change_user
update_settings u now db = record db { users = change_user u.id (with_settings u now) db.users }

abbrev pub blocked_as : Bool → User → User
blocked_as blocked u = record u { is_blocked = blocked }

unfoldable pub set_blocked : ℕ → Bool → Database → Database
unfolding change_user
set_blocked user_id blocked db = record db {
  users = change_user user_id (blocked_as blocked) db.users;
}

abbrev pub is_target : User → Bool
is_target u = not u.is_blocked && not u.bot_blocked_by_user

unfoldable pub list_broadcast_targets : Database → List User
list_broadcast_targets db = filterb is_target db.users

unfoldable pub count_users : Database → ℕ
count_users db = length db.users

unfoldable pub count_active_since : ℕ → Database → ℕ
count_active_since cutoff db =
    countb (λ (u : User). leb (in_seconds cutoff) u.last_seen_at) db.users
