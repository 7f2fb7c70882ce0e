-- ===== src/Services/Users/FirstContact.antt =====
-- What the first contact of a user writes, and that later ones add nothing.
use birthly_go.Prelude.{
  ℕ, ◌+◌, ◌≤◌, ◌<◌, ◌≡◌, refl, ap, sym, ◌∙◌, true, false, ltb, ◌==◌, List, [], ◌∷◌, ◌++◌, none,
  some, Bool-cases, Option-cases, inl, inr, arith,
}
use birthly_go.Prelude.Text.{codes}
use birthly_go.Store.Models.{in_seconds, User, ReminderRule}
use birthly_go.Store.Database.{Database, find_user}
use birthly_go.Store.Events.{has_user}
use birthly_go.Store.Rules.{create_rule, rule_checks}
use birthly_go.Store.Users.{Contact, new_user, insert_user, change_user, refreshed, get_or_create}
use birthly_go.Services.Action.{ok}
use birthly_go.Services.Users.{default_rule, get_or_create_user}

find_user-insert_user :
    (id : ℕ) (u : User) (users : List User)
    → u.id ≡ id
    → find_user id users ≡ none
    → find_user id (insert_user u users) ≡ some u
unfolding find_user insert_user
find_user-insert_user id u [] same h = ground (arith, same)
find_user-insert_user id u (x ∷ users) same h = elim (Bool-cases (x.id == id)) [
  | inl here ↦ let first : find_user id (x ∷ users) ≡ some x = rw here refl in absurd cc
  | inr other ↦
      let later : find_user id (x ∷ users) ≡ find_user id users = rw other refl in
      let self : (u.id == id) ≡ true = ground (arith, same) in
      elim (Bool-cases (ltb u.id x.id)) [
        | inl before ↦ rw (before, self) refl
        | inr after ↦ rw (after, other) (find_user-insert_user id u users same (sym later ∙ h))
      ]
]

find_user-change_user :
    (id : ℕ) (f : User → User) (u : User) (users : List User)
    → ((x : User) → (f x).id ≡ x.id)
    → find_user id users ≡ some u
    → find_user id (change_user id f users) ≡ some (f u)
unfolding find_user change_user
find_user-change_user id f u [] keeps h = cc
find_user-change_user id f u (x ∷ users) keeps h = elim (Bool-cases (x.id == id)) [
  | inl here ↦
      let first : find_user id (x ∷ users) ≡ some x = rw here refl in
      let same : x ≡ u = cc in
      let kept : ((f x).id == id) ≡ true = ground (arith, keeps x, here) in
      rw (here, kept) (ap (λ y. some (f y)) same)
  | inr other ↦
      let later : find_user id (x ∷ users) ≡ find_user id users = rw other refl in
      rw (other, other) (find_user-change_user id f u users keeps (sym later ∙ h))
]

has_user-insert_user :
    (id : ℕ) (u : User) (users : List User) → u.id ≡ id → has_user id (insert_user u users) ≡ true
unfolding insert_user
has_user-insert_user id u [] same = ground (arith, same)
has_user-insert_user id u (x ∷ users) same =
    ground (arith, same, has_user-insert_user id u users same)

new_user-id : (c : Contact) (now : ℕ) → (new_user c now).id ≡ c.user_id
unfolding new_user
new_user-id c now = refl

-- A rule for all events of a user, as the table keeps it.
abbrev pub made_rule : ℕ → ℕ → ℕ → ℕ → ReminderRule
made_rule user_id offset_days id now = record (default_rule offset_days) {
  id = id;
  user_id = user_id;
  created_at = in_seconds now;
}

-- The database after the first contact.
abbrev pub with_new_user : Contact → ℕ → ℕ → ℕ → Database → Database
with_new_user c id1 id2 now db = record db {
  users = insert_user (new_user c now) db.users;
  rules = (db.rules ++ made_rule c.user_id 1 id1 now ∷ []) ++ made_rule c.user_id 0 id2 now ∷ [];
}

-- A row with the defaults of the table users for a person who has just come.
pub record IsNewcomer (c : Contact) (now : ℕ) (u : User) : Type 0 where
  pub who : (u.id ≡ c.user_id) × (u.username ≡ c.username) × (u.is_admin ≡ c.is_admin)
  pub name : (u.first_name ≡ c.first_name) × (u.last_name ≡ c.last_name)
  pub place : (u.language ≡ "he") × (u.timezone ≡ "Asia/Jerusalem")
  pub formats : (u.date_format ≡ "DD/MM/YYYY") × (u.time_format ≡ "24h")
  pub notified :
      (u.default_notify_time ≡ codes "09:00")
      × (u.notifications_enabled ≡ true)
      × (u.silent_notifications ≡ false)
  pub digest : (u.daily_digest_enabled ≡ false) × (u.digest_time ≡ codes "08:00")
  pub policies :
      (u.show_hebrew_date ≡ true) × (u.adar_policy ≡ "adar_ii") × (u.feb29_policy ≡ "feb28")
  pub listed : (u.list_sort ≡ "upcoming") × (u.list_filter ≡ none)
  pub welcome : (u.is_blocked ≡ false) × (u.bot_blocked_by_user ≡ false) × (u.onboarded ≡ false)
  pub second : (u.created_at ≤ now) × (now < u.created_at + 1_000_000_000)
  pub times : (u.updated_at ≡ u.created_at) × (u.last_seen_at ≡ u.created_at)

-- An enabled rule of a user for all events, some days before them at the user's own time.
pub record IsDefaultRule (c : Contact) (now id days : ℕ) (r : ReminderRule) : Type 0 where
  pub numbers : (r.id ≡ id) × (r.user_id ≡ c.user_id)
  pub for_all : r.event_id ≡ none
  pub days_before : (r.offset_days ≡ some days) × (r.offset_minutes ≡ none)
  pub own_time : r.send_time ≡ none
  pub is_enabled : r.enabled ≡ true
  pub second : (r.created_at ≤ now) × (now < r.created_at + 1_000_000_000)

first_contact :
    (c : Contact) (id1 id2 now : ℕ) (db : Database)
    → find_user c.user_id db.users ≡ none
    → get_or_create_user c id1 id2 now db ≡ (ok (new_user c now), with_new_user c id1 id2 now db)
unfolding get_or_create_user get_or_create create_rule rule_checks new_user
first_contact c id1 id2 now db absent =
    rw
      (
        absent,
        find_user-insert_user c.user_id (new_user c now) db.users refl absent,
        has_user-insert_user c.user_id (new_user c now) db.users refl,
      )
      (rw (has_user-insert_user c.user_id (new_user c now) db.users refl) refl)

-- A later contact gives the user's row with the new name and time, and changes only that row.
pub get_or_create_user-known :
    (c : Contact) (id1 id2 now : ℕ) (u : User) (db : Database)
    → find_user c.user_id db.users ≡ some u
    → get_or_create_user c id1 id2 now db ≡ (
      ok (refreshed c now u),
      record db { users = change_user c.user_id (refreshed c now) db.users },
    )
unfolding get_or_create_user get_or_create
get_or_create_user-known c id1 id2 now u db there =
    rw (there, find_user-change_user c.user_id (refreshed c now) u db.users (λ x. refl) there) refl

-- However often a user comes, only the first contact adds rules: a second one, by whatever name and whenever
-- it comes, leaves the rules, the events and the log as the first has left them.
pub get_or_create_user-again :
    (c d : Contact) (id1 id2 now id3 id4 later : ℕ) (db : Database)
    → d.user_id ≡ c.user_id
    → (let first = (get_or_create_user c id1 id2 now db).1 in
        let second = (get_or_create_user d id3 id4 later first).1 in
        (second.rules ≡ first.rules) × (second.events ≡ first.events) × (second.logs ≡ first.logs))
get_or_create_user-again c d id1 id2 now id3 id4 later db same =
    elim (Option-cases (find_user c.user_id db.users)) [
      | inl absent ↦
          let there =
            find_user-insert_user c.user_id (new_user c now) db.users (new_user-id c now) absent in
          rw (first_contact c id1 id2 now db absent)
            (known-keeps (with_new_user c id1 id2 now db) (new_user c now) (rw same there))
      | inr (u, present) ↦
          let there =
            find_user-change_user c.user_id (refreshed c now) u db.users (λ x. refl) present in
          rw (get_or_create_user-known c id1 id2 now u db present) (
            known-keeps (record db { users = change_user c.user_id (refreshed c now) db.users })
              (refreshed c now u) (rw same there))
    ]
  where
    known-keeps :
        (db1 : Database) (u : User)
        → find_user d.user_id db1.users ≡ some u
        → (let second = (get_or_create_user d id3 id4 later db1).1 in
            (second.rules ≡ db1.rules) × (second.events ≡ db1.events) × (second.logs ≡ db1.logs))
    known-keeps db1 u there =
        rw (get_or_create_user-known d id3 id4 later u db1 there) (refl, refl, refl)
