-- ===== src/Scheduler/Users.antt =====
-- `listAllUsers` gives every user of the table, and no other.
use birthly_go.Prelude.{
  ℕ, ◌≡◌, refl, sym, ap, ==_iff, ◌∙◌, Bool, true, false, ◌&&◌, ◌||◌, ◌==◌, List, [], ◌∷◌, none,
  some, any, map, arith, Option-cases, inl, inr, Bool-cases,
}
use birthly_go.Store.Models.{User}
use birthly_go.Store.Database.{Database, find_user}
use birthly_go.Store.Events.{has_user}
use birthly_go.Scheduler.Recompute.{insert_id, sort_ids, users_of_ids, user_id_of, list_all_users}

abbrev is_listed : ℕ → List ℕ → Bool
is_listed v ids = any (λ id. id == v) ids

insert_id-listed :
    (v id : ℕ) (ids : List ℕ) → is_listed v (insert_id id ids) ≡ (id == v || is_listed v ids)
insert_id-listed v id [] = refl
insert_id-listed v id (j ∷ ids) = ground (arith, insert_id-listed v id ids)

sort_ids-listed : (v : ℕ) (ids : List ℕ) → is_listed v (sort_ids ids) ≡ is_listed v ids
unfolding sort_ids
sort_ids-listed v [] = refl
sort_ids-listed v (id ∷ ids) =
    ground (arith, insert_id-listed v id (sort_ids ids), sort_ids-listed v ids)

map-listed : (v : ℕ) (users : List User) → is_listed v (map user_id_of users) ≡ has_user v users
map-listed v [] = refl
map-listed v (u ∷ users) = ap (λ b. u.id == v || b) (map-listed v users)

find_user-none :
    (id : ℕ) (table : List User) → find_user id table ≡ none → has_user id table ≡ false
unfolding find_user
find_user-none id [] h = refl
find_user-none id (u ∷ table) h = ground (arith, find_user-none id table)

find_user-some :
    (id : ℕ) (table : List User) (u : User)
    → find_user id table ≡ some u
    → (u.id ≡ id) × (has_user id table ≡ true)
unfolding find_user
find_user-some id [] u h = cc
find_user-some id (x ∷ table) u h = elim (Bool-cases (x.id == id)) [
  | inl here ↦
      let same : some x ≡ some u = ground (arith, here) in
      let found : x ≡ u = cc in
      (ap user_id_of (sym found) ∙ (==_iff x.id id).0 here, ground (arith, here))
  | inr other ↦
      let (a, b) = find_user-some id table u (ground (arith, other)) in (a, ground (arith, b))
]

-- Numbers that agree are those of the same users.
has_user-same :
    (v id : ℕ) (table : List User) → id == v ≡ true → has_user id table ≡ has_user v table
has_user-same v id table e = ap (λ k. has_user k table) ((==_iff id v).0 e)

users_of_ids-listed :
    (v : ℕ) (ids : List ℕ) (table : List User)
    → has_user v (users_of_ids ids table) ≡ (is_listed v ids && has_user v table)
unfolding users_of_ids
users_of_ids-listed v [] table = refl
users_of_ids-listed v (id ∷ ids) table = elim (Option-cases (find_user id table)) [
  | inl missing ↦ rw missing (
      users_of_ids-listed v ids table
      ∙ ground (arith, has_user-same v id table, find_user-none id table missing))
  | inr (u, there) ↦ rw there (
      let (same, found) = find_user-some id table u there in
      ground (arith, users_of_ids-listed v ids table, has_user-same v id table, same, found))
]

pub has_user-list_all_users :
    (v : ℕ) (db : Database) → has_user v (list_all_users db) ≡ has_user v db.users
unfolding list_all_users
has_user-list_all_users v db =
    users_of_ids-listed v (sort_ids (map user_id_of db.users)) db.users
    ∙ ap (λ b. b && has_user v db.users)
        (sort_ids-listed v (map user_id_of db.users) ∙ map-listed v db.users)
    ∙ ground arith
