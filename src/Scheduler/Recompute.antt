-- ===== src/Scheduler/Recompute.antt =====
-- `RecomputeOccurrences` and `listAllUsers` (jobs.go), with `EventRepo.ListActive`.
use birthly_go.Prelude.{
  ◌>>=◌, ℕ, leb, ◌==◌, ◌&&◌, Bool, false, if◌then◌else◌, List, [], ◌∷◌, Option, none, some, String,
  map, filterb,
}
use birthly_go.Core.Civil.{Date}
use birthly_go.Core.Hebrew.{Hdate, next_occurrence}
use birthly_go.Store.Models.{User, Event}
use birthly_go.Store.Database.{Database, is_none, find_user}
use birthly_go.Scheduler.Clock.{Zone, or_utc}
use birthly_go.Scheduler.Tracks.{secondary_calendar_type}
use birthly_go.Scheduler.Advance.{moved, advanced, write_if}

abbrev pub insert_id : ℕ → List ℕ → List ℕ
insert_id id [] = id ∷ []
insert_id id (j ∷ ids) = if leb id j then id ∷ j ∷ ids else j ∷ insert_id id ids

-- `ORDER BY id`
unfoldable pub sort_ids : List ℕ → List ℕ
sort_ids [] = []
sort_ids (id ∷ ids) = insert_id id (sort_ids ids)

abbrev prepend_user : Option User → List User → List User
prepend_user none users = users
prepend_user (some u) users = u ∷ users

unfoldable pub users_of_ids : List ℕ → List User → List User
users_of_ids [] table = []
users_of_ids (id ∷ ids) table = prepend_user (find_user id table) (users_of_ids ids table)

abbrev pub user_id_of : User → ℕ
user_id_of u = u.id

unfoldable pub list_all_users : Database → List User
list_all_users db = users_of_ids (sort_ids (map user_id_of db.users)) db.users

unfoldable pub list_active : ℕ → Database → List Event
list_active user_id db =
    filterb (λ e. e.user_id == user_id && is_none e.deleted_at && e.is_active) db.events

module _ (H : Hdate) (user : User) (today : Date) where
  unfoldable pub recompute_primary : Event → Option (Option Date × Bool)
  recompute_primary e =
      moved e.next_occurrence
        (next_occurrence H e.calendar_type e.month e.day today user.adar_policy user.feb29_policy)

  abbrev pub recompute_set : Event → Option ℕ → Option ℕ → Option (Option Date × Bool)
  recompute_set e (some month) (some day) = moved e.secondary_next_occurrence (
      next_occurrence H (secondary_calendar_type e) month day today user.adar_policy
        user.feb29_policy)
  recompute_set e _ _ = some (e.secondary_next_occurrence, false)

  -- The event with both occurrences computed anew, and whether it changed.
  unfoldable pub recompute_event : Event → Option (Event × Bool)
  unfolding recompute_primary
  recompute_event e =
      advanced H user today e (recompute_primary e)
        (recompute_set e e.secondary_month e.secondary_day)

  unfoldable pub recompute_events : ℕ → List Event → Database → Option Database
  recompute_events now [] db = some db
  recompute_events now (e ∷ events) db = do
    db' ← write_if H user today now (recompute_event e) db
    recompute_events now events db'

-- `now` is the reading of the clock for each user.
module _ (H : Hdate) (load_location : String → Option Zone) (now : ℕ → ℕ) where
  unfoldable pub recompute_users : List User → Database → Option Database
  recompute_users [] db = some db
  recompute_users (user ∷ users) db = do
    db' ←
        recompute_events H user ((or_utc (load_location user.timezone)).local_date (now user.id))
          (now user.id) (list_active user.id db) db
    recompute_users users db'

  unfoldable pub recompute_occurrences : Database → Option Database
  recompute_occurrences db = recompute_users (list_all_users db) db
