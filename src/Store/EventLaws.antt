-- ===== src/Store/EventLaws.antt =====
-- The writes to the table of events: numbers stay unique, other owners' rows stay as they are, and how many
-- events a user keeps.
use birthly_go.Prelude.{
  subst, ℕ, ◌+◌, ◌<◌, ◌≡◌, refl, Bool, true, false, not, ◌&&◌, ◌||◌, ◌==◌, if◌then◌else◌, List, [],
  ◌∷◌, ◌++◌, Option, some, any, All, filterb, arith, Bool-cases, inl, inr,
}
use birthly_go.Store.Models.{Event}
use birthly_go.Store.Database.{Database, is_none, find_event, update_events}
use birthly_go.Store.Events.{is_kept_by, count_not_deleted, mark_deleted}

-- No two rows have a number in common.
abbrev pub HasUniqueIds : List Event → Type 0
HasUniqueIds [] = Unit
HasUniqueIds (e ∷ events) = (any (λ (r : Event). r.id == e.id) events ≡ false) × HasUniqueIds events

-- Numbers are unique, and those to come are larger.
pub record IsTable (db : Database) : Type 0 where
  pub unique : HasUniqueIds db.events
  pub below : All (λ (e : Event). e.id < db.next_event_id) db.events

-- The rows of everyone but a user.
abbrev pub is_other : ℕ → Event → Bool
is_other user_id e = not (e.user_id == user_id)

abbrev pub others : ℕ → List Event → List Event
others user_id events = filterb (is_other user_id) events

-- A write that keeps the numbers of the rows.
abbrev pub SameIds : List Event → List Event → Type 0
SameIds xs ys = (id : ℕ) → any (λ (r : Event). r.id == id) xs ≡ any (λ (r : Event). r.id == id) ys

mark_deleted-SameIds :
    (id user_id : ℕ) (at : Option ℕ) (events : List Event)
    → SameIds (mark_deleted id user_id at events) events
unfolding mark_deleted
mark_deleted-SameIds id user_id at [] j = refl
mark_deleted-SameIds id user_id at (e ∷ events) j =
    ground (arith, mark_deleted-SameIds id user_id at events j)

pub mark_deleted-HasUniqueIds :
    (id user_id : ℕ) (at : Option ℕ) (events : List Event)
    → HasUniqueIds events
    → HasUniqueIds (mark_deleted id user_id at events)
unfolding mark_deleted
mark_deleted-HasUniqueIds id user_id at [] u = tt
mark_deleted-HasUniqueIds id user_id at (e ∷ events) u = (
  ground (arith, mark_deleted-SameIds id user_id at events e.id),
  mark_deleted-HasUniqueIds id user_id at events u.1,
)

pub mark_deleted-below :
    (n id user_id : ℕ) (at : Option ℕ) (events : List Event)
    → All (λ (e : Event). e.id < n) events
    → All (λ (e : Event). e.id < n) (mark_deleted id user_id at events)
unfolding mark_deleted
mark_deleted-below n id user_id at [] h = tt
mark_deleted-below n id user_id at (e ∷ events) h =
    (ground arith, mark_deleted-below n id user_id at events h.1)

update_events-SameIds :
    (user_id : ℕ) (e : Event) (now : ℕ) (events : List Event)
    → SameIds (update_events user_id e now events) events
unfolding update_events
update_events-SameIds user_id e now [] j = refl
update_events-SameIds user_id e now (row ∷ rows) j =
    ground (arith, update_events-SameIds user_id e now rows j)

pub update_events-HasUniqueIds :
    (user_id : ℕ) (e : Event) (now : ℕ) (events : List Event)
    → HasUniqueIds events
    → HasUniqueIds (update_events user_id e now events)
unfolding update_events
update_events-HasUniqueIds user_id e now [] u = tt
update_events-HasUniqueIds user_id e now (row ∷ rows) u = (
  ground (arith, update_events-SameIds user_id e now rows row.id),
  update_events-HasUniqueIds user_id e now rows u.1,
)

pub update_events-below :
    (n user_id : ℕ) (e : Event) (now : ℕ) (events : List Event)
    → All (λ (e : Event). e.id < n) events
    → All (λ (e : Event). e.id < n) (update_events user_id e now events)
unfolding update_events
update_events-below n user_id e now [] h = tt
update_events-below n user_id e now (row ∷ rows) h =
    (ground arith, update_events-below n user_id e now rows h.1)

no_such_id :
    (n : ℕ) (events : List Event)
    → All (λ (e : Event). e.id < n) events
    → any (λ (r : Event). r.id == n) events ≡ false
no_such_id n [] h = refl
no_such_id n (e ∷ events) h = ground (arith, no_such_id n events h.1)

any-append :
    (id : ℕ) (events : List Event) (e : Event)
    → any (λ (r : Event). r.id == id) (events ++ e ∷ [])
      ≡ (any (λ (r : Event). r.id == id) events || e.id == id)
any-append id [] e = ground arith
any-append id (x ∷ events) e = ground (arith, any-append id events e)

pub append-HasUniqueIds :
    (n : ℕ) (events : List Event) (e : Event)
    → HasUniqueIds events
    → All (λ (e : Event). e.id < n) events
    → e.id ≡ n
    → HasUniqueIds (events ++ e ∷ [])
append-HasUniqueIds n [] e u h same = (refl, tt)
append-HasUniqueIds n (x ∷ events) e u h same =
    (ground (arith, any-append x.id events e), append-HasUniqueIds n events e u.1 h.1 same)

pub append-below :
    (n : ℕ) (events : List Event) (e : Event)
    → All (λ (e : Event). e.id < n) events
    → e.id ≡ n
    → All (λ (e : Event). e.id < n + 1) (events ++ e ∷ [])
append-below n [] e h same = (omega arith, tt)
append-below n (x ∷ events) e h same = (omega (arith, h.0), append-below n events e h.1 same)

pub others-mark_deleted :
    (id user_id : ℕ) (at : Option ℕ) (events : List Event)
    → others user_id (mark_deleted id user_id at events) ≡ others user_id events
unfolding mark_deleted
others-mark_deleted id user_id at [] = refl
others-mark_deleted id user_id at (e ∷ events) =
    ground (arith, others-mark_deleted id user_id at events)

pub others-update_events :
    (user_id : ℕ) (e : Event) (now : ℕ) (events : List Event)
    → others user_id (update_events user_id e now events) ≡ others user_id events
unfolding update_events
others-update_events user_id e now [] = refl
others-update_events user_id e now (row ∷ rows) =
    ground (arith, others-update_events user_id e now rows)

pub others-append :
    (user_id : ℕ) (events : List Event) (e : Event)
    → e.user_id ≡ user_id
    → others user_id (events ++ e ∷ []) ≡ others user_id events
others-append user_id [] e same = ground arith
others-append user_id (x ∷ events) e same = ground (arith, others-append user_id events e same)

pub count-update_events :
    (user_id : ℕ) (e : Event) (now : ℕ) (events : List Event)
    → count_not_deleted user_id (update_events user_id e now events)
      ≡ count_not_deleted user_id events
unfolding update_events count_not_deleted
count-update_events user_id e now [] = refl
count-update_events user_id e now (row ∷ rows) =
    ground (arith, count-update_events user_id e now rows)

pub count-append :
    (user_id : ℕ) (events : List Event) (e : Event)
    → is_kept_by user_id e ≡ true
    → count_not_deleted user_id (events ++ e ∷ []) ≡ count_not_deleted user_id events + 1
unfolding count_not_deleted
count-append user_id [] e kept = ground arith
count-append user_id (x ∷ events) e kept = ground (arith, count-append user_id events e kept)

pub mark_deleted-absent :
    (id user_id : ℕ) (at : Option ℕ) (events : List Event)
    → any (λ (r : Event). r.id == id) events ≡ false
    → mark_deleted id user_id at events ≡ events
unfolding mark_deleted
mark_deleted-absent id user_id at [] h = refl
mark_deleted-absent id user_id at (e ∷ events) h =
    ground (arith, mark_deleted-absent id user_id at events)

abbrev pub as_number : Bool → ℕ
as_number b = if b then 1 else 0

found_here :
    (id user_id : ℕ) (x : Event) (events : List Event) (e : Event)
    → x.id == id && x.user_id == user_id ≡ true
    → find_event id user_id (x ∷ events) ≡ some e
    → some x ≡ some e
unfolding find_event
found_here id user_id x events e here found = ground arith

found_later :
    (id user_id : ℕ) (x : Event) (events : List Event) (e : Event)
    → x.id == id && x.user_id == user_id ≡ false
    → find_event id user_id (x ∷ events) ≡ some e
    → find_event id user_id events ≡ some e
unfolding find_event
found_later id user_id x events e later found = ground arith

ids_agree :
    (j id : ℕ) (events : List Event)
    → j ≡ id
    → any (λ (r : Event). r.id == j) events ≡ false
    → any (λ (r : Event). r.id == id) events ≡ false
ids_agree j id events e h = subst (λ k. any (λ (r : Event). r.id == k) events ≡ false) e h

-- What the trash mark of a row does to the number of events that its owner keeps.
pub count-mark_deleted :
    (id user_id : ℕ) (at : Option ℕ) (events : List Event) (e : Event)
    → HasUniqueIds events
    → find_event id user_id events ≡ some e
    → count_not_deleted user_id (mark_deleted id user_id at events)
        + as_number (is_none e.deleted_at)
      ≡ count_not_deleted user_id events + as_number (is_none at)
unfolding mark_deleted count_not_deleted find_event
count-mark_deleted id user_id at [] e u found = cc
count-mark_deleted id user_id at (x ∷ events) e u found =
    elim (Bool-cases (x.id == id && x.user_id == user_id)) [
      | inl here ↦ ground (
        arith,
        found_here id user_id x events e here found,
        mark_deleted-absent id user_id at events (ids_agree x.id id events (ground arith) u.0),
      )
      | inr later ↦ ground (
        arith,
        count-mark_deleted id user_id at events e u.1
            (found_later id user_id x events e later found),
      )
    ]
