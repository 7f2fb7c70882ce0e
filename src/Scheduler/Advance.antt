-- ===== src/Scheduler/Advance.antt =====
-- The occurrences that a tick moves on (jobs.go). `none` stands for the panic of `NextOccurrence`, which
-- ends the job.
use birthly_go.Prelude.{
  ◌>>=◌, ℕ, Bool, true, false, ◌||◌, if◌then◌else◌, List, [], ◌∷◌, Option, none, some,
}
use birthly_go.Core.Civil.{Date, before}
use birthly_go.Core.Hebrew.{Hdate, Occurrence, found, no_such_month, unreachable, next_occurrence}
use birthly_go.Store.Models.{User, Event}
use birthly_go.Store.Database.{Database, update_events}
use birthly_go.Scheduler.Tracks.{secondary_calendar_type, is_at}

-- No occurrence, or one before today.
abbrev pub is_past : Option Date → Date → Bool
is_past none today = true
is_past (some d) today = before d today

-- The new occurrence, and whether it is a change. An error is only logged.
abbrev pub moved : Option Date → Occurrence → Option (Option Date × Bool)
moved old (found d) = if is_at old d then some (old, false) else some (some d, true)
moved old no_such_month = some (old, false)
moved old unreachable = none

module _ (H : Hdate) (user : User) (today : Date) where
  unfoldable pub advance_primary : Event → Option (Option Date × Bool)
  advance_primary e =
      if is_past e.next_occurrence today
      then moved e.next_occurrence
          (next_occurrence H e.calendar_type e.month e.day today user.adar_policy user.feb29_policy)
      else some (e.next_occurrence, false)

  abbrev pub advance_set : Event → Option ℕ → Option ℕ → Option (Option Date × Bool)
  advance_set e (some month) (some day) =
      if is_past e.secondary_next_occurrence today
      then moved e.secondary_next_occurrence (
          next_occurrence H (secondary_calendar_type e) month day today user.adar_policy
            user.feb29_policy)
      else some (e.secondary_next_occurrence, false)
  advance_set e _ _ = some (e.secondary_next_occurrence, false)

  unfoldable pub advance_secondary : Event → Option (Option Date × Bool)
  advance_secondary e = advance_set e e.secondary_month e.secondary_day

  abbrev pub advanced :
      Event → Option (Option Date × Bool) → Option (Option Date × Bool) → Option (Event × Bool)
  advanced e (some (primary, a)) (some (secondary, b)) =
      some (record e { next_occurrence = primary; secondary_next_occurrence = secondary }, a || b)
  advanced e _ _ = none

  -- The event with its occurrences moved on, and whether it changed.
  unfoldable pub advance_event : Event → Option (Event × Bool)
  unfolding advance_primary advance_secondary
  advance_event e = advanced e (advance_primary e) (advance_secondary e)

  abbrev pub write_if : ℕ → Option (Event × Bool) → Database → Option Database
  write_if now none db = none
  write_if now (some (e, changed)) db =
      if changed
      then some (record db { events = update_events user.id e now db.events })
      else some db

  -- The loop over the user's events; `now` is the time that the update writes.
  unfoldable pub advance_events : ℕ → List Event → Database → Option Database
  advance_events now [] db = some db
  advance_events now (e ∷ events) db = do
    db' ← write_if now (advance_event e) db
    advance_events now events db'
