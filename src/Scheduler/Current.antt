-- ===== src/Scheduler/Current.antt =====
-- Advancing and recomputing leave no occurrence in the past.
use birthly_go.Prelude.{
  ℕ, ◌≤◌, ◌≡◌, refl, Bool, true, false, ◌||◌, if◌then◌else◌, Option, none, some, arith, Bool-cases,
  inl, inr, String,
}
use birthly_go.Core.Civil.{Date, ordinal}
use birthly_go.Core.Civil.Order.{IsValid}
use birthly_go.Core.Hebrew.{IsModernYear, Hdate, HdateLaws, found, next_occurrence}
use birthly_go.Core.Hebrew.Age.{FitsCalendar, next_occurrence-found}
use birthly_go.Store.Models.{User, Event}
use birthly_go.Scheduler.Tracks.{secondary_calendar_type, is_at}
use birthly_go.Scheduler.Advance.{
  is_past, moved, advanced, advance_primary, advance_set, advance_secondary, advance_event,
}
use birthly_go.Scheduler.Recompute.{recompute_primary, recompute_set, recompute_event}

-- The day of the second track, where there is one, fits its calendar.
abbrev pub FitsTrack : String → Option ℕ → Option ℕ → Type 0
FitsTrack calendar_type (some month) (some day) = FitsCalendar calendar_type month day
FitsTrack calendar_type _ _ = Unit

-- The days of an event fit the calendars of its tracks.
pub record FitsEvent (e : Event) : Type 0 where
  pub primary : FitsCalendar e.calendar_type e.month e.day
  pub secondary : FitsTrack (secondary_calendar_type e) e.secondary_month e.secondary_day

-- Where there is a second track, its occurrence is not past.
abbrev pub IsCurrentTrack : Option ℕ → Option ℕ → Option Date → Date → Type 0
IsCurrentTrack (some month) (some day) occ today = is_past occ today ≡ false
IsCurrentTrack _ _ occ today = Unit

-- Neither track's occurrence is missing or before today.
pub record IsCurrent (today : Date) (e : Event) : Type 0 where
  pub primary : is_past e.next_occurrence today ≡ false
  pub secondary : IsCurrentTrack e.secondary_month e.secondary_day e.secondary_next_occurrence today

-- A result of one track: an occurrence that is not past.
abbrev Succeeds : Option (Option Date × Bool) → Date → Type 0
Succeeds r today = (o : Option Date) × (b : Bool) × (r ≡ some (o, b)) × (is_past o today ≡ false)

-- The same, where there is a second track.
abbrev SucceedsTrack : Option ℕ → Option ℕ → Option (Option Date × Bool) → Date → Type 0
SucceedsTrack m d r today =
    (o : Option Date) × (b : Bool) × (r ≡ some (o, b)) × IsCurrentTrack m d o today

moved-Succeeds :
    (old : Option Date) (r today : Date)
    → ordinal today ≤ ordinal r
    → Succeeds (moved old (found r)) today
moved-Succeeds none r today h = (some r, true, refl, ground arith)
moved-Succeeds (some d) r today h = elim (Bool-cases (is_at (some d) r)) [
  | inl same ↦ (some d, false, rw same refl, ground arith)
  | inr other ↦ (some r, true, rw other refl, ground arith)
]

module _ (H : Hdate) (laws : HdateLaws H) (user : User) (today : Date) (vt : IsValid today)
    (late : IsModernYear today.year) where
  moved_track :
      (calendar_type : String) (month day : ℕ) (old : Option Date)
      → FitsCalendar calendar_type month day
      → Succeeds
          (moved old
            (next_occurrence H calendar_type month day today user.adar_policy user.feb29_policy))
          today
  moved_track calendar_type month day old fits =
      let (r, e, v, le) =
        next_occurrence-found H laws calendar_type month day today user.adar_policy
          user.feb29_policy vt late fits in
      rw e (moved-Succeeds old r today le)

  -- Where an occurrence is computed only if the old one is past.
  if_past :
      (calendar_type : String) (month day : ℕ) (old : Option Date)
      → FitsCalendar calendar_type month day
      → Succeeds
          (if is_past old today
            then moved old
                (next_occurrence H calendar_type month day today user.adar_policy user.feb29_policy)
            else some (old, false))
          today
  if_past calendar_type month day old fits = elim (Bool-cases (is_past old today)) [
    | inl past ↦ rw past (moved_track calendar_type month day old fits)
    | inr current ↦ rw current (old, false, refl, current)
  ]

  advance_set-Succeeds :
      (e : Event) (m d : Option ℕ)
      → FitsTrack (secondary_calendar_type e) m d
      → SucceedsTrack m d (advance_set H user today e m d) today
  advance_set-Succeeds e none d fits = (e.secondary_next_occurrence, false, refl, tt)
  advance_set-Succeeds e (some month) none fits = (e.secondary_next_occurrence, false, refl, tt)
  advance_set-Succeeds e (some month) (some day) fits =
      if_past (secondary_calendar_type e) month day e.secondary_next_occurrence fits

  recompute_set-Succeeds :
      (e : Event) (m d : Option ℕ)
      → FitsTrack (secondary_calendar_type e) m d
      → SucceedsTrack m d (recompute_set H user today e m d) today
  recompute_set-Succeeds e none d fits = (e.secondary_next_occurrence, false, refl, tt)
  recompute_set-Succeeds e (some month) none fits = (e.secondary_next_occurrence, false, refl, tt)
  recompute_set-Succeeds e (some month) (some day) fits =
      moved_track (secondary_calendar_type e) month day e.secondary_next_occurrence fits

  advanced-IsCurrent :
      (e : Event) (p q : Option (Option Date × Bool))
      → Succeeds p today
      → SucceedsTrack e.secondary_month e.secondary_day q today
      → (r : Event) × (changed : Bool) × (advanced H user today e p q ≡ some (r, changed))
        × IsCurrent today r
  advanced-IsCurrent e p q (o, b, ep, c) (o', b', eq, c') = (
    record e { next_occurrence = o; secondary_next_occurrence = o' },
    b || b',
    rw (ep, eq) refl,
    record { primary = c; secondary = c' },
  )

  -- On a day from 1754 to 9999, an event whose days fit its calendars is advanced without an error or a panic, and then neither of its
  -- occurrences is missing or before today, if the calendar package obeys its laws.
  pub advance_event-IsCurrent :
      (e : Event)
      → FitsEvent e
      → (r : Event) × (changed : Bool) × (advance_event H user today e ≡ some (r, changed))
        × IsCurrent today r
  unfolding advance_event advance_primary advance_secondary
  advance_event-IsCurrent e fits =
      advanced-IsCurrent e _ _
        (if_past e.calendar_type e.month e.day e.next_occurrence fits.primary)
        (advance_set-Succeeds e e.secondary_month e.secondary_day fits.secondary)

  -- On a day from 1754 to 9999, an event whose days fit its calendars is recomputed without an error or a panic, and
  -- then neither of its occurrences is missing or before today, if the calendar package obeys its laws.
  pub recompute_event-IsCurrent :
      (e : Event)
      → FitsEvent e
      → (r : Event) × (changed : Bool) × (recompute_event H user today e ≡ some (r, changed))
        × IsCurrent today r
  unfolding recompute_event recompute_primary
  recompute_event-IsCurrent e fits =
      advanced-IsCurrent e _ _
        (moved_track e.calendar_type e.month e.day e.next_occurrence fits.primary)
        (recompute_set-Succeeds e e.secondary_month e.secondary_day fits.secondary)
