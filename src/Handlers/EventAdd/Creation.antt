-- ===== src/Handlers/EventAdd/Creation.antt =====
-- What the writes of a session leave, and the row that a new Gregorian event becomes.
use birthly_go.Prelude.{
  ℕ, ◌+◌, ◌≤◌, ◌<◌, ◌≡◌, refl, ap, ◌∙◌, true, false, ◌||◌, leb, Option, none, some, [], ◌∷◌, ◌++◌,
  arith,
}
use birthly_go.Prelude.Text.{Text, text_eq}
use birthly_go.Core.Hebrew.{Hdate, next_occurrence, calendar_type_gregorian}
use birthly_go.Core.Gregorian.{next_gregorian_occurrence}
use birthly_go.Core.Civil.Order.{days_in_month_range}
use birthly_go.Core.Chars.{trim_space}
use birthly_go.Core.DateText.{ParsedDate}
use birthly_go.Core.DateText.Accept.{IsYear, IsAccepted}
use birthly_go.Store.Models.{in_seconds, Event}
use birthly_go.Store.Database.{Database}
use birthly_go.Store.Events.{
  count_not_deleted, create_event, event_checks, has_user, none_or, is_word_of,
}
use birthly_go.Store.Events
use birthly_go.Services.Action.{ok}
use birthly_go.Services.Events.{
  NewEventInput, create_minimal_event, minimal_event, recompute_occurrence,
}
use birthly_go.Fsm.State.{State}
use birthly_go.Fsm.Defs.{
  Data, Store, IsStore, get_state, set_state, get_data, update_data, merge, touch, is_set,
}
use birthly_go.Fsm.Laws.{touch-IsStore, modify-IsStore, get_state-set_state, get_data-update_data}
use birthly_go.Fsm.View.{modify-max_age, touch-max_age}
use birthly_go.Handlers.EventAdd.{Value, Update, or_empty, non_empty, last_of}

-- The clock does not move on by more than the maximal age between the two readings of a write.
abbrev pub IsPrompt : ℕ → Update → Type 0
IsPrompt max_age u = (u.clock 1 ≤ u.clock 0 + max_age) × (u.clock 3 ≤ u.clock 2 + max_age)

-- A session store in order, with a maximal age, and what it says of a user.
pub record Says (user max_age : ℕ) (state : State) (d : Data Value) (s : Store Value) : Type 0 where
  pub in_order : IsStore s
  pub age : s.max_age ≡ max_age
  pub at : get_state user s ≡ (state, is_set state)
  pub holds : get_data user s ≡ d

pub set_state-Says :
    (user max_age now sweep_now : ℕ) (state : State) (s : Store Value)
    → IsStore s
    → s.max_age ≡ max_age
    → sweep_now ≤ now + max_age
    → Says user max_age state (get_data user s) (set_state user state now sweep_now s)
unfolding set_state
set_state-Says user max_age now sweep_now state s h age window = record {
  in_order =
      modify-IsStore user _ (touch user now sweep_now s) (touch-IsStore user now sweep_now s h);
  age =
      modify-max_age user _ (touch user now sweep_now s) ∙ touch-max_age user now sweep_now s ∙ age;
  at = (get_state-set_state user now sweep_now state s h (omega arith)).0;
  holds = (get_state-set_state user now sweep_now state s h (omega arith)).1;
}

pub update_data-Says :
    (user max_age now sweep_now : ℕ) (state : State) (d updates : Data Value) (s : Store Value)
    → Says user max_age state d s
    → sweep_now ≤ now + max_age
    → Says user max_age state (merge updates d) (update_data user updates now sweep_now s)
unfolding update_data
update_data-Says user max_age now sweep_now state d updates s h window = record {
  in_order =
      modify-IsStore user _ (touch user now sweep_now s)
        (touch-IsStore user now sweep_now s h.in_order);
  age =
      modify-max_age user _ (touch user now sweep_now s)
      ∙ touch-max_age user now sweep_now s
      ∙ h.age;
  at =
      (get_data-update_data user now sweep_now updates s h.in_order (omega (arith, h.age))).1
      ∙ h.at;
  holds =
      (get_data-update_data user now sweep_now updates s h.in_order (omega (arith, h.age))).0
      ∙ ap (merge updates) h.holds;
}

pub last_of-kept : (rest : Option Text) → non_empty (or_empty (last_of rest)) ≡ last_of rest
last_of-kept none = refl
last_of-kept (some rest) = trimmed (trim_space rest)
  where
    trimmed : (s : Text) → non_empty (or_empty (non_empty s)) ≡ non_empty s
    trimmed [] = refl
    trimmed (c ∷ s) = refl

-- The row of a new Gregorian event of a user, with a first and a last name and a date.
abbrev pub gregorian_input : Text → Option Text → ParsedDate → Option Text → NewEventInput
gregorian_input first_name last_name d gender = record {
  first_name = first_name;
  last_name = last_name;
  month = d.month;
  day = d.day;
  year = d.year;
  calendar_type = calendar_type_gregorian;
  gender = gender;
  secondary_month = none;
  secondary_day = none;
}

abbrev pub new_row : Update → Database → NewEventInput → Event
new_row u db input = record (minimal_event input) {
  id = db.next_event_id;
  user_id = u.user.id;
  next_occurrence =
      some (next_gregorian_occurrence input.month input.day u.today u.user.feb29_policy);
  created_at = in_seconds u.now;
  updated_at = in_seconds u.now;
}

abbrev pub with_row : Database → Event → Database
with_row db e = record db { events = db.events ++ (e ∷ []); next_event_id = db.next_event_id + 1 }

abbrev pub IsGender : Option Text → Type 0
IsGender gender = none_or (is_word_of ("m" ∷ "f" ∷ "other" ∷ [])) gender ≡ true

year_checks :
    (year : Option ℕ)
    → IsYear year
    → none_or (λ y. Events.within 1900 2100 y || Events.within 5660 5860 y) year ≡ true
year_checks none h = refl
year_checks (some y) h = ground (arith, h)

-- The event that the row is made of.
abbrev pub dated_event : Update → NewEventInput → Event
dated_event u input = record (minimal_event input) {
  next_occurrence =
      some (next_gregorian_occurrence input.month input.day u.today u.user.feb29_policy);
}

dated_event-checks :
    (u : Update) (first_name : Text) (last_name : Option Text) (d : ParsedDate)
    (gender : Option Text)
    → IsAccepted d
    → IsGender gender
    → event_checks (dated_event u (gregorian_input first_name last_name d gender)) ≡ true
unfolding event_checks text_eq
dated_event-checks u first_name last_name d gender a g = rw g (
    rw (year_checks d.year a.year_in)
      (ground (arith, a.month_in, a.day_in, days_in_month_range 2000 d.month)))

le_false : (m n : ℕ) → n < m → leb m n ≡ false
le_false m n h = ground arith

pub create-gregorian :
    (H : Hdate) (u : Update) (max_events : ℕ) (db : Database) (first_name : Text)
    (last_name : Option Text) (d : ParsedDate) (gender : Option Text)
    → IsAccepted d
    → IsGender gender
    → count_not_deleted u.user.id db.events < max_events
    → has_user u.user.id db.users ≡ true
    → (let e = new_row u db (gregorian_input first_name last_name d gender) in
        create_minimal_event H u.user u.today
          (gregorian_input first_name last_name d gender)
          max_events
          u.now
          db
        ≡ (ok e, with_row db e))
unfolding create_minimal_event recompute_occurrence next_occurrence create_event
create-gregorian H u max_events db first_name last_name d gender a g room owner =
    rw (le_false max_events (count_not_deleted u.user.id db.events) room)
      (rw (dated_event-checks u first_name last_name d gender a g) (rw owner refl))
