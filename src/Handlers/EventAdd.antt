-- ===== src/Handlers/EventAdd.antt =====
-- The dialogue that adds an event, internal/bot/handlers/event_add.go, with `SplitName` of
-- internal/core/text.go. A handler gives what the user is told and the sessions and the database after it.
-- The messages are sent after all writes, so a failure to send changes neither. The value of a button is a
-- number from 0 on; every write of a session reads the clock twice.
pub mod Birthday
pub mod Creation
pub mod Dialogue
pub mod Writes
use birthly_go.Prelude.{
  ℕ, ◌≡◌, Bool, true, false, not, ◌&&◌, ◌==◌, if◌then◌else◌, Option, none, some, String, str_eq, [],
  ◌∷◌,
}
use birthly_go.Prelude.Text.{Text}
use birthly_go.Core.Civil.{Date}
use birthly_go.Core.Chars.{trim_space}
use birthly_go.Core.Hebrew.{
  Hdate, to_hebrew, to_gregorian, resolve_month, month_length, calendar_type_gregorian,
  calendar_type_hebrew,
}
use birthly_go.Core.InputText.{
  Complaint, Checked, valid, invalid, validate_name, parse_hebrew_year_input,
}
use birthly_go.Core.DateText.{ParsedDate, parse_gregorian}
use birthly_go.Store.Models.{User, Event}
use birthly_go.Store.Database.{Database}
use birthly_go.Services.Action.{Failure, limit_reached, Result, ok, err, panicked}
use birthly_go.Services.Events.{NewEventInput, create_minimal_event}
use birthly_go.Fsm.State.{
  State, wire, add_event_name, add_event_date, add_event_heb_month, add_event_heb_day,
  add_event_heb_year, add_event_secondary_prompt, add_event_secondary_date,
  add_event_secondary_auto_confirm,
}
use birthly_go.Fsm.Defs.{Data, Store, no_data, get_state, set_state, get_data, update_data, clear}

-- The values that the dialogue keeps in a session.
pub data Value : Type 0 where
  text : Text → Value
  number : ℕ → Value
  flag : Bool → Value
  no_value : Value

pub record World : Type 0 where
  pub sessions : Store Value
  pub db : Database

-- What a handler comes to: the update goes on to the next handlers; the next question is asked, or the event
-- is shown; the limit of events is reached; the event is not the user's; a panic; a value is asked for, and
-- whether there is one to clear; the text is refused; the event is saved; an error.
pub data Outcome : Type 0 where
  passed_on prompted limit_told not_found_told broken_off : Outcome
  value_asked : Bool → Outcome
  refused : Complaint → Outcome
  refused_date refused_time : Outcome
  saved : Event → Outcome
  failed : Failure → Outcome

-- The update and its surroundings: the user, the user's day, the day and the time of the process's clock, and
-- the readings of the clock by the writes of sessions.
pub record Update : Type 0 where
  pub user : User
  pub today : Date
  pub current : Date
  pub now : ℕ
  pub clock : ℕ → ℕ

-- `strings.Cut` at the first blank.
unfoldable pub cut_blank : Text → Text × Option Text
cut_blank [] = ([], none)
cut_blank (c ∷ s) = let rest = cut_blank s in if c == 32 then ([], some s) else (c ∷ rest.0, rest.1)

abbrev pub non_empty : Text → Option Text
non_empty [] = none
non_empty (c ∷ s) = some (c ∷ s)

abbrev pub last_of : Option Text → Option Text
last_of none = none
last_of (some rest) = non_empty (trim_space rest)

unfoldable pub split_name : Text → Text × Option Text
unfolding cut_blank
split_name full_name = let cut = cut_blank full_name in (cut.0, last_of cut.1)

abbrev pub or_empty : Option Text → Text
or_empty none = []
or_empty (some s) = s

-- Readings of a value with the type that is expected, as Go's assertions on `any`.
abbrev pub as_text : Option Value → Text
as_text (some (text s)) = s
as_text _ = []

abbrev pub number_in : Option Value → Option ℕ
number_in (some (number n)) = some n
number_in _ = none

abbrev pub zero_if_none : Option ℕ → ℕ
zero_if_none none = 0
zero_if_none (some n) = n

abbrev pub as_flag : Option Value → Bool
as_flag (some (flag b)) = b
as_flag _ = false

-- A map with one entry, and with one entry more.
abbrev pub with_entry : String → Value → Data Value → Data Value
with_entry key v d k = if str_eq k key then some v else d k

abbrev pub name_data : Text × Option Text → Data Value
name_data (first_name, last_name) =
    with_entry "first_name" (text first_name)
      (with_entry "last_name" (text (or_empty last_name)) no_data)

abbrev pub is_in : State → State × Bool → Bool
is_in state (current, set) = set && str_eq (wire current) (wire state)

abbrev pub Handler : Type 0
Handler = World → Outcome × World

module _ (u : Update) where
  -- The writes of a session, at two readings of the clock.
  abbrev pub go_to : State → ℕ → ℕ → World → World
  go_to state now sweep_now w = record w {
    sessions = set_state u.user.id state now sweep_now w.sessions;
  }

  abbrev pub keep : Data Value → ℕ → ℕ → World → World
  keep d now sweep_now w = record w { sessions = update_data u.user.id d now sweep_now w.sessions }

  abbrev pub forget : World → World
  forget w = record w { sessions = clear u.user.id w.sessions }

  abbrev pub data_in : World → Data Value
  data_in w = get_data u.user.id w.sessions

  -- A handler of one step: other updates go on.
  unfoldable pub at_step : State → Handler → Handler
  at_step state h w = if is_in state (get_state u.user.id w.sessions) then h w else (passed_on, w)

  abbrev pub ask : State → Handler
  ask state w = (prompted, go_to state (u.clock 0) (u.clock 1) w)

  unfoldable pub cb_menu_add : Handler
  cb_menu_add w = ask add_event_name w

  module _ (is_letter_or_number : ℕ → Bool) where
    abbrev pub take_name : Checked Text → Handler
    take_name (invalid complaint) w = (refused complaint, w)
    take_name (valid cleaned) w = (
      prompted,
      go_to add_event_date (u.clock 2) (u.clock 3)
          (keep (name_data (split_name cleaned)) (u.clock 0) (u.clock 1) w),
    )

    unfoldable pub msg_add_name : Text → Handler
    unfolding at_step split_name
    msg_add_name input =
        at_step add_event_name (take_name (validate_name is_letter_or_number input))

  unfoldable pub cb_add_hebrew_track : Handler
  unfolding at_step
  cb_add_hebrew_track = at_step add_event_date (ask add_event_heb_month)

  -- Without a year: a hint on a Gregorian date, and the question for a second date on a Hebrew one.
  unfoldable pub cb_add_no_year : Handler
  unfolding at_step
  cb_add_no_year w =
      if is_in add_event_date (get_state u.user.id w.sessions)
      then (prompted, w)
      else at_step add_event_heb_year (ask add_event_secondary_prompt) w

  abbrev pub take_day : ℕ → Handler
  take_day day w = (
    prompted,
    go_to add_event_heb_year (u.clock 2) (u.clock 3)
        (keep (with_entry "heb_day" (number day) no_data) (u.clock 0) (u.clock 1) w),
  )

  unfoldable pub cb_add_hebrew_day : ℕ → Handler
  unfolding at_step
  cb_add_hebrew_day day = at_step add_event_heb_day (take_day day)

  unfoldable pub cb_add_secondary_yes : Handler
  unfolding at_step
  cb_add_secondary_yes = at_step add_event_secondary_prompt (ask add_event_secondary_date)

  unfoldable pub cb_add_secondary_auto_manual : Handler
  unfolding at_step
  cb_add_secondary_auto_manual =
      at_step add_event_secondary_auto_confirm (ask add_event_secondary_date)

  module _ (H : Hdate) where
    abbrev pub length_known : Option ℕ → Outcome
    length_known none = failed Failure.no_such_month
    length_known (some n) = prompted

    -- Adar is asked about once.
    abbrev pub take_month : ℕ → Handler
    take_month month w =
        if month == 12 && not (as_flag (data_in w "adar_choice_shown"))
        then (
          prompted,
          keep (with_entry "adar_choice_shown" (flag true) no_data) (u.clock 0) (u.clock 1) w,
        )
        else (
          length_known (month_length H (to_hebrew H u.current).year month),
          go_to add_event_heb_day (u.clock 2) (u.clock 3)
              (keep (with_entry "heb_month" (number month) no_data) (u.clock 0) (u.clock 1) w),
        )

    unfoldable pub cb_add_hebrew_month : ℕ → Handler
    unfolding at_step
    cb_add_hebrew_month month = at_step add_event_heb_month (take_month month)

    unfoldable pub exact_gregorian_birth_date : ℕ → ℕ → ℕ → String → Option Date
    exact_gregorian_birth_date heb_year heb_month heb_day adar_policy =
        to_gregorian H heb_year (resolve_month H heb_year heb_month adar_policy) heb_day

    abbrev pub offer_date : Option Date → Handler
    offer_date none w = (prompted, go_to add_event_secondary_prompt (u.clock 2) (u.clock 3) w)
    offer_date (some greg) w = (
      prompted,
      go_to add_event_secondary_auto_confirm (u.clock 4) (u.clock 5) (
          keep
            (with_entry "auto_sec_month" (number greg.month)
              (with_entry "auto_sec_day" (number greg.day) no_data))
            (u.clock 2) (u.clock 3) w),
    )

    abbrev pub offer : ℕ → Handler
    offer year w =
        offer_date
          (exact_gregorian_birth_date year (zero_if_none (number_in (data_in w "heb_month")))
            (zero_if_none (number_in (data_in w "heb_day"))) u.user.adar_policy)
          w

    abbrev pub take_year : Checked ℕ → Handler
    take_year (invalid complaint) w = (refused complaint, w)
    take_year (valid year) w =
        offer year (keep (with_entry "heb_year" (number year) no_data) (u.clock 0) (u.clock 1) w)

    unfoldable pub msg_add_hebrew_year : Text → Handler
    unfolding at_step exact_gregorian_birth_date
    msg_add_hebrew_year input =
        at_step add_event_heb_year (take_year (parse_hebrew_year_input H input))

    module _ (detect_gender : Text → Option Text) (max_events : ℕ) where
      -- After the service: the limit and a new event end the dialogue, an error leaves it as it is.
      abbrev pub finish : Result Event × Database → Handler
      finish (ok e, db') w = (
        saved e,
        keep (with_entry "event_id" (number e.id) no_data) (u.clock 0) (u.clock 1)
            (forget (record w { db = db' })),
      )
      finish (err limit_reached, db') w = (limit_told, forget (record w { db = db' }))
      finish (err e, db') w = (failed e, record w { db = db' })
      finish (panicked, db') w = (broken_off, record w { db = db' })

      abbrev pub input_of :
          Data Value → ℕ → ℕ → Option ℕ → String → Option ℕ → Option ℕ → NewEventInput
      input_of d month day year calendar_type secondary_month secondary_day = record {
        first_name = as_text (d "first_name");
        last_name = non_empty (as_text (d "last_name"));
        month = month;
        day = day;
        year = year;
        calendar_type = calendar_type;
        gender = detect_gender (as_text (d "first_name"));
        secondary_month = secondary_month;
        secondary_day = secondary_day;
      }

      unfoldable pub finalize_event : ℕ → ℕ → Option ℕ → String → Option ℕ → Option ℕ → Handler
      finalize_event month day year calendar_type secondary_month secondary_day w =
          finish
            (create_minimal_event H u.user u.today
              (input_of (data_in w) month day year calendar_type secondary_month secondary_day)
              max_events u.now w.db)
            w

      abbrev pub take_date : Option ParsedDate → Handler
      take_date none w = (refused_date, w)
      take_date (some d) w = finalize_event d.month d.day d.year calendar_type_gregorian none none w

      unfoldable pub msg_add_date : Text → Handler
      unfolding at_step finalize_event
      msg_add_date input = at_step add_event_date (take_date (parse_gregorian u.current.year input))

      unfoldable pub finalize_secondary_flow : Option ℕ → Option ℕ → Handler
      unfolding finalize_event
      finalize_secondary_flow secondary_month secondary_day w =
          finalize_event (zero_if_none (number_in (data_in w "heb_month")))
            (zero_if_none (number_in (data_in w "heb_day"))) (number_in (data_in w "heb_year"))
            calendar_type_hebrew secondary_month secondary_day w

      unfoldable pub cb_add_secondary_no : Handler
      unfolding at_step finalize_secondary_flow
      cb_add_secondary_no = at_step add_event_secondary_prompt (finalize_secondary_flow none none)

      unfoldable pub cb_add_secondary_auto_no : Handler
      unfolding at_step finalize_secondary_flow
      cb_add_secondary_auto_no =
          at_step add_event_secondary_auto_confirm (finalize_secondary_flow none none)

      abbrev pub take_auto_date : Handler
      take_auto_date w =
          finalize_secondary_flow (some (zero_if_none (number_in (data_in w "auto_sec_month"))))
            (some (zero_if_none (number_in (data_in w "auto_sec_day")))) w

      unfoldable pub cb_add_secondary_auto_yes : Handler
      unfolding at_step finalize_secondary_flow
      cb_add_secondary_auto_yes = at_step add_event_secondary_auto_confirm take_auto_date

      abbrev pub take_secondary_date : Option ParsedDate → Handler
      take_secondary_date none w = (refused_date, w)
      take_secondary_date (some d) w = finalize_secondary_flow (some d.month) (some d.day) w

      unfoldable pub msg_add_secondary_date : Text → Handler
      unfolding at_step finalize_secondary_flow
      msg_add_secondary_date input =
          at_step add_event_secondary_date
            (take_secondary_date (parse_gregorian u.current.year input))
