-- ===== src/Examples/Leftover.antt =====
-- A dialogue that is left and begun again: the Hebrew year of the first one is the year of the second event,
-- for which the button without a year was pressed.
use birthly_go.Prelude.{Option, none, ℕ, ◌≡◌, refl, some, Option}
use birthly_go.Prelude.Text.{codes, text_eq}
use birthly_go.Fsm.Defs.{new_store, get_state}
use birthly_go.Store.Events.{count_not_deleted}
use birthly_go.Handlers.EventAdd.{
  at_step, split_name, cut_blank, cb_menu_add, msg_add_name, cb_add_hebrew_track, cb_add_no_year,
  cb_add_hebrew_day, cb_add_hebrew_month, exact_gregorian_birth_date, msg_add_hebrew_year,
  finalize_event, finalize_secondary_flow, cb_add_secondary_no,
}
use birthly_go.Fsm.Defs.{set_state, modify, touch, update_data, get_data, clear, evict_stale}
use birthly_go.Prelude.Assoc.{lookup, insert, erase, retain}
use birthly_go.Fsm.State.{wire}
use birthly_go.Core.InputText.{
  validate_name, check_name, is_whitespace_only, contains_only_symbols, is_repeated_char_nonsense,
  repeats, parse_hebrew_year_input,
}
use birthly_go.Core.Chars.{
  is_blank, is_space, is_control, strip_control_chars, drop_leading, drop_trailing, trim_space,
  collapse_whitespace, count_fields,
}
use birthly_go.Prelude.Decimal.{digits_from}
use birthly_go.Core.Hebrew.{
  to_gregorian, month_length, resolve_month, next_occurrence, next_hebrew_occurrence, candidate_or,
}
use birthly_go.Services.Events.{create_minimal_event, recompute_occurrence}
use birthly_go.Store.Events.{create_event, event_checks}
use birthly_go.Core.Civil.{ordinal, days_before_year, days_before_month, days_in_month, is_leap}
use birthly_go.Core.Civil.Days.{date_of_ordinal}
use birthly_go.Handlers.EventAdd.{Outcome, World, saved}
use birthly_go.Handlers.EventAdd.Writes.{
  handle, name_text, Message, year_text, hebrew_day, hebrew_month, hebrew_track, menu_add, no_year,
  secondary_no,
}
use birthly_go.Examples.Calendar.{shifted}
use birthly_go.Examples.Inputs.{is_letter}
use birthly_go.Examples.Adding.{update, woman, world}

abbrev go : Message → World → World
go m w = (handle update shifted is_letter woman 5 m w).1

-- Left when the second date is offered.
abbrev left : World
left = go (year_text (codes "5750")) (
    go (hebrew_day 1)
      (go (hebrew_month 7) (go hebrew_track (go (name_text (codes "Dana")) (go menu_add world)))))

abbrev again : World
again = go no_year (
    go (hebrew_day 2)
      (go (hebrew_month 8) (go hebrew_track (go (name_text (codes "Noa")) (go menu_add left)))))

abbrev year_of : Outcome → Option ℕ
year_of (saved e) = e.year
year_of _ = none

abbrev stale : Option ℕ
stale = year_of (handle update shifted is_letter woman 5 secondary_no again).0

stale_year : stale ≡ some 5750
unfolding handle new_store get_state count_not_deleted at_step split_name cut_blank cb_menu_add
    msg_add_name cb_add_hebrew_track cb_add_no_year cb_add_hebrew_day cb_add_hebrew_month
    exact_gregorian_birth_date text_eq msg_add_hebrew_year finalize_event finalize_secondary_flow
    cb_add_secondary_no set_state modify touch update_data get_data clear evict_stale lookup insert
    erase retain wire validate_name check_name is_whitespace_only contains_only_symbols
    is_repeated_char_nonsense repeats parse_hebrew_year_input is_blank is_space is_control
    strip_control_chars drop_leading drop_trailing trim_space collapse_whitespace count_fields
    digits_from to_gregorian month_length resolve_month next_occurrence next_hebrew_occurrence
    candidate_or create_minimal_event recompute_occurrence create_event event_checks ordinal
    days_before_year days_before_month days_in_month is_leap date_of_ordinal
stale_year = refl
