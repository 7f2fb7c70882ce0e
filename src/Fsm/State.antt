-- ===== src/Fsm/State.antt =====
-- internal/bot/fsm/fsm.go: the names of the steps of the multi-step flows.
use birthly_go.Prelude.{
  ◌≡◌, refl, Option, none, some, String, str_eq, if◌then◌else◌, List, [], ◌∷◌, some,
}

-- The constants of the source's string type, and `unset` for the empty string.
pub data State : Type 0 where
  unset : State
  onboarding_language : State
  onboarding_timezone : State
  onboarding_timezone_custom : State
  onboarding_notify_time : State
  onboarding_notify_time_custom : State
  add_event_name : State
  add_event_date : State
  add_event_heb_month : State
  add_event_heb_day : State
  add_event_heb_year : State
  add_event_secondary_prompt : State
  add_event_secondary_date : State
  add_event_secondary_auto_confirm : State
  edit_event_choosing_field : State
  edit_event_entering_value : State
  edit_event_heb_month : State
  edit_event_heb_day : State
  edit_event_heb_year : State
  search_query : State
  settings_flow_custom_time : State
  settings_flow_custom_timezone : State
  settings_flow_wipe_confirm : State
  template_flow_body : State
  template_flow_tone : State
  import_flow_waiting_file : State
  import_flow_confirm : State
  admin_flow_broadcast_text : State
  admin_flow_broadcast_confirm : State

-- The string that stands for a step.
unfoldable pub wire : State → String
wire unset = ""
wire onboarding_language = "onboarding:language"
wire onboarding_timezone = "onboarding:timezone"
wire onboarding_timezone_custom = "onboarding:timezone_custom"
wire onboarding_notify_time = "onboarding:notify_time"
wire onboarding_notify_time_custom = "onboarding:notify_time_custom"
wire add_event_name = "add_event:name"
wire add_event_date = "add_event:date"
wire add_event_heb_month = "add_event:heb_month"
wire add_event_heb_day = "add_event:heb_day"
wire add_event_heb_year = "add_event:heb_year"
wire add_event_secondary_prompt = "add_event:secondary_prompt"
wire add_event_secondary_date = "add_event:secondary_date"
wire add_event_secondary_auto_confirm = "add_event:secondary_auto_confirm"
wire edit_event_choosing_field = "edit_event:choosing_field"
wire edit_event_entering_value = "edit_event:entering_value"
wire edit_event_heb_month = "edit_event:heb_month"
wire edit_event_heb_day = "edit_event:heb_day"
wire edit_event_heb_year = "edit_event:heb_year"
wire search_query = "search:query"
wire settings_flow_custom_time = "settings_flow:custom_time"
wire settings_flow_custom_timezone = "settings_flow:custom_timezone"
wire settings_flow_wipe_confirm = "settings_flow:wipe_confirm"
wire template_flow_body = "template_flow:body"
wire template_flow_tone = "template_flow:tone"
wire import_flow_waiting_file = "import_flow:waiting_file"
wire import_flow_confirm = "import_flow:confirm"
wire admin_flow_broadcast_text = "admin_flow:broadcast_text"
wire admin_flow_broadcast_confirm = "admin_flow:broadcast_confirm"

abbrev all_states : List State
all_states =
    unset ∷ onboarding_language ∷ onboarding_timezone ∷ onboarding_timezone_custom
    ∷ onboarding_notify_time ∷ onboarding_notify_time_custom ∷ add_event_name ∷ add_event_date
    ∷ add_event_heb_month ∷ add_event_heb_day ∷ add_event_heb_year ∷ add_event_secondary_prompt
    ∷ add_event_secondary_date ∷ add_event_secondary_auto_confirm ∷ edit_event_choosing_field
    ∷ edit_event_entering_value ∷ edit_event_heb_month ∷ edit_event_heb_day ∷ edit_event_heb_year
    ∷ search_query ∷ settings_flow_custom_time ∷ settings_flow_custom_timezone
    ∷ settings_flow_wipe_confirm ∷ template_flow_body ∷ template_flow_tone
    ∷ import_flow_waiting_file ∷ import_flow_confirm ∷ admin_flow_broadcast_text
    ∷ admin_flow_broadcast_confirm ∷ []

find_state : String → List State → Option State
find_state w [] = none
find_state w (s ∷ l) = if str_eq (wire s) w then some s else find_state w l

find_state-wire : (s : State) → find_state (wire s) all_states ≡ some s
unfolding find_state wire
find_state-wire unset = refl
find_state-wire _ = refl

-- No two steps share a string.
pub wire_inj : (s t : State) → wire s ≡ wire t → s ≡ t
wire_inj s t e = cc (find_state-wire s, find_state-wire t)
