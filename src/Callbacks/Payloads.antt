-- ===== src/Callbacks/Payloads.antt =====
-- The payload types, with `Encode` and the decoders. An `int64` is an integer, a list of fields that
-- `split` returned is taken apart by its length.
use birthly_go.Prelude.{Bool, if◌then◌else◌, List, [], ◌∷◌, Option, none, some, any, ◌>>=◌, map}
use birthly_go.Prelude.Text.{Text, codes, text_eq}
use birthly_go.Prelude.Int.{ℤ}
use birthly_go.Prelude.Decimal.{atoi, format_int}
use birthly_go.Callbacks.Wire.{join, split, opt_str, opt_int, parse_opt_str, parse_opt_int}

abbrev pub one_field : List Text → Option Text
one_field (a ∷ []) = some a
one_field _ = none

abbrev pub two_fields : List Text → Option (Text × Text)
two_fields (a ∷ b ∷ []) = some (a, b)
two_fields _ = none

abbrev pub four_fields : List Text → Option (Text × Text × Text × Text)
four_fields (a ∷ b ∷ c ∷ d ∷ []) = some (a, b, c, d)
four_fields _ = none

abbrev pub prefix_menu : Text
prefix_menu = codes "mnu"

pub record Menu : Type 0 where
  pub action : Text

unfoldable pub encode_menu : Menu → Text
encode_menu c = join (prefix_menu ∷ c.action ∷ [])

unfoldable pub decode_menu : Text → Option Menu
decode_menu payload = do
  parts ← split payload prefix_menu 1
  a ← one_field parts
  some (record { action = a })

abbrev pub prefix_nav : Text
prefix_nav = codes "nav"

pub record Nav : Type 0 where
  pub action : Text

unfoldable pub encode_nav : Nav → Text
encode_nav c = join (prefix_nav ∷ c.action ∷ [])

unfoldable pub decode_nav : Text → Option Nav
decode_nav payload = do
  parts ← split payload prefix_nav 1
  a ← one_field parts
  some (record { action = a })

abbrev pub prefix_noop : Text
prefix_noop = codes "noop"

abbrev pub encode_noop : Text
encode_noop = prefix_noop

abbrev pub prefix_event : Text
prefix_event = codes "ev"

unfoldable pub event_flow_actions : List Text
event_flow_actions = map codes (
    "type" ∷ "heb" ∷ "hm" ∷ "hd" ∷ "gm" ∷ "gd" ∷ "noyear" ∷ "cat" ∷ "gender" ∷ "more" ∷ "field"
    ∷ "clear" ∷ "skip" ∷ "save" ∷ "cancel" ∷ "secyes" ∷ "secno" ∷ "autoyes" ∷ "automanual"
    ∷ "autono" ∷ [])

unfoldable pub event_card_actions : List Text
event_card_actions = map codes ("v" ∷ "e" ∷ "d" ∷ "dy" ∷ "undo" ∷ "gr" ∷ "sh" ∷ "rem" ∷ "mute" ∷ [])

abbrev pub is_flow_action : Text → Bool
is_flow_action a = any (text_eq a) event_flow_actions

abbrev pub is_card_action : Text → Bool
is_card_action a = any (text_eq a) event_card_actions

pub record EventFlow : Type 0 where
  pub action : Text
  pub value : Option Text

-- `none` is the panic on an action that is not registered.
unfoldable pub encode_flow : EventFlow → Option Text
encode_flow c =
    if is_flow_action c.action
    then some (join (prefix_event ∷ c.action ∷ opt_str c.value ∷ []))
    else none

pub record EventCard : Type 0 where
  pub action : Text
  pub event_id : ℤ

unfoldable pub encode_card : EventCard → Option Text
encode_card c =
    if is_card_action c.action
    then some (join (prefix_event ∷ c.action ∷ format_int c.event_id ∷ []))
    else none

-- Exactly one of the source's two pointers is set.
pub data EventDecoded : Type 0 where
  flow : EventFlow → EventDecoded
  card : EventCard → EventDecoded

unfoldable pub decode_event : Text → Option EventDecoded
decode_event payload = do
  parts ← split payload prefix_event 2
  (action, second) ← two_fields parts
  if is_flow_action action
      then some (flow (record { action = action; value = parse_opt_str second }))
      else if is_card_action action
      then (atoi second >>= λ id. some (card (record { action = action; event_id = id })))
      else none

abbrev pub prefix_list : Text
prefix_list = codes "ls"

pub record ListCallback : Type 0 where
  pub action : Text
  pub value : Text

unfoldable pub encode_list : ListCallback → Text
encode_list c = join (prefix_list ∷ c.action ∷ c.value ∷ [])

unfoldable pub decode_list : Text → Option ListCallback
decode_list payload = do
  parts ← split payload prefix_list 2
  (a, v) ← two_fields parts
  some (record { action = a; value = v })

abbrev pub prefix_reminder : Text
prefix_reminder = codes "rem"

pub record Reminder : Type 0 where
  pub action : Text
  pub value : Option Text
  pub event_id : Option ℤ
  pub rule_id : Option ℤ

unfoldable pub encode_reminder : Reminder → Text
encode_reminder c =
    join
      (prefix_reminder ∷ c.action ∷ opt_str c.value ∷ opt_int c.event_id ∷ opt_int c.rule_id ∷ [])

unfoldable pub decode_reminder : Text → Option Reminder
decode_reminder payload = do
  parts ← split payload prefix_reminder 4
  (a, v, e, r) ← four_fields parts
  event_id ← parse_opt_int e
  rule_id ← parse_opt_int r
  some (record { action = a; value = parse_opt_str v; event_id = event_id; rule_id = rule_id })

abbrev pub prefix_settings : Text
prefix_settings = codes "set"

pub record Settings : Type 0 where
  pub action : Text
  pub value : Option Text

unfoldable pub encode_settings : Settings → Text
encode_settings c = join (prefix_settings ∷ c.action ∷ opt_str c.value ∷ [])

unfoldable pub decode_settings : Text → Option Settings
decode_settings payload = do
  parts ← split payload prefix_settings 2
  (a, v) ← two_fields parts
  some (record { action = a; value = parse_opt_str v })

abbrev pub prefix_stats : Text
prefix_stats = codes "st"

pub record Stats : Type 0 where
  pub action : Text

unfoldable pub encode_stats : Stats → Text
encode_stats c = join (prefix_stats ∷ c.action ∷ [])

unfoldable pub decode_stats : Text → Option Stats
decode_stats payload = do
  parts ← split payload prefix_stats 1
  a ← one_field parts
  some (record { action = a })

abbrev pub prefix_template : Text
prefix_template = codes "tpl"

pub record Template : Type 0 where
  pub action : Text
  pub value : Option Text
  pub event_id : Option ℤ
  pub exclude_id : Option ℤ

unfoldable pub encode_template : Template → Text
encode_template c =
    join (
      prefix_template ∷ c.action ∷ opt_str c.value ∷ opt_int c.event_id ∷ opt_int c.exclude_id ∷ [])

unfoldable pub decode_template : Text → Option Template
decode_template payload = do
  parts ← split payload prefix_template 4
  (a, v, e, x) ← four_fields parts
  event_id ← parse_opt_int e
  exclude_id ← parse_opt_int x
  some
      (record { action = a; value = parse_opt_str v; event_id = event_id; exclude_id = exclude_id })

abbrev pub prefix_backup : Text
prefix_backup = codes "bk"

pub record Backup : Type 0 where
  pub action : Text
  pub value : Option Text

unfoldable pub encode_backup : Backup → Text
encode_backup c = join (prefix_backup ∷ c.action ∷ opt_str c.value ∷ [])

unfoldable pub decode_backup : Text → Option Backup
decode_backup payload = do
  parts ← split payload prefix_backup 2
  (a, v) ← two_fields parts
  some (record { action = a; value = parse_opt_str v })

abbrev pub prefix_admin : Text
prefix_admin = codes "adm"

pub record Admin : Type 0 where
  pub action : Text
  pub value : Option Text

unfoldable pub encode_admin : Admin → Text
encode_admin c = join (prefix_admin ∷ c.action ∷ opt_str c.value ∷ [])

unfoldable pub decode_admin : Text → Option Admin
decode_admin payload = do
  parts ← split payload prefix_admin 2
  (a, v) ← two_fields parts
  some (record { action = a; value = parse_opt_str v })
