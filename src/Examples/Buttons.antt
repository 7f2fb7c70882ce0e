-- ===== src/Examples/Buttons.antt =====
-- Payloads of single buttons.
use birthly_go.Prelude.{◌≡◌, refl, none, some}
use birthly_go.Prelude.Text.{Text, codes, text_eq}
use birthly_go.Prelude.Int.{pos}
use birthly_go.Prelude.Decimal.{format_int, digits_of}
use birthly_go.Callbacks.Wire.{join}
use birthly_go.Callbacks.Payloads.{
  Settings, Backup, Admin, Reminder, EventFlow, EventCard, flow, decode_event, encode_flow,
  encode_card, event_flow_actions, event_card_actions,
}
use birthly_go.Callbacks.RoundTrip.{decode_event-encode_flow}

abbrev settings : Settings
settings = record { action = codes "tz"; value = some (codes "A") }

abbrev backup : Backup
backup = record { action = codes "exp"; value = none }

abbrev admin : Admin
admin = record { action = codes "u"; value = some (codes "7") }

abbrev reminder : Reminder
reminder = record {
  action = codes "off";
  value = some (codes "3");
  event_id = some (pos 12);
  rule_id = none;
}

abbrev month : EventFlow
month = record { action = codes "hm"; value = some (codes "7") }

abbrev month_payload : Text
month_payload = codes "ev:hm:7"

month_encoded : encode_flow month ≡ some month_payload
unfolding encode_flow event_flow_actions text_eq join
month_encoded = refl

decode_event-encode_flow_example : decode_event month_payload ≡ some (flow month)
decode_event-encode_flow_example =
    decode_event-encode_flow month month_payload ((λ e. cc), (refl, tt)) month_encoded

abbrev mute : EventCard
mute = record { action = codes "mute"; event_id = pos 42 }

abbrev mute_payload : Text
mute_payload = codes "ev:mute:42"

mute_encoded : encode_card mute ≡ some mute_payload
unfolding encode_card event_card_actions text_eq join format_int digits_of
mute_encoded = refl
