-- ===== src/Handlers/EditFields.antt =====
-- The fields of an event that the editor changes, internal/bot/handlers/event_edit.go: what is typed for
-- them and where a value goes.
use birthly_go.Prelude.{
  ℕ, ◌-◌, ◌+◌, ◌*◌, Bool, false, not, ◌&&◌, ◌||◌, leb, ◌==◌, if◌then◌else◌, Option, none, some,
  List, [], ◌∷◌, ◌++◌, String,
}
use birthly_go.Prelude.Text.{Text, codes, text_eq}
use birthly_go.Prelude.Decimal.{is_digit}
use birthly_go.Core.Chars.{is_empty, trim_space}
use birthly_go.Core.DateText.Format.{pad}
use birthly_go.Core.InputText.{
  Complaint, Checked, valid, invalid, validate_nickname, validate_notes, validate_relation,
  validate_phone,
}
use birthly_go.Store.Models.{Event}
use birthly_go.Scheduler.Clock.{cut_colon}
use birthly_go.Scheduler.Plan.{or_else}

-- The hour of `timeRE`: one digit, or two up to 23; and its minutes, two digits up to 59.
abbrev pub hour_of : Text → Option ℕ
hour_of (a ∷ []) = if is_digit a then some (a - b'0') else none
hour_of (a ∷ b ∷ []) =
    if ((a == b'0' || a == b'1') && is_digit b) || (a == b'2' && leb b'0' b && leb b b'3')
    then some ((a - b'0') * 10 + (b - b'0'))
    else none
hour_of _ = none

abbrev pub is_minutes : Text → Bool
is_minutes (m ∷ n ∷ []) = leb b'0' m && leb m b'5' && is_digit n
is_minutes _ = false

abbrev pub padded_time : Option ℕ → Text → Option Text
padded_time none minutes = none
padded_time (some hour) minutes =
    if is_minutes minutes then some (pad 2 hour ++ b':' ∷ minutes) else none

abbrev pub time_at_colon : Option (Text × Text) → Option Text
time_at_colon none = none
time_at_colon (some (hours, minutes)) = padded_time (hour_of hours) minutes

unfoldable pub read_time : Text → Option Text
unfolding cut_colon pad
read_time raw = time_at_colon (cut_colon (trim_space raw))

abbrev pub is_named : Text → String → Bool
is_named field name = text_eq field (codes name)

unfoldable pub set_event_field : Event → Text → Option Text → Event
set_event_field e field value =
    if is_named field "category"
    then record e { category = or_else value e.category }
    else if is_named field "relation"
    then record e { relation = value }
    else if is_named field "phone"
    then record e { phone = value }
    else if is_named field "nickname"
    then record e { nickname = value }
    else if is_named field "notes"
    then record e { notes = value }
    else if is_named field "gender"
    then record e { gender = value }
    else if is_named field "event_time"
    then record e { event_time = value }
    else if is_named field "event_type"
    then record e { event_type = or_else value e.event_type }
    else if is_named field "photo"
    then record e { photo_file_id = value }
    else e

abbrev pub has_text : Option Text → Bool
has_text none = false
has_text (some s) = not (is_empty s)

unfoldable pub field_has_value : Event → Text → Bool
field_has_value e field =
    if is_named field "phone"
    then has_text e.phone
    else if is_named field "event_time"
    then has_text e.event_time
    else if is_named field "photo"
    then has_text e.photo_file_id
    else if is_named field "relation"
    then has_text e.relation
    else if is_named field "nickname"
    then has_text e.nickname
    else if is_named field "notes"
    then has_text e.notes
    else false

-- What a text is for a field: nothing for a field that is not typed, a refusal, or the value.
pub data TypedValue : Type 0 where
  not_typed bad_time : TypedValue
  complained : Complaint → TypedValue
  given : Text → TypedValue

abbrev pub typed_time : Option Text → TypedValue
typed_time none = bad_time
typed_time (some t) = given t

abbrev pub typed_checked : Checked Text → TypedValue
typed_checked (invalid complaint) = complained complaint
typed_checked (valid s) = given s

unfoldable pub read_field : Text → Text → TypedValue
unfolding read_time validate_phone
read_field field raw =
    if is_named field "event_time"
    then typed_time (read_time raw)
    else if is_named field "relation"
    then typed_checked (validate_relation raw)
    else if is_named field "phone"
    then typed_checked (validate_phone raw)
    else if is_named field "nickname"
    then typed_checked (validate_nickname raw)
    else if is_named field "notes"
    then typed_checked (validate_notes raw)
    else not_typed

-- The last of the sizes of a photo.
abbrev pub largest_photo : Text → List Text → Text
largest_photo id [] = id
largest_photo id (next ∷ ids) = largest_photo next ids
