-- ===== src/Handlers/EventEdit/Columns.antt =====
-- The columns of an event that the editor can change, one by one, and what an update does to each column.
use birthly_go.Prelude.{
  ℕ, ◌≡◌, ◌≢◌, refl, sym, subst, ◌∙◌, false, Option, none, some, String, Bool-cases, inl, inr,
  if-holds, arith,
}
use birthly_go.Prelude.Text.{Text, codes, text_eq, text_eq_iff}
use birthly_go.Core.Hebrew.{Hdate}
use birthly_go.Core.Civil.{Date}
use birthly_go.Store.Models.{User, Event}
use birthly_go.Services.Action.{ok}
use birthly_go.Services.Events.{recompute_occurrence}
use birthly_go.Scheduler.Plan.{or_else}
use birthly_go.Handlers.EditFields.{set_event_field, is_named, read_field, given, not_typed}
use birthly_go.Handlers.EventEdit.Owned.{stored_row, recompute_occurrence-OnlyDates}

pub data Column : Type 0 where
  category relation phone nickname notes gender event_time event_type photo : Column

abbrev pub column_name : Column → String
column_name category = "category"
column_name relation = "relation"
column_name phone = "phone"
column_name nickname = "nickname"
column_name notes = "notes"
column_name gender = "gender"
column_name event_time = "event_time"
column_name event_type = "event_type"
column_name photo = "photo"

abbrev pub read_column : Column → Event → Option Text
read_column category e = some e.category
read_column relation e = e.relation
read_column phone e = e.phone
read_column nickname e = e.nickname
read_column notes e = e.notes
read_column gender e = e.gender
read_column event_time e = e.event_time
read_column event_type e = some e.event_type
read_column photo e = e.photo_file_id

-- A column that always has a value keeps it where none is given.
abbrev kept_without : Option Text → Option Text → Option Text
kept_without none old = old
kept_without (some s) old = some s

abbrev pub written : Column → Option Text → Option Text → Option Text
written category value old = kept_without value old
written event_type value old = kept_without value old
written _ value old = value

-- The columns that the editor leaves alone, but for the owner's and the times.
pub record SameRest (e r : Event) : Type 0 where
  pub number : r.id ≡ e.id
  pub label : r.custom_type_label ≡ e.custom_type_label
  pub name : (r.first_name ≡ e.first_name) × (r.last_name ≡ e.last_name)
  pub calendar : r.calendar_type ≡ e.calendar_type
  pub day : (r.year ≡ e.year) × (r.month ≡ e.month) × (r.day ≡ e.day)
  pub telegram : r.telegram_username ≡ e.telegram_username
  pub second_day :
      (r.secondary_calendar_type ≡ e.secondary_calendar_type)
      × (r.secondary_month ≡ e.secondary_month)
      × (r.secondary_day ≡ e.secondary_day)
  pub active : r.is_active ≡ e.is_active

-- The column with the name of the field holds the value, and every other column but the occurrences and the
-- time of the last write is as it was.
pub record SetsColumn (field : Text) (value : Option Text) (e r : Event) : Type 0 where
  pub written_to :
      (c : Column)
      → field ≡ codes (column_name c)
      → read_column c r ≡ written c value (read_column c e)
  pub others : (c : Column) → field ≢ codes (column_name c) → read_column c r ≡ read_column c e
  pub rest : SameRest e r
  pub owner : r.user_id ≡ e.user_id
  pub times : (r.deleted_at ≡ e.deleted_at) × (r.created_at ≡ e.created_at)

is_named-false : (field : Text) (name : String) → field ≢ codes name → is_named field name ≡ false
is_named-false field name differ = elim (Bool-cases (is_named field name)) [
  | inl same ↦ absurd (differ ((text_eq_iff field (codes name)).0 same))
  | inr other ↦ other
]

kept_without-or_else :
    (value : Option Text) (old : Text) → some (or_else value old) ≡ kept_without value (some old)
kept_without-or_else none old = refl
kept_without-or_else (some s) old = refl

module _ (e : Event) (value : Option Text) where
  named_written :
      (c : Column)
      → read_column c (set_event_field e (codes (column_name c)) value)
        ≡ written c value (read_column c e)
  unfolding set_event_field text_eq
  named_written category = kept_without-or_else value e.category
  named_written relation = refl
  named_written phone = refl
  named_written nickname = refl
  named_written notes = refl
  named_written gender = refl
  named_written event_time = refl
  named_written event_type = kept_without-or_else value e.event_type
  named_written photo = refl

  other_kept :
      (field : Text) (c : Column)
      → is_named field (column_name c) ≡ false
      → read_column c (set_event_field e field value) ≡ read_column c e
  unfolding set_event_field
  other_kept field category h = ground (arith, h)
  other_kept field relation h = ground (arith, h)
  other_kept field phone h = ground (arith, h)
  other_kept field nickname h = ground (arith, h)
  other_kept field notes h = ground (arith, h)
  other_kept field gender h = ground (arith, h)
  other_kept field event_time h = ground (arith, h)
  other_kept field event_type h = ground (arith, h)
  other_kept field photo h = ground (arith, h)

  same_rest :
      (v_category v_type : Text)
      (v_relation v_phone v_nickname v_notes v_gender v_time v_photo : Option Text)
      → SameRest e (record e {
        category = v_category;
        event_type = v_type;
        relation = v_relation;
        phone = v_phone;
        nickname = v_nickname;
        notes = v_notes;
        gender = v_gender;
        event_time = v_time;
        photo_file_id = v_photo;
      })
  same_rest c t r p n o g i f = record {
    number = refl;
    label = refl;
    name = (refl, refl);
    calendar = refl;
    day = (refl, refl, refl);
    telegram = refl;
    second_day = (refl, refl, refl);
    active = refl;
  }

  rest_kept : (field : Text) → SameRest e (set_event_field e field value)
  unfolding set_event_field
  rest_kept field =
      if-holds (SameRest e) (is_named field "category") _ _ (same_rest _ _ _ _ _ _ _ _ _) (
        if-holds (SameRest e) (is_named field "relation") _ _ (same_rest _ _ _ _ _ _ _ _ _) (
          if-holds (SameRest e) (is_named field "phone") _ _ (same_rest _ _ _ _ _ _ _ _ _) (
            if-holds (SameRest e) (is_named field "nickname") _ _ (same_rest _ _ _ _ _ _ _ _ _) (
              if-holds (SameRest e) (is_named field "notes") _ _ (same_rest _ _ _ _ _ _ _ _ _) (
                if-holds (SameRest e) (is_named field "gender") _ _ (same_rest _ _ _ _ _ _ _ _ _) (
                  if-holds (SameRest e) (is_named field "event_time") _ _
                    (same_rest _ _ _ _ _ _ _ _ _)
                    (if-holds (SameRest e) (is_named field "event_type") _ _
                      (same_rest _ _ _ _ _ _ _ _ _)
                      (if-holds (SameRest e) (is_named field "photo") _ _
                        (same_rest _ _ _ _ _ _ _ _ _) (same_rest _ _ _ _ _ _ _ _ _)))))))))

read_column-stored :
    (c : Column) (e x : Event) (next second : Option Date) (now : ℕ)
    → read_column c
        (stored_row e (record x { next_occurrence = next; secondary_next_occurrence = second }) now)
      ≡ read_column c x
read_column-stored category e x next second now = refl
read_column-stored relation e x next second now = refl
read_column-stored phone e x next second now = refl
read_column-stored nickname e x next second now = refl
read_column-stored notes e x next second now = refl
read_column-stored gender e x next second now = refl
read_column-stored event_time e x next second now = refl
read_column-stored event_type e x next second now = refl
read_column-stored photo e x next second now = refl

SameRest-stored :
    (e x : Event) (next second : Option Date) (now : ℕ)
    → SameRest e x
    → SameRest e
        (stored_row e (record x { next_occurrence = next; secondary_next_occurrence = second }) now)
SameRest-stored e x next second now h = record {
  number = h.number;
  label = h.label;
  name = h.name;
  calendar = h.calendar;
  day = h.day;
  telegram = h.telegram;
  second_day = h.second_day;
  active = h.active;
}

dated-SetsColumn :
    (field : Text) (value : Option Text) (e : Event) (next second : Option Date) (now : ℕ)
    → SetsColumn field value e (
        stored_row e
          (record (set_event_field e field value) {
            next_occurrence = next;
            secondary_next_occurrence = second;
          })
          now)
dated-SetsColumn field value e next second now = record {
  written_to = λ c same.
      read_column-stored c e (set_event_field e field value) next second now
      ∙ subst (λ f. read_column c (set_event_field e f value) ≡ written c value (read_column c e))
          (sym same) (named_written e value c);
  others = λ c differ.
      read_column-stored c e (set_event_field e field value) next second now
      ∙ other_kept e value field c (is_named-false field (column_name c) differ);
  rest =
      SameRest-stored e (set_event_field e field value) next second now (rest_kept e value field);
  owner = refl;
  times = (refl, refl);
}

-- The row that an update of one field stores.
pub stored_row-SetsColumn :
    (H : Hdate) (user : User) (today : Date) (now : ℕ) (field : Text) (value : Option Text)
    (e computed : Event)
    → recompute_occurrence H user today (set_event_field e field value) ≡ ok computed
    → SetsColumn field value e (stored_row e computed now)
stored_row-SetsColumn H user today now field value e computed h =
    let (next, second, same) =
      recompute_occurrence-OnlyDates H user today (set_event_field e field value) computed h in
    subst (λ x. SetsColumn field value e (stored_row e x now)) (sym same)
      (dated-SetsColumn field value e next second now)

-- A field whose text gives a value has a column.
pub named_column :
    (field raw value : Text)
    → read_field field raw ≡ given value
    → (c : Column) × (field ≡ codes (column_name c))
unfolding read_field
named_column field raw value h = elim (Bool-cases (is_named field "event_time")) [
  | inl here ↦ (event_time, (text_eq_iff field (codes "event_time")).0 here)
  | inr no_time ↦ elim (Bool-cases (is_named field "relation")) [
    | inl here ↦ (relation, (text_eq_iff field (codes "relation")).0 here)
    | inr no_relation ↦ elim (Bool-cases (is_named field "phone")) [
      | inl here ↦ (phone, (text_eq_iff field (codes "phone")).0 here)
      | inr no_phone ↦ elim (Bool-cases (is_named field "nickname")) [
        | inl here ↦ (nickname, (text_eq_iff field (codes "nickname")).0 here)
        | inr no_nickname ↦ elim (Bool-cases (is_named field "notes")) [
          | inl here ↦ (notes, (text_eq_iff field (codes "notes")).0 here)
          | inr no_notes ↦
              let nothing : read_field field raw ≡ not_typed =
                rw (no_time, no_relation, no_phone, no_nickname, no_notes) refl in
              absurd cc
        ]
      ]
    ]
  ]
]
