-- ===== src/Handlers/EventAdd/Birthday.antt =====
-- What a new event that is typed in two messages is: a birthday with the parts of a name.
use birthly_go.Prelude.{
  ◌+◌, ◌≤◌, ◌<◌, ◌≡◌, ◌≢◌, ◌⊎◌, refl, ap, true, ◌==◌, Option, none, some, [], ◌∷◌, ◌++◌, All,
  Bool-cases, inl, inr, arith,
}
use birthly_go.Prelude.Text.{Text, codes}
use birthly_go.Core.Chars.{trim_space}
use birthly_go.Core.Gregorian.{next_gregorian_occurrence}
use birthly_go.Core.DateText.{ParsedDate}
use birthly_go.Store.Models.{Event}
use birthly_go.Store.Database.{Database}
use birthly_go.Handlers.EventAdd.{Update, non_empty, cut_blank, split_name, last_of}
use birthly_go.Handlers.EventAdd.Creation.{gregorian_input, new_row}

-- A name without a blank is the first part. Otherwise the first part is what is before the first blank, and
-- the last what is after it, without white space at its ends, if that leaves anything.
pub record IsParts (name first : Text) (last : Option Text) : Type 0 where
  pub no_blank : All (λ c. c ≢ 32) first
  pub parted :
      ((name ≡ first) × (last ≡ none))
      ⊎ ((rest : Text) × (name ≡ first ++ 32 ∷ rest) × (last ≡ non_empty (trim_space rest)))

-- The row of a birthday of a user, typed as a name and a date.
pub record IsNewBirthday (detect_gender : Text → Option Text) (u : Update) (db : Database)
    (name : Text) (d : ParsedDate) (e : Event) : Type 0 where
  pub numbers : (e.id ≡ db.next_event_id) × (e.user_id ≡ u.user.id)
  pub kind :
      (e.event_type ≡ codes "birthday")
      × (e.custom_type_label ≡ none)
      × (e.category ≡ codes "other")
  pub parts : IsParts name e.first_name e.last_name
  pub found_gender : e.gender ≡ detect_gender e.first_name
  pub calendar : e.calendar_type ≡ "gregorian"
  pub on_date : (e.year ≡ d.year) × (e.month ≡ d.month) × (e.day ≡ d.day)
  pub next :
      e.next_occurrence ≡ some (next_gregorian_occurrence d.month d.day u.today u.user.feb29_policy)
  pub no_second :
      (e.secondary_calendar_type ≡ none)
      × (e.secondary_month ≡ none)
      × (e.secondary_day ≡ none)
      × (e.secondary_next_occurrence ≡ none)
  pub no_details : (e.nickname ≡ none) × (e.relation ≡ none) × (e.notes ≡ none)
  pub no_contacts :
      (e.event_time ≡ none)
      × (e.phone ≡ none)
      × (e.telegram_username ≡ none)
      × (e.photo_file_id ≡ none)
  pub active : (e.is_active ≡ true) × (e.deleted_at ≡ none)
  pub second : (e.created_at ≤ u.now) × (u.now < e.created_at + 1_000_000_000)
  pub written_once : e.updated_at ≡ e.created_at

cut_blank-IsParts : (name : Text) → IsParts name (cut_blank name).0 (last_of (cut_blank name).1)
unfolding cut_blank
cut_blank-IsParts [] = record { no_blank = tt; parted = inl (refl, refl) }
cut_blank-IsParts (c ∷ s) = elim (Bool-cases (c == 32)) [
  | inl blank ↦
      rw blank
        (record { no_blank = tt; parted = inr (s, ap (λ x. x ∷ s) (ground (arith, blank)), refl) })
  | inr other ↦ rw other (record {
    no_blank = (ground (arith, other), (cut_blank-IsParts s).no_blank);
    parted = elim (cut_blank-IsParts s).parted [
      | inl (same, alone) ↦ inl (ap (λ x. c ∷ x) same, alone)
      | inr (rest, same, last) ↦ inr (rest, ap (λ x. c ∷ x) same, last)
    ];
  })
]

split_name-IsParts : (name : Text) → IsParts name (split_name name).0 (split_name name).1
unfolding split_name
split_name-IsParts name = cut_blank-IsParts name

pub new_row-IsNewBirthday :
    (detect_gender : Text → Option Text) (u : Update) (db : Database) (name : Text) (d : ParsedDate)
    → IsNewBirthday detect_gender u db name d (
        new_row u db (
          gregorian_input
            (split_name name).0
            (split_name name).1
            d
            (detect_gender (split_name name).0)))
new_row-IsNewBirthday detect_gender u db name d = record {
  numbers = (refl, refl);
  kind = (refl, refl, refl);
  parts = split_name-IsParts name;
  found_gender = refl;
  calendar = refl;
  on_date = (refl, refl, refl);
  next = refl;
  no_second = (refl, refl, refl, refl);
  no_details = (refl, refl, refl);
  no_contacts = (refl, refl, refl, refl);
  active = (refl, refl);
  second = (omega arith, omega arith);
  written_once = refl;
}
