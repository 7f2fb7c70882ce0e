-- ===== src/Store/Links.antt =====
-- The foreign keys of the rules and of the notification log.
use birthly_go.Prelude.{
  ℕ, ◌≡◌, Bool, true, false, not, ◌&&◌, ◌==◌, List, [], ◌∷◌, Option, none, some, filterb, any, All,
  arith,
}
use birthly_go.Store.Models.{Event, ReminderRule, NotificationLog}
use birthly_go.Store.Database.{Database}

abbrev pub has_event : List Event → ℕ → Bool
has_event events id = any (λ (e : Event). e.id == id) events

abbrev pub has_rule : List ReminderRule → ℕ → Bool
has_rule rules id = any (λ (r : ReminderRule). r.id == id) rules

abbrev pub NoneOrIn : (ℕ → Bool) → Option ℕ → Type 0
NoneOrIn p none = Unit
NoneOrIn p (some id) = p id ≡ true

-- The foreign keys of the rules and of the log.
abbrev pub RulesLinked : List Event → List ReminderRule → Type 0
RulesLinked events rules = All (λ (r : ReminderRule). NoneOrIn (has_event events) r.event_id) rules

abbrev pub RowIsLinked : List Event → List ReminderRule → NotificationLog → Type 0
RowIsLinked events rules row =
    (has_event events row.event_id ≡ true) × NoneOrIn (has_rule rules) row.rule_id

pub record IsLinked (db : Database) : Type 0 where
  pub rules_linked : RulesLinked db.events db.rules
  pub logs_linked : All (λ row. RowIsLinked db.events db.rules row) db.logs.rows

pub any-filterb :
    {A : Type 0} (q p : A → Bool) (xs : List A)
    → any q xs ≡ true
    → any (λ x. q x && p x) xs ≡ false
    → any q (filterb (λ x. not (p x)) xs) ≡ true
any-filterb q p [] h n = cc
any-filterb q p (x ∷ xs) h n = ground (arith, any-filterb q p xs)
