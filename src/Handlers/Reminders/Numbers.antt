-- ===== src/Handlers/Reminders/Numbers.antt =====
-- How a write changes the number of the rules with a property, and that the numbers of the rules stay unique.
use birthly_go.Prelude.{
  ℕ, ◌+◌, ◌≤◌, ◌≡◌, refl, ap, sym, subst, ◌∙◌, Bool, true, false, ◌==◌, if◌then◌else◌, some, List,
  [], ◌∷◌, ◌++◌, inl, inr, Bool-cases, any, filterb, if-holds, ◌||◌, length, All, arith,
}
use birthly_go.Store.Models.{ReminderRule}
use birthly_go.Store.Database.{find_rule}
use birthly_go.Store.Rules.{is_rule, update_rules}

abbrev pub has_number : ℕ → List ReminderRule → Bool
has_number id rules = any (λ (r : ReminderRule). r.id == id) rules

-- No two rules have a number in common.
abbrev pub HasUniqueRules : List ReminderRule → Type 0
HasUniqueRules [] = Unit
HasUniqueRules (r ∷ rules) = (has_number r.id rules ≡ false) × HasUniqueRules rules

abbrev pub matching : (ReminderRule → Bool) → List ReminderRule → ℕ
matching p rules = length (filterb p rules)

pub matching-append :
    (p : ReminderRule → Bool) (row : ReminderRule) (rules : List ReminderRule)
    → matching p (rules ++ row ∷ []) ≡ matching p rules + (if p row then 1 else 0)
matching-append p row [] = ground arith
matching-append p row (r ∷ rules) = ground (arith, matching-append p row rules)

pub matching-filterb :
    (p q : ReminderRule → Bool) (rules : List ReminderRule)
    → matching p (filterb q rules) ≤ matching p rules
matching-filterb p q [] = omega arith
matching-filterb p q (r ∷ rules) = ground (arith, matching-filterb p q rules)

pub matching-update :
    (p : ReminderRule → Bool) (id user_id : ℕ) (f : ReminderRule → ReminderRule)
    (rules : List ReminderRule)
    → All (λ r. is_rule id user_id r ≡ true → p (f r) ≡ p r) rules
    → matching p (update_rules id user_id f rules) ≡ matching p rules
unfolding update_rules
matching-update p id user_id f [] h = refl
matching-update p id user_id f (r ∷ rules) h =
    ground (arith, h.0, matching-update p id user_id f rules h.1)

pub All-imp :
    {A : Type 0} {P Q : A → Type 0} → ((a : A) → P a → Q a) → (xs : List A) → All P xs → All Q xs
All-imp f [] h = tt
All-imp f (x ∷ xs) h = (f x h.0, All-imp f xs h.1)

pub always : {A : Type 0} (P : A → Type 0) (xs : List A) → ((a : A) → P a) → All P xs
always P [] h = tt
always P (x ∷ xs) h = (h x, always P xs h)

append-number :
    (j : ℕ) (row : ReminderRule) (rules : List ReminderRule)
    → has_number j (rules ++ row ∷ []) ≡ (has_number j rules || row.id == j)
append-number j row [] = ground arith
append-number j row (r ∷ rules) = ground (arith, append-number j row rules)

filterb-number :
    (q : ReminderRule → Bool) (j : ℕ) (rules : List ReminderRule)
    → has_number j rules ≡ false
    → has_number j (filterb q rules) ≡ false
filterb-number q j [] h = refl
filterb-number q j (r ∷ rules) h = ground (arith, filterb-number q j rules)

pub append-HasUniqueRules :
    (row : ReminderRule) (rules : List ReminderRule)
    → has_number row.id rules ≡ false
    → HasUniqueRules rules
    → HasUniqueRules (rules ++ row ∷ [])
append-HasUniqueRules row [] h u = (refl, tt)
append-HasUniqueRules row (r ∷ rules) h u = (
  ground (arith, append-number r.id row rules),
  append-HasUniqueRules row rules (ground (arith, h)) u.1,
)

pub filterb-HasUniqueRules :
    (q : ReminderRule → Bool) (rules : List ReminderRule)
    → HasUniqueRules rules
    → HasUniqueRules (filterb q rules)
filterb-HasUniqueRules q [] u = tt
filterb-HasUniqueRules q (r ∷ rules) u = elim (Bool-cases (q r)) [
  | inl stays ↦
      rw (stays, filterb) (filterb-number q r.id rules u.0, filterb-HasUniqueRules q rules u.1)
  | inr goes ↦ rw (goes, filterb) (filterb-HasUniqueRules q rules u.1)
]

update-number :
    (id user_id j : ℕ) (f : ReminderRule → ReminderRule) (rules : List ReminderRule)
    → ((r : ReminderRule) → (f r).id ≡ r.id)
    → has_number j (update_rules id user_id f rules) ≡ has_number j rules
unfolding update_rules
update-number id user_id j f [] h = refl
update-number id user_id j f (r ∷ rules) h =
    ground (arith, h r, update-number id user_id j f rules h)

pub update-HasUniqueRules :
    (id user_id : ℕ) (f : ReminderRule → ReminderRule) (rules : List ReminderRule)
    → ((r : ReminderRule) → (f r).id ≡ r.id)
    → HasUniqueRules rules
    → HasUniqueRules (update_rules id user_id f rules)
unfolding update_rules
update-HasUniqueRules id user_id f [] h u = tt
update-HasUniqueRules id user_id f (r ∷ rules) h u = (
  update-number id user_id _ f rules h
      ∙ if-holds (λ (x : ReminderRule). has_number x.id rules ≡ false) (is_rule id user_id r) (f r)
          r (subst (λ j. has_number j rules ≡ false) (sym (h r)) u.0) u.0,
  update-HasUniqueRules id user_id f rules h u.1,
)

no_other :
    (id user_id : ℕ) (row : ReminderRule) (rules : List ReminderRule)
    → has_number id rules ≡ false
    → All (λ (r : ReminderRule). is_rule id user_id r ≡ true → r.event_id ≡ row.event_id) rules
no_other id user_id row [] h = tt
no_other id user_id row (r ∷ rules) h =
    (λ e. absurd (ground (arith, h, e)), no_other id user_id row rules (ground (arith, h)))

-- The rule that is found is the only one with its number.
pub found-only :
    (id user_id : ℕ) (row : ReminderRule) (rules : List ReminderRule)
    → HasUniqueRules rules
    → find_rule id user_id rules ≡ some row
    → All (λ (r : ReminderRule). is_rule id user_id r ≡ true → r.event_id ≡ row.event_id) rules
unfolding find_rule
found-only id user_id row [] u h = tt
found-only id user_id row (r ∷ rules) u h = elim (Bool-cases (is_rule id user_id r)) [
  | inl here ↦
      let first : find_rule id user_id (r ∷ rules) ≡ some r = rw here refl in
      let same : r ≡ row = cc in
      (
        λ _. ap (λ (x : ReminderRule). x.event_id) same,
        no_other id user_id row rules
            (subst (λ j. has_number j rules ≡ false) (ground (arith, here)) u.0),
      )
  | inr other ↦
      let later : find_rule id user_id (r ∷ rules) ≡ find_rule id user_id rules = rw other refl in
      (λ e. absurd cc, found-only id user_id row rules u.1 (sym later ∙ h))
]
