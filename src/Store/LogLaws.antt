-- ===== src/Store/LogLaws.antt =====
-- The UNIQUE constraint as an invariant of the log, and what stays logged.
use birthly_go.Prelude.{
  ℕ, ◌+◌, ◌≤◌, ◌<◌, ◌≡◌, refl, Bool, true, false, ◌||◌, List, [], ◌∷◌, ◌++◌, Option, none, some,
  any, arith, Bool-cases, inl, inr,
}
use birthly_go.Prelude.Text.{Text}
use birthly_go.Core.Civil.{Date}
use birthly_go.Store.Models.{NotificationLog, pending}
use birthly_go.Store.Logs.{
  LogTable, has_key, pending_row, create_pending, update_rows, mark_sent, mark_failed, mark_skipped,
}

-- The columns under the UNIQUE constraint, with a rule.
pub record Key : Type 0 where
  pub event_id : ℕ
  pub rule_id : ℕ
  pub occurrence : Date

abbrev pub key : ℕ → ℕ → Date → Key
key e r d = record { event_id = e; rule_id = r; occurrence = d }

-- A row for the key is in the log, whatever its status.
abbrev pub logged : Key → LogTable → Bool
logged k t = any (has_key k.event_id (some k.rule_id) k.occurrence) t.rows

any-append :
    (p : NotificationLog → Bool) (xs : List NotificationLog) (y : NotificationLog)
    → any p (xs ++ y ∷ []) ≡ (any p xs || p y)
any-append p [] y = ground arith
any-append p (x ∷ xs) y = ground (arith, any-append p xs y)

-- A write that leaves the key columns of a row alone.
abbrev pub KeepsKey : (NotificationLog → NotificationLog) → Type 0
KeepsKey f =
    (e : ℕ) (r : Option ℕ) (d : Date) (row : NotificationLog)
    → has_key e r d (f row) ≡ has_key e r d row

any-update_rows :
    (id : ℕ) (f : NotificationLog → NotificationLog) (e : ℕ) (r : Option ℕ) (d : Date)
    (rows : List NotificationLog)
    → KeepsKey f
    → any (has_key e r d) (update_rows id f rows) ≡ any (has_key e r d) rows
unfolding update_rows
any-update_rows id f e r d [] keep = refl
any-update_rows id f e r d (row ∷ rows) keep =
    ground (arith, keep e r d row, any-update_rows id f e r d rows keep)

pub logged-mark_skipped :
    (k : Key) (id : ℕ) (t : LogTable) → logged k (mark_skipped id t) ≡ logged k t
unfolding mark_skipped has_key
logged-mark_skipped k id t =
    any-update_rows id _ k.event_id (some k.rule_id) k.occurrence t.rows (λ e r d row. refl)

pub logged-mark_sent :
    (k : Key) (id now : ℕ) (t : LogTable) → logged k (mark_sent id now t) ≡ logged k t
unfolding mark_sent has_key
logged-mark_sent k id now t =
    any-update_rows id _ k.event_id (some k.rule_id) k.occurrence t.rows (λ e r d row. refl)

pub logged-mark_failed :
    (k : Key) (id : ℕ) (text : Text) (t : LogTable) → logged k (mark_failed id text t) ≡ logged k t
unfolding mark_failed has_key
logged-mark_failed k id text t =
    any-update_rows id _ k.event_id (some k.rule_id) k.occurrence t.rows (λ e r d row. refl)

-- A new row for the key, at the whole second of the time: it waits, nothing was sent for it and it has no
-- error and no attempt.
pub record IsNewPending (id user_id scheduled_at : ℕ) (k : Key) (row : NotificationLog)
    : Type 0 where
  pub numbers : (row.id ≡ id) × (row.user_id ≡ user_id)
  pub keyed :
      (row.event_id ≡ k.event_id)
      × (row.rule_id ≡ some k.rule_id)
      × (row.occurrence_date ≡ k.occurrence)
  pub second : (row.scheduled_at ≤ scheduled_at) × (scheduled_at < row.scheduled_at + 1_000_000_000)
  pub waits : row.status ≡ pending
  pub not_tried : (row.sent_at ≡ none) × (row.error ≡ none) × (row.attempts ≡ 0)

-- What `CreatePending` does to the log: a new row exactly where the key was not logged yet, behind all
-- others and returned; afterwards it is, and nothing that was logged is lost.
pub record Creates (user_id scheduled_at : ℕ) (k : Key) (t : LogTable) (t' : LogTable)
    (row : Option NotificationLog) : Type 0 where
  pub now_logged : logged k t' ≡ true
  pub kept : (j : Key) → logged j t ≡ true → logged j t' ≡ true
  pub refused : logged k t ≡ true → (row ≡ none) × (t' ≡ t)
  pub created :
      logged k t ≡ false
      → (new : NotificationLog) × IsNewPending t.next_id user_id scheduled_at k new
        × (row ≡ some new)
        × (t' ≡ record { rows = t.rows ++ new ∷ []; next_id = t.next_id + 1 })

has_key_self :
    (k : Key) (id user_id scheduled_at : ℕ)
    → has_key k.event_id
        (some k.rule_id)
        k.occurrence
        (pending_row id user_id k.event_id (some k.rule_id) k.occurrence scheduled_at)
      ≡ true
unfolding has_key
has_key_self k id user_id scheduled_at = ground arith

pub create_pending-Creates :
    (user_id scheduled_at : ℕ) (k : Key) (t : LogTable)
    → Creates user_id scheduled_at k t
        (create_pending user_id k.event_id (some k.rule_id) k.occurrence scheduled_at t).0
        (create_pending user_id k.event_id (some k.rule_id) k.occurrence scheduled_at t).1
unfolding create_pending
create_pending-Creates user_id scheduled_at k t = elim (Bool-cases (logged k t)) [
  | inl old ↦
      rw old (record {
        now_logged = old;
        kept = λ j h. h;
        refused = λ h. (refl, refl);
        created = λ h. cc;
      })
  | inr new ↦ rw new (record {
    now_logged = ground (
      arith,
      has_key_self k t.next_id user_id scheduled_at,
      any-append (has_key k.event_id (some k.rule_id) k.occurrence) t.rows
          (pending_row t.next_id user_id k.event_id (some k.rule_id) k.occurrence scheduled_at),
    );
    kept = λ j h. ground (
      arith,
      any-append (has_key j.event_id (some j.rule_id) j.occurrence) t.rows
          (pending_row t.next_id user_id k.event_id (some k.rule_id) k.occurrence scheduled_at),
    );
    refused = λ h. cc;
    created = λ h. (
      pending_row t.next_id user_id k.event_id (some k.rule_id) k.occurrence scheduled_at,
      record {
        numbers = (refl, refl);
        keyed = (refl, refl, refl);
        second = (omega arith, omega arith);
        waits = refl;
        not_tried = (refl, refl, refl);
      },
      refl,
      refl,
    );
  })
]

-- No two rows agree in the columns of the UNIQUE constraint.
abbrev pub IsUnique : List NotificationLog → Type 0
IsUnique [] = Unit
IsUnique (row ∷ rows) =
    (any (has_key row.event_id row.rule_id row.occurrence_date) rows ≡ false) × IsUnique rows

has_key_sym :
    (a b : NotificationLog)
    → has_key a.event_id a.rule_id a.occurrence_date b
      ≡ has_key b.event_id b.rule_id b.occurrence_date a
unfolding has_key
has_key_sym a b = ground arith

append-IsUnique :
    (rows : List NotificationLog) (row : NotificationLog)
    → IsUnique rows
    → any (has_key row.event_id row.rule_id row.occurrence_date) rows ≡ false
    → IsUnique (rows ++ row ∷ [])
append-IsUnique [] row u h = (refl, tt)
append-IsUnique (r ∷ rows) row u h = (
  ground (
    arith,
    has_key_sym r row,
    any-append (has_key r.event_id r.rule_id r.occurrence_date) rows row,
  ),
  append-IsUnique rows row u.1 (ground arith),
)

-- `CreatePending` never breaks the UNIQUE constraint, also for a row without a rule.
pub create_pending-IsUnique :
    (user_id event_id : ℕ) (rule_id : Option ℕ) (occurrence : Date) (scheduled_at : ℕ)
    (t : LogTable)
    → IsUnique t.rows
    → IsUnique (create_pending user_id event_id rule_id occurrence scheduled_at t).0.rows
unfolding create_pending
create_pending-IsUnique user_id event_id rule_id occurrence scheduled_at t u =
    elim (Bool-cases (any (has_key event_id rule_id occurrence) t.rows)) [
      | inl old ↦ rw old u
      | inr new ↦ rw new (
          append-IsUnique t.rows
            (pending_row t.next_id user_id event_id rule_id occurrence scheduled_at) u new)
    ]
