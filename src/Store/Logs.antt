-- ===== src/Store/Logs.antt =====
-- internal/store/repo/notifications.go over the table `notifications_log` of
-- migrations/00001_baseline.sql. A statement runs whole or not at all, and never fails but for the
-- table's UNIQUE constraint.
use birthly_go.Prelude.{
  length, take, ℕ, ◌+◌, Bool, true, false, not, ◌&&◌, ltb, leb, ◌==◌, if◌then◌else◌, List, [], ◌∷◌,
  ◌++◌, Option, none, some, filterb, any,
}
use birthly_go.Prelude.Text.{Text}
use birthly_go.Core.Civil.{Date}
use birthly_go.Store.Models.{in_seconds, NotificationLog, Status, pending, sent, failed, skipped}

pub record LogTable : Type 0 where
  pub rows : List NotificationLog
  pub next_id : ℕ

abbrev pub same_id : Option ℕ → Option ℕ → Bool
same_id (some a) (some b) = a == b
same_id _ _ = false

abbrev pub same_date : Date → Date → Bool
same_date a b = a.year == b.year && a.month == b.month && a.day == b.day

-- The columns of the UNIQUE constraint agree. In SQL a NULL rule agrees with none.
unfoldable pub has_key : ℕ → Option ℕ → Date → NotificationLog → Bool
has_key event_id rule_id occurrence row =
    row.event_id == event_id
    && same_id row.rule_id rule_id
    && same_date row.occurrence_date occurrence

abbrev pub pending_row : ℕ → ℕ → ℕ → Option ℕ → Date → ℕ → NotificationLog
pending_row id user_id event_id rule_id occurrence scheduled_at = record {
  id = id;
  user_id = user_id;
  event_id = event_id;
  rule_id = rule_id;
  occurrence_date = occurrence;
  scheduled_at = in_seconds scheduled_at;
  sent_at = none;
  status = pending;
  error = none;
  attempts = 0;
}

-- `CreatePending`: `none` where the UNIQUE constraint fires.
unfoldable pub create_pending :
    ℕ → ℕ → Option ℕ → Date → ℕ → LogTable → LogTable × Option NotificationLog
create_pending user_id event_id rule_id occurrence scheduled_at t =
    if any (has_key event_id rule_id occurrence) t.rows
    then (t, none)
    else (let row = pending_row t.next_id user_id event_id rule_id occurrence scheduled_at in
        (record { rows = t.rows ++ row ∷ []; next_id = t.next_id + 1 }, some row))

-- `UPDATE notifications_log SET … WHERE id = ?`
unfoldable pub update_rows :
    ℕ → (NotificationLog → NotificationLog) → List NotificationLog → List NotificationLog
update_rows id f [] = []
update_rows id f (row ∷ rows) = (if row.id == id then f row else row) ∷ update_rows id f rows

abbrev pub update_row : ℕ → (NotificationLog → NotificationLog) → LogTable → LogTable
update_row id f t = record t { rows = update_rows id f t.rows }

unfoldable pub mark_sent : ℕ → ℕ → LogTable → LogTable
mark_sent id now t =
    update_row id
      (λ r. record r { status = sent; sent_at = some (in_seconds now); attempts = r.attempts + 1 })
      t

-- A text in bytes, cut at a length.
abbrev pub cut_at : ℕ → Text → Text
cut_at n text = if ltb n (length text) then take n text else text

unfoldable pub mark_failed : ℕ → Text → LogTable → LogTable
mark_failed id error_text t =
    update_row id
      (λ r. record r {
        status = failed;
        error = some (cut_at 500 error_text);
        attempts = r.attempts + 1;
      })
      t

unfoldable pub mark_skipped : ℕ → LogTable → LogTable
mark_skipped id t = update_row id (λ r. record r { status = skipped; attempts = r.attempts + 1 }) t

abbrev pub is_pending : Status → Bool
is_pending pending = true
is_pending _ = false

unfoldable pub is_due : ℕ → NotificationLog → Bool
is_due cutoff row = is_pending row.status && leb row.scheduled_at (in_seconds cutoff)

unfoldable pub get_pending_logs_before : ℕ → LogTable → List NotificationLog
get_pending_logs_before cutoff t = filterb (is_due cutoff) t.rows

unfoldable pub delete_old_logs : ℕ → LogTable → LogTable
delete_old_logs cutoff t = record t {
  rows = filterb (λ r. not (ltb r.scheduled_at (in_seconds cutoff))) t.rows;
}
