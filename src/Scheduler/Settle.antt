-- ===== src/Scheduler/Settle.antt =====
-- A send always settles its row, and after `RecoverPending` no row is left pending that was due.
use birthly_go.Prelude.{
  subst, sym, ℕ, zero, suc, ◌+◌, ◌<◌, ◌≡◌, refl, Bool, true, false, ltb, ◌==◌, List, [], ◌∷◌,
  Option, none, some, any, All, arith, filterb, map, Bool-cases, inl, inr,
}
use birthly_go.Prelude.Text.{Text}
use birthly_go.Store.Models.{NotificationLog}
use birthly_go.Store.Logs.{
  LogTable, update_rows, mark_sent, mark_failed, mark_skipped, is_due, get_pending_logs_before,
}
use birthly_go.Store.Database.{Database}
use birthly_go.Scheduler.Send.{
  Answer, delivered, forbidden, too_many_requests, refused, after_answer, send_attempts,
  send_reminder,
}
use birthly_go.Scheduler.Recover.{
  Config, SkipReason, skip_reason, skip_or_send, recover_log, recover_logs, recover_pending,
}

abbrev pub row_id : NotificationLog → ℕ
row_id r = r.id

-- Every row that is due at `now` has one of the numbers.
abbrev pub DueAmong : ℕ → List ℕ → List NotificationLog → Type 0
DueAmong now ids rows =
    All (λ row. is_due now row ≡ true → any (λ id. id == row.id) ids ≡ true) rows

-- A write that ends the wait of a row and leaves its number alone.
abbrev Ends : ℕ → (NotificationLog → NotificationLog) → Type 0
Ends now f = (row : NotificationLog) → (is_due now (f row) ≡ false) × ((f row).id ≡ row.id)

update_rows-DueAmong :
    (now id : ℕ) (ids : List ℕ) (f : NotificationLog → NotificationLog)
    (rows : List NotificationLog)
    → Ends now f
    → DueAmong now (id ∷ ids) rows
    → DueAmong now ids (update_rows id f rows)
unfolding update_rows
update_rows-DueAmong now id ids f [] ends h = tt
update_rows-DueAmong now id ids f (row ∷ rows) ends h = (
  (elim (Bool-cases (row.id == id)) [
    | inl e ↦ rw e (λ due. cc ((ends row).0))
    | inr n ↦ rw n (λ due. ground (arith, h.0 due))
  ]),
  update_rows-DueAmong now id ids f rows ends h.1,
)

-- What a call does to the waiting rows: that of its number waits no more.
abbrev pub Settles : ℕ → ℕ → LogTable → LogTable → Type 0
Settles now id t t' = (ids : List ℕ) → DueAmong now (id ∷ ids) t.rows → DueAmong now ids t'.rows

mark_sent-Settles : (now id at : ℕ) (t : LogTable) → Settles now id t (mark_sent id at t)
unfolding mark_sent is_due
mark_sent-Settles now id at t ids h =
    update_rows-DueAmong now id ids _ t.rows (λ row. (refl, refl)) h

mark_failed-Settles :
    (now id : ℕ) (text : Text) (t : LogTable) → Settles now id t (mark_failed id text t)
unfolding mark_failed is_due
mark_failed-Settles now id text t ids h =
    update_rows-DueAmong now id ids _ t.rows (λ row. (refl, refl)) h

mark_skipped-Settles : (now id : ℕ) (t : LogTable) → Settles now id t (mark_skipped id t)
unfolding mark_skipped is_due
mark_skipped-Settles now id t ids h =
    update_rows-DueAmong now id ids _ t.rows (λ row. (refl, refl)) h

after_answer-Settles :
    (a : Answer) (now attempt user_id log_id : ℕ) (again : Database × Bool) (db : Database)
    → (attempt < 2 → Settles now log_id db.logs again.0.logs)
    → Settles now log_id db.logs (after_answer a attempt user_id log_id again db).0.logs
unfolding after_answer
after_answer-Settles (delivered at) now attempt user_id log_id again db h =
    mark_sent-Settles now log_id at db.logs
after_answer-Settles forbidden now attempt user_id log_id again db h =
    mark_failed-Settles now log_id _ db.logs
after_answer-Settles too_many_requests now attempt user_id log_id again db h =
    elim (Bool-cases (ltb attempt 2)) [
      | inl more ↦ rw more (h (ground arith))
      | inr last ↦ rw last (mark_failed-Settles now log_id _ db.logs)
    ]
after_answer-Settles (refused text) now attempt user_id log_id again db h =
    mark_failed-Settles now log_id _ db.logs

send_attempts-Settles :
    (left now attempt user_id log_id : ℕ) (answers : ℕ → Answer) (db : Database)
    → attempt + suc left ≡ 3
    → Settles now log_id db.logs (send_attempts (suc left) attempt user_id log_id answers db).0.logs
unfolding send_attempts
send_attempts-Settles zero now attempt user_id log_id answers db e =
    after_answer-Settles (answers attempt) now attempt user_id log_id (db, false) db
      (λ p. absurd (omega arith))
send_attempts-Settles (suc left) now attempt user_id log_id answers db e =
    after_answer-Settles (answers attempt) now attempt user_id log_id
      (send_attempts (suc left) (attempt + 1) user_id log_id answers db) db
      (λ p. send_attempts-Settles left now (attempt + 1) user_id log_id answers db (omega arith))

-- Whatever Telegram answers to the attempts, a send ends with its row marked: the row waits no more, and
-- no other row begins to.
pub send_reminder-Settles :
    (now user_id log_id : ℕ) (answers : ℕ → Answer) (db : Database)
    → Settles now log_id db.logs (send_reminder user_id log_id answers db).0.logs
unfolding send_reminder
send_reminder-Settles now user_id log_id answers db =
    send_attempts-Settles 2 now 0 user_id log_id answers db refl

skip_or_send-Settles :
    (reason : Option SkipReason) (now user_id log_id : ℕ) (answers : ℕ → Answer) (db : Database)
    → Settles now log_id db.logs (skip_or_send reason user_id log_id answers db).logs
skip_or_send-Settles none now user_id log_id answers db =
    send_reminder-Settles now user_id log_id answers db
skip_or_send-Settles (some reason) now user_id log_id answers db =
    mark_skipped-Settles now log_id db.logs

recover_logs-DueAmong :
    (cfg : Config) (now : ℕ) (answers : ℕ → ℕ → Answer) (logs : List NotificationLog)
    (db : Database)
    → DueAmong now (map row_id logs) db.logs.rows
    → DueAmong now [] (recover_logs cfg now answers logs db).logs.rows
unfolding recover_logs recover_log
recover_logs-DueAmong cfg now answers [] db h = h
recover_logs-DueAmong cfg now answers (log ∷ logs) db h =
    recover_logs-DueAmong cfg now answers logs (recover_log cfg now (answers log.id) log db) (
      skip_or_send-Settles (skip_reason cfg now log db) now log.user_id log.id (answers log.id) db
        (map row_id logs) h)

-- More numbers do no harm.
DueAmong-cons :
    (now id : ℕ) (ids : List ℕ) (rows : List NotificationLog)
    → DueAmong now ids rows
    → DueAmong now (id ∷ ids) rows
DueAmong-cons now id ids [] h = tt
DueAmong-cons now id ids (row ∷ rows) h =
    (λ due. ground (arith, h.0 due), DueAmong-cons now id ids rows h.1)

filterb-due :
    (now : ℕ) (row : NotificationLog) (rows : List NotificationLog)
    → is_due now row ≡ true
    → filterb (is_due now) (row ∷ rows) ≡ row ∷ filterb (is_due now) rows
filterb-due now row rows h = ground arith

filterb-rest :
    (now : ℕ) (row : NotificationLog) (rows : List NotificationLog)
    → is_due now row ≡ false
    → filterb (is_due now) (row ∷ rows) ≡ filterb (is_due now) rows
filterb-rest now row rows h = ground arith

-- The rows that the query returns are all that are due.
DueAmong-filterb :
    (now : ℕ) (rows : List NotificationLog)
    → DueAmong now (map row_id (filterb (is_due now) rows)) rows
DueAmong-filterb now [] = tt
DueAmong-filterb now (row ∷ rows) = elim (Bool-cases (is_due now row)) [
  | inl due ↦
      subst (λ l. DueAmong now (map row_id l) (row ∷ rows)) (sym (filterb-due now row rows due))
        (
          λ _. ground arith,
          DueAmong-cons now row.id (map row_id (filterb (is_due now) rows)) rows
              (DueAmong-filterb now rows),
        )
  | inr rest ↦
      subst (λ l. DueAmong now (map row_id l) (row ∷ rows)) (sym (filterb-rest now row rows rest))
        (λ d. cc, DueAmong-filterb now rows)
]

none_due :
    (now : ℕ) (rows : List NotificationLog) → DueAmong now [] rows → filterb (is_due now) rows ≡ []
none_due now [] h = refl
none_due now (row ∷ rows) h = ground (arith, h.0, none_due now rows h.1)

-- After `RecoverPending` no row is pending that was due: each was sent, failed or skipped, whatever the
-- state of its user, event and rule and whatever Telegram answered. So a second run finds nothing to do.
pub recover_pending-settles :
    (cfg : Config) (now : ℕ) (answers : ℕ → ℕ → Answer) (db : Database)
    → get_pending_logs_before now (recover_pending cfg now answers db).logs ≡ []
unfolding recover_pending get_pending_logs_before
recover_pending-settles cfg now answers db =
    none_due now (recover_pending cfg now answers db).logs.rows (
      recover_logs-DueAmong cfg now answers (filterb (is_due now) db.logs.rows) db
        (DueAmong-filterb now db.logs.rows))
