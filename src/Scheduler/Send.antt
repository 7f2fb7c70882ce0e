-- ===== src/Scheduler/Send.antt =====
-- `SendReminder` (notify.go). What Telegram answers to each attempt is an argument; the rate limiter and
-- the waits only delay an attempt.
use birthly_go.Prelude.{ℕ, zero, suc, ◌+◌, Bool, true, false, ltb, if◌then◌else◌}
use birthly_go.Prelude.Text.{Text, codes}
use birthly_go.Store.Logs.{LogTable, mark_sent, mark_failed, cut_at}
use birthly_go.Store.Database.{Database, set_bot_blocked}

-- The answer to an attempt: delivered, at the time that `MarkSent` reads; error 403; error 429 with the
-- seconds to wait; or another error, with its text.
pub data Answer : Type 0 where
  delivered : ℕ → Answer
  forbidden : Answer
  too_many_requests : Answer
  refused : Text → Answer

abbrev pub max_attempts : ℕ
max_attempts = 3

abbrev pub with_logs : Database → LogTable → Database
with_logs db t = record db { logs = t }

-- What an answer leads to; `again` is the rest of the loop after the wait.
unfoldable pub after_answer : Answer → ℕ → ℕ → ℕ → Database × Bool → Database → Database × Bool
after_answer (delivered now) attempt user_id log_id again db =
    (with_logs db (mark_sent log_id now db.logs), true)
after_answer forbidden attempt user_id log_id again db = (
  record db {
    users = set_bot_blocked user_id true db.users;
    logs = mark_failed log_id (codes "bot_blocked_by_user") db.logs;
  },
  false,
)
after_answer too_many_requests attempt user_id log_id again db =
    if ltb attempt 2
    then again
    else (with_logs db (mark_failed log_id (codes "RetryAfter after 3 attempts") db.logs), false)
after_answer (refused text) attempt user_id log_id again db =
    (with_logs db (mark_failed log_id (cut_at 400 text) db.logs), false)

-- The loop with `left` attempts left, at attempt number `attempt`.
unfoldable pub send_attempts : ℕ → ℕ → ℕ → ℕ → (ℕ → Answer) → Database → Database × Bool
unfolding after_answer
send_attempts zero attempt user_id log_id answers db = (db, false)
send_attempts (suc left) attempt user_id log_id answers db =
    after_answer (answers attempt) attempt user_id log_id
      (send_attempts left (attempt + 1) user_id log_id answers db) db

-- The reminder of the log row `log_id` to a user.
unfoldable pub send_reminder : ℕ → ℕ → (ℕ → Answer) → Database → Database × Bool
unfolding send_attempts
send_reminder user_id log_id answers db = send_attempts max_attempts 0 user_id log_id answers db
