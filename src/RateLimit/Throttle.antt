-- ===== src/RateLimit/Throttle.antt =====
-- `throttleHandler` of internal/bot/router/middleware.go: the four token buckets and the silence of 30
-- seconds after a refusal. A call holds whether its update is a message, when the account of the user was
-- made, where there is one, and the readings of the clock: the wall's, the handler's and the bucket's.
pub mod Sweeps
pub mod Silence
pub mod Interleaved
use birthly_go.Prelude.{
  ℕ, zero, suc, ◌+◌, Bool, true, false, not, ltb, leb, if◌then◌else◌, List, [], ◌∷◌, Option, none,
  some,
}
use birthly_go.Prelude.Assoc.{lookup, insert, erase, retain}
use birthly_go.RateLimit.Bucket.{TokenBucket, new_token_bucket, allow}

-- `30 * time.Second`
abbrev pub silence_duration : ℕ
silence_duration = 30_000_000_000

abbrev pub throttle_sweep_every_n : ℕ
throttle_sweep_every_n = 500

pub data BucketKind : Type 0 where
  of_messages of_callbacks of_new_messages of_new_callbacks : BucketKind

-- The configured rates, and the time for which an account is new.
pub record Rates : Type 0 where
  pub messages : ℕ
  pub callbacks : ℕ
  pub new_account_messages : ℕ
  pub new_account_callbacks : ℕ
  pub grace_duration : ℕ

pub record Throttle : Type 0 where
  pub grace : ℕ
  pub message_bucket : TokenBucket
  pub callback_bucket : TokenBucket
  pub new_account_message_bucket : TokenBucket
  pub new_account_callback_bucket : TokenBucket
  pub silenced_until : List (ℕ × ℕ)
  pub silence_calls : ℕ

unfoldable pub new_throttle : Rates → Throttle
new_throttle cfg = record {
  grace = cfg.grace_duration;
  message_bucket = new_token_bucket cfg.messages;
  callback_bucket = new_token_bucket cfg.callbacks;
  new_account_message_bucket = new_token_bucket cfg.new_account_messages;
  new_account_callback_bucket = new_token_bucket cfg.new_account_callbacks;
  silenced_until = [];
  silence_calls = 0;
}

pub record ThrottledCall : Type 0 where
  pub user_id : ℕ
  pub is_message : Bool
  pub account_created : Option ℕ
  pub wall_time : ℕ
  pub handled_at : ℕ
  pub spent_at : ℕ

abbrev pub is_new_account : ℕ → Option ℕ → ℕ → Bool
is_new_account grace none wall_time = false
is_new_account grace (some created) wall_time = ltb wall_time (created + grace)

unfoldable pub kind_of : ℕ → ThrottledCall → BucketKind
kind_of grace c =
    if is_new_account grace c.account_created c.wall_time
    then (if c.is_message then of_new_messages else of_new_callbacks)
    else if c.is_message
    then of_messages
    else of_callbacks

abbrev pub bucket_in : BucketKind → Throttle → TokenBucket
bucket_in of_messages t = t.message_bucket
bucket_in of_callbacks t = t.callback_bucket
bucket_in of_new_messages t = t.new_account_message_bucket
bucket_in of_new_callbacks t = t.new_account_callback_bucket

abbrev pub with_bucket : BucketKind → TokenBucket → Throttle → Throttle
with_bucket of_messages b t = record t { message_bucket = b }
with_bucket of_callbacks b t = record t { callback_bucket = b }
with_bucket of_new_messages b t = record t { new_account_message_bucket = b }
with_bucket of_new_callbacks b t = record t { new_account_callback_bucket = b }

-- The counter, and the deletion of the silences that are over at every 500th call.
unfoldable pub sweep_silenced : ℕ → Throttle → Throttle
sweep_silenced now t =
    if leb throttle_sweep_every_n (t.silence_calls + 1)
    then record t {
      silence_calls = 0;
      silenced_until = retain (λ until. not (ltb until now)) t.silenced_until;
    }
    else record t { silence_calls = t.silence_calls + 1 }

abbrev pub is_silenced : Option ℕ → ℕ → Bool
is_silenced none now = false
is_silenced (some until) now = ltb now until

-- How far a call has come. It holds the lock of the silences at its first step and at its last, and that of
-- the bucket between; steps of other calls may lie between its own.
pub data CallStage : Type 0 where
  at_check at_bucket at_silence passed refused : CallStage

-- The first stretch under the lock. `erase` leaves the map alone where the user has no silence.
unfoldable pub check_silence : ThrottledCall → Throttle → Throttle × CallStage
unfolding sweep_silenced
check_silence c t =
    let swept = sweep_silenced c.handled_at t in
    if is_silenced (lookup c.user_id swept.silenced_until) c.handled_at
    then (swept, refused)
    else (record swept { silenced_until = erase c.user_id swept.silenced_until }, at_bucket)

abbrev pub after_bucket : Bool → CallStage
after_bucket true = passed
after_bucket false = at_silence

unfoldable pub ask_bucket : ThrottledCall → Throttle → Throttle × CallStage
unfolding kind_of
ask_bucket c t =
    let kind = kind_of t.grace c in
    let spent = allow c.user_id c.spent_at (bucket_in kind t) in
    (with_bucket kind spent.0 t, after_bucket spent.1)

-- The second stretch under the lock: a refusal by the bucket silences the user.
abbrev pub write_silence : ThrottledCall → Throttle → Throttle
write_silence c t = record t {
  silenced_until = insert c.user_id (c.handled_at + silence_duration) t.silenced_until;
}

abbrev pub call_step : ThrottledCall → CallStage → Throttle → Throttle × CallStage
call_step c at_check t = check_silence c t
call_step c at_bucket t = ask_bucket c t
call_step c at_silence t = (write_silence c t, refused)
call_step c passed t = (t, passed)
call_step c refused t = (t, refused)

-- The step of the call at a place in the list of calls.
unfoldable pub step_at :
    ℕ → List (ThrottledCall × CallStage) → Throttle → List (ThrottledCall × CallStage) × Throttle
unfolding check_silence ask_bucket
step_at n [] t = ([], t)
step_at zero ((c, p) ∷ calls) t = let r = call_step c p t in ((c, r.1) ∷ calls, r.0)
step_at (suc n) (call ∷ calls) t = let r = step_at n calls t in (call ∷ r.0, r.1)

-- The steps of calls that run side by side, in the order in which they come.
unfoldable pub interleave :
    List ℕ
    → List (ThrottledCall × CallStage)
    → Throttle
    → List (ThrottledCall × CallStage) × Throttle
unfolding step_at
interleave [] calls t = (calls, t)
interleave (n ∷ schedule) calls t = let r = step_at n calls t in interleave schedule r.0 r.1

abbrev pub has_passed : CallStage → Bool
has_passed passed = true
has_passed _ = false

-- The handler as one call runs it when no other comes between its steps.
unfoldable pub throttle : ThrottledCall → Throttle → Throttle × Bool
unfolding check_silence ask_bucket
throttle c t =
    let checked = check_silence c t in
    let asked = call_step c checked.1 checked.0 in
    let written = call_step c asked.1 asked.0 in (written.0, has_passed written.1)
