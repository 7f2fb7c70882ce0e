-- ===== src/Examples/Limits.antt =====
-- Calls of two keys to the limiter and to the debouncer.
use birthly_go.Prelude.{
  ℕ, ◌+◌, ◌-◌, ◌*◌, ◌≤◌, ◌≡◌, refl, true, false, arith, List, [], ◌∷◌, some, ◌↔◌,
}
use birthly_go.Prelude.Assoc.{IsMap, lookup, insert, erase, retain}
use birthly_go.RateLimit.Bucket.{
  new_token_bucket, token, idle_evict_interval, allow, spend, count_call,
}
use birthly_go.RateLimit.Bounds.{available, Ordered, end_time, allowed_calls, allowed_calls-le}
use birthly_go.RateLimit.Debouncer.{new_debouncer, sweep, admit, debounce}
use birthly_go.RateLimit.Throttle.{
  Rates, ThrottledCall, Throttle, throttle, new_throttle, is_silenced, sweep_silenced, kind_of,
  bucket_in, CallStage, at_check, at_bucket, at_silence, check_silence, ask_bucket, call_step,
  interleave,
}
use birthly_go.RateLimit.Throttle.Interleaved.{AreHeld, throttle-silence}
use birthly_go.RateLimit.Throttle.Silence.{throttle-answer}
use birthly_go.RateLimit.Spacing.{after_calls, debounce_spacing}

abbrev calls : List (ℕ × ℕ)
calls = (7, 10) ∷ (8, 20) ∷ (7, 20) ∷ (7, 1_000_000_000) ∷ []

calls-Ordered : Ordered 0 calls
calls-Ordered = (omega arith, (omega arith, (omega arith, (omega arith, tt))))

allowed_calls-le_example :
    allowed_calls 7 calls (new_token_bucket 2) * token ≤ 2 * token + (end_time 0 calls - 0) * 2
allowed_calls-le_example = allowed_calls-le 2 7 0 calls calls-Ordered

new_token_bucket-IsMap : IsMap (new_token_bucket 2).buckets
unfolding new_token_bucket
new_token_bucket-IsMap = tt

abbrev between : List (ℕ × ℕ)
between = (8, 20) ∷ (7, 30) ∷ []

between-Ordered : Ordered 10 between
between-Ordered = (omega arith, (omega arith, tt))

first_allowed : (debounce 7 10 (new_debouncer 100)).1 ≡ true
unfolding debounce admit sweep new_debouncer lookup
first_allowed = refl

later_allowed :
    (debounce 7 200 (after_calls between (debounce 7 10 (new_debouncer 100)).0)).1 ≡ true
unfolding after_calls debounce admit sweep new_debouncer lookup insert retain
later_allowed = refl

new_debouncer-IsMap : IsMap (new_debouncer 100).last_call
unfolding new_debouncer
new_debouncer-IsMap = tt

new_debouncer_short : (new_debouncer 100).interval ≤ idle_evict_interval
unfolding new_debouncer
new_debouncer_short = omega arith

debounce_spacing_example : 10 + (new_debouncer 100).interval ≤ 200
debounce_spacing_example =
    debounce_spacing 7 10 200 between (new_debouncer 100) new_debouncer-IsMap new_debouncer_short
      between-Ordered (omega arith) first_allowed later_allowed

-- One message a minute.
abbrev slow_rates : Rates
slow_rates = record {
  messages = 1;
  callbacks = 1;
  new_account_messages = 1;
  new_account_callbacks = 1;
  grace_duration = 0;
}

abbrev message_at : ℕ → ThrottledCall
message_at now = record {
  user_id = 7;
  is_message = true;
  account_created = some 0;
  wall_time = 0;
  handled_at = now;
  spent_at = now;
}

abbrev after_first : Throttle
after_first = (throttle (message_at 10) (new_throttle slow_rates)).0

second_refused :
    (is_silenced (lookup 7 after_first.silenced_until) 20 ≡ false)
    × ((throttle (message_at 20) after_first).1 ≡ false)
    × IsMap after_first.silenced_until
unfolding throttle new_throttle sweep_silenced check_silence ask_bucket kind_of lookup insert erase
    allow spend count_call new_token_bucket
second_refused = (refl, refl, tt)

first_bucket : IsMap (bucket_in (kind_of after_first.grace (message_at 20)) after_first).buckets
unfolding throttle new_throttle sweep_silenced check_silence ask_bucket kind_of lookup insert erase
    allow spend count_call new_token_bucket
first_bucket = (refl, tt)

abbrev side_by_side : List (ThrottledCall × CallStage)
side_by_side = (message_at 30, at_check) ∷ (message_at 40, at_bucket) ∷ []

throttle-silence_example :
    AreHeld 7 side_by_side
      (interleave
        (0 ∷ 1 ∷ 1 ∷ 0 ∷ [])
        side_by_side
        (call_step (message_at 20) at_silence after_first).0).0
throttle-silence_example =
    throttle-silence (message_at 20) side_by_side (0 ∷ 1 ∷ 1 ∷ 0 ∷ []) after_first second_refused.2
      ((omega arith, λ e. omega arith), ((omega arith, λ e. omega arith), tt))

throttle-answer_example : ((throttle (message_at 20) after_first).1 ≡ true) ↔ (
    (is_silenced (lookup 7 after_first.silenced_until) 20 ≡ false)
    × (token ≤ available 7 20 (bucket_in (kind_of after_first.grace (message_at 20)) after_first)))
throttle-answer_example = throttle-answer (message_at 20) after_first second_refused.2 first_bucket
