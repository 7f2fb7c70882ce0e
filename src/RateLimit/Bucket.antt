-- ===== src/RateLimit/Bucket.antt =====
-- `TokenBucket`. The source's floats are exact numbers here: a token is counted as 60 * 10 ^ 9 units,
-- so that one nanosecond refills as many units as the rate per minute says.
use birthly_go.Prelude.{
  ℕ, ◌+◌, ◌-◌, ◌*◌, Bool, true, false, not, ltb, leb, if◌then◌else◌, List, [], Option, none, some,
}
use birthly_go.Prelude.Assoc.{lookup, insert, retain}

pub record BucketState : Type 0 where
  pub tokens : ℕ
  pub last_refill : ℕ

pub record TokenBucket : Type 0 where
  pub rate_per_minute : ℕ
  pub buckets : List (ℕ × BucketState)
  pub calls_sweep : ℕ

-- A token, in units.
abbrev pub token : ℕ
token = 60_000_000_000

-- `time.Hour`
abbrev pub idle_evict_interval : ℕ
idle_evict_interval = 3_600_000_000_000

abbrev pub sweep_every_n_calls : ℕ
sweep_every_n_calls = 500

unfoldable pub new_token_bucket : ℕ → TokenBucket
new_token_bucket rate = record { rate_per_minute = rate; buckets = []; calls_sweep = 0 }

-- The most that a bucket holds.
abbrev pub capacity : ℕ → ℕ
capacity rate = rate * token

abbrev pub is_recent : ℕ → BucketState → Bool
is_recent now state = not (ltb (state.last_refill + idle_evict_interval) now)

unfoldable pub evict_idle : ℕ → TokenBucket → TokenBucket
evict_idle now b = record b { buckets = retain (is_recent now) b.buckets }

-- The counter, and the sweep of every 500th call.
unfoldable pub count_call : ℕ → TokenBucket → TokenBucket
unfolding evict_idle
count_call now b =
    if leb sweep_every_n_calls (b.calls_sweep + 1)
    then evict_idle now (record b { calls_sweep = 0 })
    else record b { calls_sweep = b.calls_sweep + 1 }

-- A key without a bucket has a full one.
abbrev pub state_or_full : Option BucketState → ℕ → ℕ → BucketState
state_or_full none rate now = record { tokens = capacity rate; last_refill = now }
state_or_full (some state) rate now = state

abbrev pub refilled : BucketState → ℕ → ℕ → ℕ
refilled state rate now =
    let tokens = state.tokens + (now - state.last_refill) * rate in
    if ltb (capacity rate) tokens then capacity rate else tokens

-- The test, and the write of the new state of the bucket.
unfoldable pub spend : ℕ → ℕ → ℕ → TokenBucket → TokenBucket × Bool
spend key now tokens b =
    if leb token tokens
    then (
      record b {
        buckets = insert key (record { tokens = tokens - token; last_refill = now }) b.buckets;
      },
      true,
    )
    else (
      record b { buckets = insert key (record { tokens = tokens; last_refill = now }) b.buckets },
      false,
    )

unfoldable pub allow : ℕ → ℕ → TokenBucket → TokenBucket × Bool
allow key now b =
    let c = count_call now b in
    spend key now
      (refilled (state_or_full (lookup key c.buckets) c.rate_per_minute now) c.rate_per_minute now)
      c
