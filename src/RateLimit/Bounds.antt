-- ===== src/RateLimit/Bounds.antt =====
-- How many calls a bucket lets through.
use birthly_go.Prelude.{
  ◌↔◌, ap, ℕ, zero, suc, ◌+◌, ◌-◌, ◌*◌, ◌≤◌, ◌<◌, ◌≡◌, ◌≢◌, Bool, true, ◌&&◌, ◌==◌, if◌then◌else◌,
  List, [], ◌∷◌, none, ◌∙◌, ◌∙◌, ℕ_discrete, arith, Option-cases, inl, inr,
}
use birthly_go.Prelude.Assoc.{
  lookup, IsMap, lookup-insert, lookup-retain, insert-IsMap, retain-IsMap,
}
use birthly_go.RateLimit.Bucket.{
  BucketState, TokenBucket, token, idle_evict_interval, new_token_bucket, capacity, is_recent,
  count_call, state_or_full, refilled, spend, allow,
}

-- What a key can spend at a moment.
abbrev pub available : ℕ → ℕ → TokenBucket → ℕ
available key now b =
    refilled (state_or_full (lookup key b.buckets) b.rate_per_minute now) b.rate_per_minute now

mul_le : (a b c r : ℕ) → a ≤ b + c → a * r ≤ b * r + c * r
mul_le a b c zero h = omega arith
mul_le a b c (suc r) h = omega (arith, mul_le a b c r h)

mul_ge : (a b c r : ℕ) → b + c ≤ a → b * r + c * r ≤ a * r
mul_ge a b c zero h = omega arith
mul_ge a b c (suc r) h = omega (arith, mul_ge a b c r h)

-- After an hour without a call a bucket is full: dropping it changes nothing.
full_after_hour :
    (st : BucketState) (rate now : ℕ)
    → st.last_refill + idle_evict_interval < now
    → refilled st rate now ≡ capacity rate
full_after_hour st rate now h = ground (arith, mul_le token (now - st.last_refill) 0 rate)

full_of_none :
    (rate now later : ℕ) → refilled (state_or_full none rate now) rate later ≡ capacity rate
full_of_none rate now later = ground arith

refilled-le : (st : BucketState) (rate now : ℕ) → refilled st rate now ≤ capacity rate
refilled-le st rate now = ground arith

-- The sweep is not observable: no key can spend less or more after it.
count_call-available :
    (key now : ℕ) (b : TokenBucket)
    → IsMap b.buckets
    → available key now (count_call now b) ≡ available key now b
unfolding count_call
count_call-available key now b m = elim (Option-cases (lookup key b.buckets)) [
  | inl e ↦ ground (arith, e, lookup-retain (is_recent now) key b.buckets m)
  | inr (st, e) ↦ ground (
    arith,
    e,
    lookup-retain (is_recent now) key b.buckets m,
    full_after_hour st b.rate_per_minute now,
    full_of_none b.rate_per_minute now now,
  )
]

count_call-IsMap : (now : ℕ) (b : TokenBucket) → IsMap b.buckets → IsMap (count_call now b).buckets
unfolding count_call
count_call-IsMap now b m = ground (arith, retain-IsMap (is_recent now) b.buckets m)

count_call-rate :
    (now : ℕ) (b : TokenBucket) → (count_call now b).rate_per_minute ≡ b.rate_per_minute
unfolding count_call
count_call-rate now b = ground arith

-- What a call costs the key `k`.
abbrev pub cost : ℕ → ℕ → Bool → ℕ
cost k key allowed = if key == k && allowed then token else 0

-- The key that calls has what is left of its tokens.
spend_self :
    (key now tokens : ℕ) (b : TokenBucket)
    → tokens ≤ capacity b.rate_per_minute
    → available key now (spend key now tokens b).0 + cost key key (spend key now tokens b).1
      ≡ tokens
unfolding spend
spend_self key now tokens b h = ground (
  arith,
  lookup-insert key key (record { tokens = tokens - token; last_refill = now }) b.buckets,
  lookup-insert key key (record { tokens = tokens; last_refill = now }) b.buckets,
)

spend-IsMap :
    (key now tokens : ℕ) (b : TokenBucket)
    → IsMap b.buckets
    → IsMap (spend key now tokens b).0.buckets
unfolding spend
spend-IsMap key now tokens b m = ground (
  arith,
  insert-IsMap key (record { tokens = tokens - token; last_refill = now }) b.buckets m,
  insert-IsMap key (record { tokens = tokens; last_refill = now }) b.buckets m,
)

spend-rate :
    (key now tokens : ℕ) (b : TokenBucket)
    → (spend key now tokens b).0.rate_per_minute ≡ b.rate_per_minute
unfolding spend
spend-rate key now tokens b = ground arith

spend-lookup :
    (k key now tokens : ℕ) (b : TokenBucket)
    → k ≢ key
    → lookup k (spend key now tokens b).0.buckets ≡ lookup k b.buckets
unfolding spend
spend-lookup k key now tokens b h = ground (
  arith,
  lookup-insert key k (record { tokens = tokens - token; last_refill = now }) b.buckets,
  lookup-insert key k (record { tokens = tokens; last_refill = now }) b.buckets,
)

-- Other keys have what they had.
spend-other :
    (k key now tokens : ℕ) (b : TokenBucket)
    → k ≢ key
    → available k now (spend key now tokens b).0 + cost k key (spend key now tokens b).1
      ≡ available k now b
spend-other k key now tokens b h =
    rw (spend-lookup k key now tokens b h, spend-rate key now tokens b) (ground arith)

-- A call takes one token from its own key if it is allowed, and nothing else changes.
pub allow-available :
    (k key now : ℕ) (b : TokenBucket)
    → IsMap b.buckets
    → available k now (allow key now b).0 + cost k key (allow key now b).1 ≡ available k now b
unfolding allow
allow-available k key now b m = elim (ℕ_discrete k key) [
  | yes e ↦ rw e (
      spend_self key now (available key now (count_call now b)) (count_call now b)
        (refilled-le _ _ now)
      ∙ count_call-available key now b m)
  | no n ↦
      spend-other k key now (available key now (count_call now b)) (count_call now b) n
      ∙ count_call-available k now b m
]

allow-IsMap : (key now : ℕ) (b : TokenBucket) → IsMap b.buckets → IsMap (allow key now b).0.buckets
unfolding allow
allow-IsMap key now b m = spend-IsMap key now _ (count_call now b) (count_call-IsMap now b m)

allow-rate :
    (key now : ℕ) (b : TokenBucket) → (allow key now b).0.rate_per_minute ≡ b.rate_per_minute
unfolding allow
allow-rate key now b = spend-rate key now _ (count_call now b) ∙ count_call-rate now b

-- Time refills at the rate.
available_later :
    (k now later : ℕ) (b : TokenBucket)
    → now ≤ later
    → available k later b ≤ available k now b + (later - now) * b.rate_per_minute
available_later k now later b h = elim (Option-cases (lookup k b.buckets)) [
  | inl e ↦ rw e (
      omega
        (arith, full_of_none b.rate_per_minute later later, full_of_none b.rate_per_minute now now))
  | inr (st, e) ↦ rw e (
      ground (
        arith,
        mul_le (later - st.last_refill) (now - st.last_refill) (later - now) b.rate_per_minute,
      ))
]

-- A history of calls: the key and the time of each.
abbrev pub Ordered : ℕ → List (ℕ × ℕ) → Type 0
Ordered start [] = Unit
Ordered start ((key, now) ∷ calls) = (start ≤ now) × Ordered now calls

abbrev pub end_time : ℕ → List (ℕ × ℕ) → ℕ
end_time start [] = start
end_time start ((key, now) ∷ calls) = end_time now calls

-- How many calls of the key `k` are allowed.
pub allowed_calls : ℕ → List (ℕ × ℕ) → TokenBucket → ℕ
allowed_calls k [] b = 0
allowed_calls k ((key, now) ∷ calls) b =
    (if key == k && (allow key now b).1 then 1 else 0) + allowed_calls k calls (allow key now b).0

pub start-le-end :
    (start : ℕ) (calls : List (ℕ × ℕ)) → Ordered start calls → start ≤ end_time start calls
start-le-end start [] o = omega arith
start-le-end start ((key, now) ∷ calls) o = omega (arith, start-le-end now calls o.1)

charge :
    (k key : ℕ) (allowed : Bool) (n : ℕ)
    → ((if key == k && allowed then 1 else 0) + n) * token ≡ cost k key allowed + n * token
charge k key allowed n = ground arith

allowed_calls-available :
    (k start : ℕ) (calls : List (ℕ × ℕ)) (b : TokenBucket)
    → IsMap b.buckets
    → Ordered start calls
    → allowed_calls k calls b * token
      ≤ available k start b + (end_time start calls - start) * b.rate_per_minute
unfolding allowed_calls
allowed_calls-available k start [] b m o = omega arith
allowed_calls-available k start ((key, now) ∷ calls) b m o = omega (
  arith,
  charge k key (allow key now b).1 (allowed_calls k calls (allow key now b).0),
  allow-available k key now b m,
  available_later k start now b o.0,
  start-le-end now calls o.1,
  ap (λ r. (end_time now calls - now) * r) (allow-rate key now b),
  mul_ge (end_time now calls - start) (end_time now calls - now) (now - start) b.rate_per_minute
      (omega (arith, start-le-end now calls o.1)),
  allowed_calls-available k now calls (allow key now b).0 (allow-IsMap key now b m) o.1,
)

-- Whatever keys call and however the sweeps fall, over any stretch of time a new limiter lets through at
-- most `rate` calls of a key, and the rate per minute for each minute that passes.
pub allowed_calls-le :
    (rate k start : ℕ) (calls : List (ℕ × ℕ))
    → Ordered start calls
    → allowed_calls k calls (new_token_bucket rate) * token
      ≤ rate * token + (end_time start calls - start) * rate
unfolding new_token_bucket
allowed_calls-le rate k start calls o = omega (
  arith,
  allowed_calls-available k start calls (new_token_bucket rate) tt o,
  refilled-le (state_or_full (lookup {V = BucketState} k []) rate start) rate start,
)

spend-answer :
    (key now tokens : ℕ) (b : TokenBucket) → ((spend key now tokens b).1 ≡ true) ↔ (token ≤ tokens)
unfolding spend
spend-answer key now tokens b = ground arith

-- A call is allowed exactly when its key has a whole token, also where the call sweeps.
pub allow-answer :
    (key now : ℕ) (b : TokenBucket)
    → IsMap b.buckets
    → ((allow key now b).1 ≡ true) ↔ (token ≤ available key now b)
unfolding allow
allow-answer key now b m =
    rw (← count_call-available key now b m)
      (spend-answer key now (available key now (count_call now b)) (count_call now b))
