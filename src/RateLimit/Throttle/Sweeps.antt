-- ===== src/RateLimit/Throttle/Sweeps.antt =====
-- What the sweep of the silences that are over leaves.
use birthly_go.Prelude.{ℕ, ◌<◌, ◌≡◌, refl, Bool, not, ltb, some, arith}
use birthly_go.Prelude.Assoc.{lookup, erase, IsMap, lookup-retain, retain-IsMap}
use birthly_go.RateLimit.Bucket.{TokenBucket}
use birthly_go.RateLimit.Throttle.{
  BucketKind, of_messages, of_callbacks, of_new_messages, of_new_callbacks, Throttle, ThrottledCall,
  with_bucket, sweep_silenced, is_silenced,
}

pub with_bucket-silenced :
    (kind : BucketKind) (b : TokenBucket) (t : Throttle)
    → (with_bucket kind b t).silenced_until ≡ t.silenced_until
with_bucket-silenced of_messages b t = refl
with_bucket-silenced of_callbacks b t = refl
with_bucket-silenced of_new_messages b t = refl
with_bucket-silenced of_new_callbacks b t = refl

abbrev pub AreSilenced : Throttle → Type 0
AreSilenced t = IsMap t.silenced_until

pub sweep_silenced-AreSilenced :
    (now : ℕ) (t : Throttle) → AreSilenced t → AreSilenced (sweep_silenced now t)
unfolding sweep_silenced
sweep_silenced-AreSilenced now t m =
    ground (arith, retain-IsMap (λ until. not (ltb until now)) t.silenced_until m)

pub sweep_silenced-is_silenced :
    (key now : ℕ) (t : Throttle)
    → AreSilenced t
    → is_silenced (lookup key (sweep_silenced now t).silenced_until) now
      ≡ is_silenced (lookup key t.silenced_until) now
unfolding sweep_silenced
sweep_silenced-is_silenced key now t m =
    ground (arith, lookup-retain (λ until. not (ltb until now)) key t.silenced_until m)

pub sweep_silenced-lookup :
    (key until now : ℕ) (t : Throttle)
    → AreSilenced t
    → lookup key t.silenced_until ≡ some until
    → now < until
    → lookup key (sweep_silenced now t).silenced_until ≡ some until
unfolding sweep_silenced
sweep_silenced-lookup key until now t m e early =
    ground (arith, lookup-retain (λ until. not (ltb until now)) key t.silenced_until m)

-- The state that the bucket of a user who is not silenced is asked in.
abbrev pub ready : ThrottledCall → Throttle → Throttle
ready c t =
    let swept = sweep_silenced c.handled_at t in
    record swept { silenced_until = erase c.user_id swept.silenced_until }

abbrev pub silenced_now : ThrottledCall → Throttle → Bool
silenced_now c t = is_silenced (lookup c.user_id t.silenced_until) c.handled_at
