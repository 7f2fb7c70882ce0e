-- ===== src/RateLimit/Throttle/Silence.antt =====
-- Which calls pass, where no other call comes between the steps of one.
use birthly_go.Prelude.{ℕ, ◌≤◌, ◌≡◌, refl, ◌↔◌, Bool, true, false, Bool-cases, inl, inr, arith}
use birthly_go.Prelude.Assoc.{lookup, IsMap}
use birthly_go.RateLimit.Bucket.{allow, token}
use birthly_go.RateLimit.Bounds.{available, allow-answer}
use birthly_go.RateLimit.Throttle.{
  BucketKind, of_messages, of_callbacks, of_new_messages, of_new_callbacks, Throttle, ThrottledCall,
  kind_of, bucket_in, sweep_silenced, is_silenced, check_silence, ask_bucket, after_bucket,
  call_step, has_passed, throttle,
}
use birthly_go.RateLimit.Throttle.Sweeps.{
  AreSilenced, sweep_silenced-is_silenced, ready, silenced_now,
}

throttle_silenced :
    (c : ThrottledCall) (t : Throttle)
    → AreSilenced t
    → silenced_now c t ≡ true
    → (throttle c t).1 ≡ false
unfolding throttle check_silence
throttle_silenced c t m h = rw (sweep_silenced-is_silenced c.user_id c.handled_at t m, h) refl

after_bucket-has_passed :
    (c : ThrottledCall) (b : Bool) (t : Throttle)
    → has_passed (call_step c (after_bucket b) t).1 ≡ b
after_bucket-has_passed c true t = refl
after_bucket-has_passed c false t = refl

sweep_silenced-grace : (now : ℕ) (t : Throttle) → (sweep_silenced now t).grace ≡ t.grace
unfolding sweep_silenced
sweep_silenced-grace now t = ground arith

throttle_asks :
    (c : ThrottledCall) (t : Throttle)
    → AreSilenced t
    → silenced_now c t ≡ false
    → (throttle c t).1 ≡ (allow c.user_id c.spent_at (bucket_in (kind_of t.grace c) (ready c t))).1
unfolding throttle check_silence ask_bucket
throttle_asks c t m h =
    rw
      (
        sweep_silenced-is_silenced c.user_id c.handled_at t m,
        h,
        after_bucket-has_passed c _ _,
        sweep_silenced-grace c.handled_at t,
      )
      refl

bucket_in-ready :
    (kind : BucketKind) (c : ThrottledCall) (t : Throttle)
    → bucket_in kind (ready c t) ≡ bucket_in kind t
unfolding sweep_silenced
bucket_in-ready of_messages c t = ground arith
bucket_in-ready of_callbacks c t = ground arith
bucket_in-ready of_new_messages c t = ground arith
bucket_in-ready of_new_callbacks c t = ground arith

-- A call passes exactly when its user is not silenced and the bucket that the update and the age of the
-- account choose has a whole token for that user.
pub throttle-answer :
    (c : ThrottledCall) (t : Throttle)
    → IsMap t.silenced_until
    → IsMap (bucket_in (kind_of t.grace c) t).buckets
    → ((throttle c t).1 ≡ true) ↔ (
        (is_silenced (lookup c.user_id t.silenced_until) c.handled_at ≡ false)
        × (token ≤ available c.user_id c.spent_at (bucket_in (kind_of t.grace c) t)))
throttle-answer c t m b = elim (Bool-cases (silenced_now c t)) [
  | inl h ↦ rw (throttle_silenced c t m h) ((λ e. cc), (λ e. cc))
  | inr h ↦
      let kind = kind_of t.grace c in
      let answer = allow-answer c.user_id c.spent_at (bucket_in kind t) b in
      rw (throttle_asks c t m h, bucket_in-ready kind c t) (λ e. (h, answer.0 e), λ e. answer.1 e.1)
]
