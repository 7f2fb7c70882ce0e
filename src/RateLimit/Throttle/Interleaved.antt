-- ===== src/RateLimit/Throttle/Interleaved.antt =====
-- A silenced user stays refused, however the steps of calls are interleaved.
use birthly_go.Prelude.{
  ℕ, zero, suc, ◌+◌, ◌<◌, ◌≤◌, ◌≡◌, ◌≢◌, refl, ap, ◌∙◌, Bool, true, false, lt→ltb, ◌==◌, List, [],
  ◌∷◌, some, All, Bool-cases, inl, inr, arith, ℕ_discrete,
}
use birthly_go.Prelude.Assoc.{lookup, IsMap, lookup-insert, lookup-erase, insert-IsMap, erase-IsMap}
use birthly_go.RateLimit.Throttle.{
  silence_duration, Throttle, ThrottledCall, kind_of, sweep_silenced, CallStage, at_check,
  at_bucket, at_silence, passed, refused, check_silence, ask_bucket, write_silence, call_step,
  step_at, interleave,
}
use birthly_go.RateLimit.Throttle.Sweeps.{
  with_bucket-silenced, AreSilenced, sweep_silenced-AreSilenced, sweep_silenced-is_silenced,
  sweep_silenced-lookup, silenced_now,
}

-- The silence of the user `key` lasts until the time `last` at least.
abbrev IsSilent : ℕ → ℕ → Throttle → Type 0
IsSilent key last t =
    (AreSilenced t) × ((until : ℕ) × (lookup key t.silenced_until ≡ some until) × (last ≤ until))

-- A call before the time `last`, which comes at most 30 seconds before it if it is of the user `key`.
abbrev pub IsTimely : ℕ → ℕ → ThrottledCall × CallStage → Type 0
IsTimely key last (c, p) =
    (c.handled_at < last) × (c.user_id ≡ key → last ≤ c.handled_at + 30_000_000_000)

-- Not checked yet, or refused.
abbrev pub is_held : CallStage → Bool
is_held at_check = true
is_held refused = true
is_held _ = false

-- The same calls, and those of the user `key` that were held are held.
abbrev pub AreHeld :
    ℕ → List (ThrottledCall × CallStage) → List (ThrottledCall × CallStage) → Type 0
AreHeld key [] [] = Unit
AreHeld key (x ∷ xs) (y ∷ ys) =
    ((y.0 ≡ x.0) × (x.0.user_id ≡ key → is_held x.1 ≡ true → is_held y.1 ≡ true))
    × AreHeld key xs ys
AreHeld key _ _ = ⊥

check-other :
    (key last until : ℕ) (c : ThrottledCall) (t : Throttle)
    → c.user_id ≢ key
    → AreSilenced t
    → lookup key (sweep_silenced c.handled_at t).silenced_until ≡ some until
    → last ≤ until
    → IsSilent key last (check_silence c t).0
unfolding check_silence
check-other key last until c t differ m swept le =
    let swept_map = sweep_silenced-AreSilenced c.handled_at t m in
    let other : (c.user_id == key) ≡ false = ground (arith, differ) in
    elim (Bool-cases (silenced_now c t)) [
      | inl h ↦
          rw (sweep_silenced-is_silenced c.user_id c.handled_at t m, h)
            (swept_map, (until, swept, le))
      | inr h ↦
          rw (sweep_silenced-is_silenced c.user_id c.handled_at t m, h)
            (
              erase-IsMap c.user_id (sweep_silenced c.handled_at t).silenced_until swept_map,
              (
                until,
                lookup-erase c.user_id key (sweep_silenced c.handled_at t).silenced_until
                    ∙ rw other swept,
                le,
              ),
            )
    ]

-- A call of the silent user that is checked is refused.
check-refused :
    (key last : ℕ) (c : ThrottledCall) (t : Throttle)
    → c.user_id ≡ key
    → c.handled_at < last
    → IsSilent key last t
    → check_silence c t ≡ (sweep_silenced c.handled_at t, refused)
unfolding check_silence
check-refused key last c t same early (m, (until, e, le)) =
    let silent : silenced_now c t ≡ true =
      rw (same, e) (lt→ltb c.handled_at until (omega (arith, early, le))) in
    rw (sweep_silenced-is_silenced c.user_id c.handled_at t m, silent) refl

check-IsSilent :
    (key last : ℕ) (c : ThrottledCall) (t : Throttle)
    → c.handled_at < last
    → IsSilent key last t
    → IsSilent key last (check_silence c t).0
check-IsSilent key last c t early (m, (until, e, le)) =
    let swept = sweep_silenced-lookup key until c.handled_at t m e (omega (arith, early, le)) in
    elim (ℕ_discrete c.user_id key) [
      | yes same ↦
          rw (check-refused key last c t same early (m, (until, e, le)))
            (sweep_silenced-AreSilenced c.handled_at t m, (until, swept, le))
      | no differ ↦ check-other key last until c t differ m swept le
    ]

write-IsSilent :
    (key last : ℕ) (c : ThrottledCall) (t : Throttle)
    → (c.user_id ≡ key → last ≤ c.handled_at + 30_000_000_000)
    → IsSilent key last t
    → IsSilent key last (write_silence c t)
write-IsSilent key last c t late (m, (until, e, le)) =
    let kept = insert-IsMap c.user_id (c.handled_at + silence_duration) t.silenced_until m in
    let found = lookup-insert c.user_id key (c.handled_at + silence_duration) t.silenced_until in
    elim (ℕ_discrete c.user_id key) [
      | yes same ↦
          (kept, (c.handled_at + silence_duration, found ∙ ground (arith, same), late same))
      | no differ ↦ (kept, (until, found ∙ ground (arith, differ, e), le))
    ]

step-IsSilent :
    (key last : ℕ) (c : ThrottledCall) (p : CallStage) (t : Throttle)
    → IsTimely key last (c, p)
    → IsSilent key last t
    → IsSilent key last (call_step c p t).0
unfolding ask_bucket
step-IsSilent key last c at_check t (early, late) h = check-IsSilent key last c t early h
step-IsSilent key last c at_bucket t (early, late) h =
    rw (with_bucket-silenced (kind_of t.grace c) _ t) h
step-IsSilent key last c at_silence t (early, late) h = write-IsSilent key last c t late h
step-IsSilent key last c passed t (early, late) h = h
step-IsSilent key last c refused t (early, late) h = h

step-is_held :
    (key last : ℕ) (c : ThrottledCall) (p : CallStage) (t : Throttle)
    → IsTimely key last (c, p)
    → IsSilent key last t
    → c.user_id ≡ key
    → is_held p ≡ true
    → is_held (call_step c p t).1 ≡ true
step-is_held key last c at_check t (early, late) h same held =
    rw (check-refused key last c t same early h) refl
step-is_held key last c at_bucket t timely h same held = cc
step-is_held key last c at_silence t timely h same held = cc
step-is_held key last c passed t timely h same held = cc
step-is_held key last c refused t timely h same held = refl

AreHeld-refl : (key : ℕ) (calls : List (ThrottledCall × CallStage)) → AreHeld key calls calls
AreHeld-refl key [] = tt
AreHeld-refl key (call ∷ calls) = ((refl, λ same held. held), AreHeld-refl key calls)

AreHeld-trans :
    (key : ℕ) (xs ys zs : List (ThrottledCall × CallStage))
    → AreHeld key xs ys
    → AreHeld key ys zs
    → AreHeld key xs zs
AreHeld-trans key [] [] zs h g = g
AreHeld-trans key [] (y ∷ ys) zs h g = absurd h
AreHeld-trans key (x ∷ xs) [] zs h g = absurd h
AreHeld-trans key (x ∷ xs) (y ∷ ys) [] h g = absurd g
AreHeld-trans key (x ∷ xs) (y ∷ ys) (z ∷ zs) (h, hs) (g, gs) = (
  (g.0 ∙ h.0, λ same held. g.1 (ap (λ (c : ThrottledCall). c.user_id) h.0 ∙ same) (h.1 same held)),
  AreHeld-trans key xs ys zs hs gs,
)

abbrev pub AreTimely : ℕ → ℕ → List (ThrottledCall × CallStage) → Type 0
AreTimely key last calls = All (IsTimely key last) calls

step_at-AreHeld :
    (key last n : ℕ) (calls : List (ThrottledCall × CallStage)) (t : Throttle)
    → AreTimely key last calls
    → IsSilent key last t
    → (AreHeld key calls (step_at n calls t).0)
      × (AreTimely key last (step_at n calls t).0)
      × (IsSilent key last (step_at n calls t).1)
unfolding step_at
step_at-AreHeld key last n [] t timely h = (tt, tt, h)
step_at-AreHeld key last zero ((c, p) ∷ calls) t (now, later) h = (
  ((refl, step-is_held key last c p t now h), AreHeld-refl key calls),
  (now, later),
  step-IsSilent key last c p t now h,
)
step_at-AreHeld key last (suc n) (call ∷ calls) t (now, later) h =
    let (held, timely, silent) = step_at-AreHeld key last n calls t later h in
    (((refl, λ same held. held), held), (now, timely), silent)

interleave-AreHeld :
    (key last : ℕ) (schedule : List ℕ) (calls : List (ThrottledCall × CallStage)) (t : Throttle)
    → AreTimely key last calls
    → IsSilent key last t
    → AreHeld key calls (interleave schedule calls t).0
unfolding interleave
interleave-AreHeld key last [] calls t timely h = AreHeld-refl key calls
interleave-AreHeld key last (n ∷ schedule) calls t timely h =
    let (held, next, silent) = step_at-AreHeld key last n calls t timely h in
    AreHeld-trans key calls (step_at n calls t).0 _ held
      (interleave-AreHeld key last schedule (step_at n calls t).0 (step_at n calls t).1 next silent)

-- Once the silence of a refused call is written, no call of that user passes that has not been checked by
-- then, however the steps of all calls are interleaved and the sweeps fall: it stays unchecked or is refused.
-- The calls that make the steps are handled before 30 seconds have passed since the refused call was, and
-- those of its user not before it.
pub throttle-silence :
    (c : ThrottledCall) (calls : List (ThrottledCall × CallStage)) (schedule : List ℕ)
    (t : Throttle)
    → IsMap t.silenced_until
    → AreTimely c.user_id (c.handled_at + 30_000_000_000) calls
    → AreHeld c.user_id calls (interleave schedule calls (call_step c at_silence t).0).0
throttle-silence c calls schedule t m timely =
    interleave-AreHeld c.user_id (c.handled_at + 30_000_000_000) schedule calls (write_silence c t)
      timely
      (
        insert-IsMap c.user_id (c.handled_at + silence_duration) t.silenced_until m,
        (
          c.handled_at + silence_duration,
          lookup-insert c.user_id c.user_id (c.handled_at + silence_duration) t.silenced_until
              ∙ ground arith,
          omega arith,
        ),
      )
