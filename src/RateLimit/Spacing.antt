-- ===== src/RateLimit/Spacing.antt =====
-- Two calls of a key that the debouncer allows are an interval apart.
use birthly_go.Prelude.{
  ℕ, ◌+◌, ◌-◌, ◌≤◌, ◌<◌, ◌≡◌, refl, true, List, [], ◌∷◌, some, arith, inl, inr, ◌⊎◌, ◌∙◌,
}
use birthly_go.Prelude.Assoc.{
  lookup, IsMap, lookup-insert, lookup-retain, insert-IsMap, retain-IsMap,
}
use birthly_go.RateLimit.Bucket.{idle_evict_interval}
use birthly_go.RateLimit.Bounds.{Ordered, end_time, start-le-end}
use birthly_go.RateLimit.Debouncer.{Debouncer, sweep, is_kept, admit, debounce}

-- The state after a history of calls.
unfoldable pub after_calls : List (ℕ × ℕ) → Debouncer → Debouncer
after_calls [] d = d
after_calls ((key, now) ∷ calls) d = after_calls calls (debounce key now d).0

-- A call of `k` at time `t` is still remembered, or is more than an hour old.
abbrev Remembers : ℕ → ℕ → ℕ → Debouncer → Type 0
Remembers k t now d =
    ((last : ℕ) × (lookup k d.last_call ≡ some last) × (t ≤ last)) ⊎ (t + idle_evict_interval < now)

sweep-lookup :
    (k last later : ℕ) (d : Debouncer)
    → IsMap d.last_call
    → lookup k d.last_call ≡ some last
    → (lookup k (sweep later d).last_call ≡ some last) ⊎ (last + idle_evict_interval < later)
unfolding sweep
sweep-lookup k last later d m e = ground (arith, lookup-retain (is_kept later) k d.last_call m)

admit-lookup :
    (k key last now : ℕ) (d : Debouncer)
    → lookup k d.last_call ≡ some last
    → (lookup k (admit key now d).0.last_call ≡ some last)
      ⊎ (lookup k (admit key now d).0.last_call ≡ some now)
unfolding admit
admit-lookup k key last now d e = ground (arith, lookup-insert key k now d.last_call)

sweep-Remembers :
    (k t now later : ℕ) (d : Debouncer)
    → IsMap d.last_call
    → now ≤ later
    → Remembers k t now d
    → Remembers k t later (sweep later d)
sweep-Remembers k t now later d m le (inr old) = inr (omega arith)
sweep-Remembers k t now later d m le (inl (last, e, h)) = elim (sweep-lookup k last later d m e) [
  | inl kept ↦ inl (last, kept, h)
  | inr old ↦ inr (omega arith)
]

admit-Remembers :
    (k t key now : ℕ) (d : Debouncer)
    → t ≤ now
    → Remembers k t now d
    → Remembers k t now (admit key now d).0
admit-Remembers k t key now d le (inr old) = inr old
admit-Remembers k t key now d le (inl (last, e, h)) = elim (admit-lookup k key last now d e) [
  | inl same ↦ inl (last, same, h)
  | inr new ↦ inl (now, new, le)
]

sweep-IsMap : (later : ℕ) (d : Debouncer) → IsMap d.last_call → IsMap (sweep later d).last_call
unfolding sweep
sweep-IsMap later d m = ground (arith, retain-IsMap (is_kept later) d.last_call)

admit-IsMap :
    (key now : ℕ) (d : Debouncer) → IsMap d.last_call → IsMap (admit key now d).0.last_call
unfolding admit
admit-IsMap key now d m = ground (arith, insert-IsMap key now d.last_call)

debounce-IsMap :
    (key now : ℕ) (d : Debouncer) → IsMap d.last_call → IsMap (debounce key now d).0.last_call
unfolding debounce
debounce-IsMap key now d m = admit-IsMap key now (sweep now d) (sweep-IsMap now d m)

debounce-interval : (key now : ℕ) (d : Debouncer) → (debounce key now d).0.interval ≡ d.interval
unfolding debounce admit sweep
debounce-interval key now d = ground arith

-- An allowed call is remembered.
allowed-Remembers :
    (k t : ℕ) (d : Debouncer) → (debounce k t d).1 ≡ true → Remembers k t t (debounce k t d).0
unfolding debounce admit
allowed-Remembers k t d h =
    inl (t, ground (arith, lookup-insert k k t (sweep t d).last_call), omega arith)

debounce-Remembers :
    (k t now key later : ℕ) (d : Debouncer)
    → IsMap d.last_call
    → t ≤ now
    → now ≤ later
    → Remembers k t now d
    → Remembers k t later (debounce key later d).0
unfolding debounce
debounce-Remembers k t now key later d m tn le r =
    admit-Remembers k t key later (sweep later d) (omega arith)
      (sweep-Remembers k t now later d m le r)

after_calls-Remembers :
    (k t now : ℕ) (calls : List (ℕ × ℕ)) (d : Debouncer)
    → IsMap d.last_call
    → t ≤ now
    → Ordered now calls
    → Remembers k t now d
    → Remembers k t (end_time now calls) (after_calls calls d)
unfolding after_calls
after_calls-Remembers k t now [] d m tn o r = r
after_calls-Remembers k t now ((key, later) ∷ calls) d m tn o r =
    after_calls-Remembers k t later calls (debounce key later d).0 (debounce-IsMap key later d m)
      (omega arith) o.1 (debounce-Remembers k t now key later d m tn o.0 r)

after_calls-IsMap :
    (calls : List (ℕ × ℕ)) (d : Debouncer)
    → IsMap d.last_call
    → IsMap (after_calls calls d).last_call
unfolding after_calls
after_calls-IsMap [] d m = m
after_calls-IsMap ((key, now) ∷ calls) d m =
    after_calls-IsMap calls (debounce key now d).0 (debounce-IsMap key now d m)

after_calls-interval :
    (calls : List (ℕ × ℕ)) (d : Debouncer) → (after_calls calls d).interval ≡ d.interval
unfolding after_calls
after_calls-interval [] d = refl
after_calls-interval ((key, now) ∷ calls) d =
    after_calls-interval calls (debounce key now d).0 ∙ debounce-interval key now d

sweep-interval : (later : ℕ) (d : Debouncer) → (sweep later d).interval ≡ d.interval
unfolding sweep
sweep-interval later d = ground arith

admit-answer :
    (k last now : ℕ) (d : Debouncer)
    → lookup k d.last_call ≡ some last
    → (admit k now d).1 ≡ true
    → d.interval ≤ now - last
unfolding admit
admit-answer k last now d e h = ground arith

-- A remembered call bars the next one for the interval.
allowed_after :
    (k t now later : ℕ) (d : Debouncer)
    → IsMap d.last_call
    → d.interval ≤ idle_evict_interval
    → t ≤ now
    → now ≤ later
    → Remembers k t now d
    → (debounce k later d).1 ≡ true
    → t + d.interval ≤ later
unfolding debounce
allowed_after k t now later d m short tn le r h = elim (sweep-Remembers k t now later d m le r) [
  | inl (last, e, after) ↦
      omega (arith, admit-answer k last later (sweep later d) e h, sweep-interval later d)
  | inr old ↦ omega arith
]

-- If a call of a key is allowed, any later call of that key that is allowed comes at least an interval
-- later, whatever calls and sweeps lie between, for an interval of at most the hour after which the
-- sweep forgets.
pub debounce_spacing :
    (k t later : ℕ) (calls : List (ℕ × ℕ)) (d : Debouncer)
    → IsMap d.last_call
    → d.interval ≤ idle_evict_interval
    → Ordered t calls
    → end_time t calls ≤ later
    → (debounce k t d).1 ≡ true
    → (debounce k later (after_calls calls (debounce k t d).0)).1 ≡ true
    → t + d.interval ≤ later
debounce_spacing k t later calls d m short o le h h' =
    let first : Debouncer = (debounce k t d).0 in
    let first_m : IsMap first.last_call = debounce-IsMap k t d m in
    let same : (after_calls calls first).interval ≡ d.interval =
      after_calls-interval calls first ∙ debounce-interval k t d in
    let bound : t + (after_calls calls first).interval ≤ later =
      allowed_after k t (end_time t calls) later (after_calls calls first)
        (after_calls-IsMap calls first first_m) (omega arith) (start-le-end t calls o) le
        (after_calls-Remembers k t t calls first first_m (omega arith) o
          (allowed-Remembers k t d h))
        h' in
    omega arith
