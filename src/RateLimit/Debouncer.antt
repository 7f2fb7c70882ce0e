-- ===== src/RateLimit/Debouncer.antt =====
-- `Debouncer`: a minimal interval between the calls of a key.
use birthly_go.Prelude.{
  ℕ, ◌+◌, ◌-◌, Bool, true, false, not, ltb, leb, if◌then◌else◌, List, [], Option, none, some,
}
use birthly_go.Prelude.Assoc.{lookup, insert, retain}
use birthly_go.RateLimit.Bucket.{idle_evict_interval, sweep_every_n_calls}

pub record Debouncer : Type 0 where
  pub interval : ℕ
  pub last_call : List (ℕ × ℕ)
  pub calls_sweep : ℕ

unfoldable pub new_debouncer : ℕ → Debouncer
new_debouncer interval = record { interval = interval; last_call = []; calls_sweep = 0 }

abbrev pub is_kept : ℕ → ℕ → Bool
is_kept now last = not (ltb (last + idle_evict_interval) now)

-- The counter, and the sweep of every 500th call.
unfoldable pub sweep : ℕ → Debouncer → Debouncer
sweep now d =
    if leb sweep_every_n_calls (d.calls_sweep + 1)
    then record d { calls_sweep = 0; last_call = retain (is_kept now) d.last_call }
    else record d { calls_sweep = d.calls_sweep + 1 }

abbrev pub too_soon : Option ℕ → ℕ → ℕ → Bool
too_soon none now interval = false
too_soon (some last) now interval = ltb (now - last) interval

unfoldable pub admit : ℕ → ℕ → Debouncer → Debouncer × Bool
admit key now d =
    if too_soon (lookup key d.last_call) now d.interval
    then (d, false)
    else (record d { last_call = insert key now d.last_call }, true)

-- `Debouncer.Allow`
unfoldable pub debounce : ℕ → ℕ → Debouncer → Debouncer × Bool
debounce key now d = admit key now (sweep now d)
