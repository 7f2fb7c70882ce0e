-- ===== src/Fsm/Defs.antt =====
-- The operations of `Store`. The values of the flow data (`any`) are a parameter.
use birthly_go.Prelude.{
  ℕ, ◌+◌, ◌<◌, Bool, true, false, not, ltb, leb, ◌==◌, if◌then◌else◌, List, [], Option, none, some,
  String, length,
}
use birthly_go.Prelude.Assoc.{lookup, insert, erase, retain, IsMap}
use birthly_go.Fsm.State.{State, unset}

-- `map[string]any`
abbrev pub Data : Type 0 → Type 0
Data V = String → Option V

-- The source's `record`.
pub record Entry (V : Type 0) : Type 0 where
  pub state : State
  pub flow_data : Data V
  pub last_write : ℕ

pub record Store (V : Type 0) : Type 0 where
  pub records : List (ℕ × Entry V)
  pub max_age : ℕ
  pub sweep_every : ℕ
  pub writes_sweep : ℕ

abbrev pub is_set : State → Bool
is_set unset = false
is_set _ = true

module _ {V : Type 0} where
  abbrev pub no_data : Data V
  no_data k = none

  -- `NewStore`; a sweep interval of 0 (or less) means 200.
  unfoldable pub new_store : ℕ → ℕ → Store V
  new_store max_age sweep_every = record {
    records = [];
    max_age = max_age;
    sweep_every = if sweep_every == 0 then 200 else sweep_every;
    writes_sweep = 0;
  }

  -- Not before `now - maxAge`.
  abbrev pub is_fresh : ℕ → ℕ → Entry V → Bool
  is_fresh max_age now r = not (ltb (r.last_write + max_age) now)

  unfoldable pub evict_stale : ℕ → Store V → Store V
  evict_stale now s = record s { records = retain (is_fresh s.max_age now) s.records }

  abbrev pub entry_or_new : Option (Entry V) → Entry V
  entry_or_new none = record { state = unset; flow_data = no_data; last_write = 0 }
  entry_or_new (some r) = r

  -- `touch`: the second reading of the clock is that of the sweep.
  unfoldable pub touch : ℕ → ℕ → ℕ → Store V → Store V
  unfolding evict_stale
  touch user now sweep_now s =
      let r = entry_or_new (lookup user s.records) in
      let t = record s { records = insert user (record r { last_write = now }) s.records } in
      if leb t.sweep_every (t.writes_sweep + 1)
      then evict_stale sweep_now (record t { writes_sweep = 0 })
      else record t { writes_sweep = t.writes_sweep + 1 }

  abbrev pub update_entry : Option (Entry V) → ℕ → (Entry V → Entry V) → Store V → Store V
  update_entry none user f s = s
  update_entry (some r) user f s = record s { records = insert user (f r) s.records }

  -- A write through the pointer to a user's record: it is seen only if the map still has it.
  unfoldable pub modify : ℕ → (Entry V → Entry V) → Store V → Store V
  modify user f s = update_entry (lookup user s.records) user f s

  unfoldable pub set_state : ℕ → State → ℕ → ℕ → Store V → Store V
  set_state user state now sweep_now s =
      modify user (λ r. record r { state = state }) (touch user now sweep_now s)

  abbrev pub state_of : Option (Entry V) → State × Bool
  state_of none = (unset, false)
  state_of (some r) = (r.state, is_set r.state)

  unfoldable pub get_state : ℕ → Store V → State × Bool
  get_state user s = state_of (lookup user s.records)

  unfoldable pub clear_state : ℕ → Store V → Store V
  clear_state user s = modify user (λ r. record r { state = unset }) s

  unfoldable pub set_data : ℕ → Data V → ℕ → ℕ → Store V → Store V
  set_data user d now sweep_now s =
      modify user (λ r. record r { flow_data = d }) (touch user now sweep_now s)

  -- The loop that copies the updates over the data.
  abbrev pub merge : Data V → Data V → Data V
  merge updates d k = elim (updates k) [ none ↦ d k | some v ↦ some v ]

  unfoldable pub update_data : ℕ → Data V → ℕ → ℕ → Store V → Store V
  update_data user updates now sweep_now s =
      modify user (λ r. record r { flow_data = merge updates r.flow_data })
        (touch user now sweep_now s)

  abbrev pub data_of : Option (Entry V) → Data V
  data_of none = no_data
  data_of (some r) = r.flow_data

  unfoldable pub get_data : ℕ → Store V → Data V
  get_data user s = data_of (lookup user s.records)

  unfoldable pub clear : ℕ → Store V → Store V
  clear user s = record s { records = erase user s.records }

  unfoldable pub len : Store V → ℕ
  len s = length s.records

-- No user has two records, and the sweep counter is below its interval.
pub record IsStore {V : Type 0} (s : Store V) : Type 0 where
  pub keys : IsMap s.records
  pub counter : s.writes_sweep < s.sweep_every
