-- ===== src/Fsm/Sweep.antt =====
-- Any history of operations: the store keeps its shape, and what a sweep leaves behind is fresh.
use birthly_go.Prelude.{ℕ, ◌+◌, ◌≤◌, ◌≡◌, List, [], ◌∷◌, some, arith}
use birthly_go.Prelude.Assoc.{lookup, insert, lookup-retain, insert-IsMap, erase-IsMap}
use birthly_go.Fsm.State.{State}
use birthly_go.Fsm.Defs.{
  Data, Entry, Store, new_store, is_fresh, touch, set_state, clear_state, set_data, update_data,
  clear, IsStore,
}
use birthly_go.Fsm.Laws.{touched, touch-IsStore, modify-IsStore}

-- The operations that change the store; those that write read the clock twice.
pub data Op (V : Type 0) : Type 0 where
  to_state : ℕ → State → ℕ → ℕ → Op V
  to_no_state : ℕ → Op V
  to_data : ℕ → Data V → ℕ → ℕ → Op V
  to_merged : ℕ → Data V → ℕ → ℕ → Op V
  to_nothing : ℕ → Op V

module _ {V : Type 0} where
  unfoldable pub apply : Op V → Store V → Store V
  apply (to_state user state now sweep_now) s = set_state user state now sweep_now s
  apply (to_no_state user) s = clear_state user s
  apply (to_data user d now sweep_now) s = set_data user d now sweep_now s
  apply (to_merged user d now sweep_now) s = update_data user d now sweep_now s
  apply (to_nothing user) s = clear user s

  unfoldable pub run : List (Op V) → Store V → Store V
  run [] s = s
  run (op ∷ ops) s = run ops (apply op s)

  -- Every operation keeps the shape of the store.
  pub apply-IsStore : (op : Op V) (s : Store V) → IsStore s → IsStore (apply op s)
  unfolding apply set_state clear_state set_data update_data clear
  apply-IsStore (to_state user state now sweep_now) s v =
      modify-IsStore user _ (touch user now sweep_now s) (touch-IsStore user now sweep_now s v)
  apply-IsStore (to_no_state user) s v = modify-IsStore user _ s v
  apply-IsStore (to_data user d now sweep_now) s v =
      modify-IsStore user _ (touch user now sweep_now s) (touch-IsStore user now sweep_now s v)
  apply-IsStore (to_merged user d now sweep_now) s v =
      modify-IsStore user _ (touch user now sweep_now s) (touch-IsStore user now sweep_now s v)
  apply-IsStore (to_nothing user) s v = record {
    keys = erase-IsMap user s.records v.keys;
    counter = v.counter;
  }

  pub run-IsStore : (ops : List (Op V)) (s : Store V) → IsStore s → IsStore (run ops s)
  unfolding run
  run-IsStore [] s v = v
  run-IsStore (op ∷ ops) s v = run-IsStore ops (apply op s) (apply-IsStore op s v)

  pub new_store-IsStore :
      (max_age sweep_every : ℕ) → IsStore {V = V} (new_store max_age sweep_every)
  unfolding new_store
  new_store-IsStore max_age sweep_every = ground arith

  -- After any operations on a new store no user has two records, and the counter of writes is below
  -- the sweep interval.
  pub reachable-IsStore :
      (max_age sweep_every : ℕ) (ops : List (Op V))
      → IsStore (run ops (new_store max_age sweep_every))
  reachable-IsStore max_age sweep_every ops =
      run-IsStore ops (new_store max_age sweep_every) (new_store-IsStore max_age sweep_every)

  -- After the write that fills the interval, every record left is fresh.
  pub touch-fresh :
      (user v now sweep_now : ℕ) (s : Store V) (r : Entry V)
      → IsStore s
      → s.sweep_every ≤ s.writes_sweep + 1
      → lookup v (touch user now sweep_now s).records ≡ some r
      → sweep_now ≤ r.last_write + s.max_age
  unfolding touch
  touch-fresh user v now sweep_now s r h full e = ground (
    arith,
    insert-IsMap user (touched user now s) s.records h.keys,
    lookup-retain (is_fresh s.max_age sweep_now) v (insert user (touched user now s) s.records),
  )
