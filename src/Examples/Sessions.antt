-- ===== src/Examples/Sessions.antt =====
-- Conversations of two users, with numbers as data.
use birthly_go.Prelude.{
  ℕ, ◌+◌, ◌≤◌, ◌≡◌, refl, arith, none, some, List, [], ◌∷◌, str_eq, if◌then◌else◌,
}
use birthly_go.Prelude.Assoc.{lookup, insert, erase, retain}
use birthly_go.Fsm.State.{unset, add_event_name}
use birthly_go.Fsm.View.{view_run}
use birthly_go.Fsm.Refine.{run_refines}
use birthly_go.Fsm.Defs.{
  get_state, get_data, is_set, Data, Store, no_data, new_store, evict_stale, modify, touch,
  set_state, set_data, IsStore,
}
use birthly_go.Fsm.Sweep.{Op, to_state, to_data, apply, run, reachable-IsStore}

abbrev name_is : ℕ → Data ℕ
name_is n k = if str_eq k "name" then some n else none

abbrev ops : List (Op ℕ)
ops = to_state 7 (add_event_name) 100 100 ∷ to_data 8 (name_is 3) 110 110 ∷ []

abbrev store : Store ℕ
store = run ops (new_store 1000 3)

store_counts : (store.sweep_every ≡ 3) × (store.writes_sweep ≡ 2)
unfolding run apply new_store set_state set_data touch modify evict_stale lookup insert erase retain
store_counts = (refl, refl)

store_full : store.sweep_every ≤ store.writes_sweep + 1
store_full = omega (arith, store_counts)

swept :
    lookup 9 (touch 9 5000 5000 store).records
    ≡ some (record { state = unset; flow_data = no_data; last_write = 5000 })
unfolding run apply new_store set_state set_data touch modify evict_stale lookup insert erase retain
swept = refl

reachable-IsStore_example : IsStore store
reachable-IsStore_example = reachable-IsStore 1000 3 ops

-- The two operations, within the age of the store, on the map from users to steps and data.
run_refines_example :
    let w = view_run ops (λ v. (unset, no_data)) 7 in
    (get_state 7 store ≡ (w.0, is_set w.0)) × (get_data 7 store ≡ w.1)
run_refines_example =
    run_refines 100 1000 3 ops 7 ((omega arith, omega arith), ((omega arith, omega arith), tt))
