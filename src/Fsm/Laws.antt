-- ===== src/Fsm/Laws.antt =====
-- Reads after writes.
use birthly_go.Prelude.{
  false, ℕ, ◌+◌, ◌≤◌, ◌≡◌, ◌≢◌, Bool, not, leb, ◌==◌, if◌then◌else◌, none, some, arith, ◌&&◌,
  Option-cases, inl, inr,
}
use birthly_go.Prelude.Assoc.{
  lookup, insert, lookup-insert, lookup-retain, lookup-erase, insert-IsMap, retain-IsMap,
}
use birthly_go.Fsm.State.{State, unset}
use birthly_go.Fsm.Defs.{
  no_data, set_state, get_state, clear_state, set_data, merge, update_data, get_data, clear, is_set,
  Data, Entry, Store, is_fresh, entry_or_new, touch, modify, IsStore,
}

module _ {V : Type 0} where
  -- Whether a write sweeps.
  abbrev pub sweeps : Store V → Bool
  sweeps s = leb s.sweep_every (s.writes_sweep + 1)

  pub lookup-modify :
      (user v : ℕ) (f : Entry V → Entry V) (s : Store V)
      → lookup v (modify user f s).records ≡ (
          if user == v
          then elim (lookup v s.records) [ none ↦ none | some r ↦ some (f r) ]
          else lookup v s.records)
  unfolding modify
  lookup-modify user v f s = elim (Option-cases (lookup user s.records)) [
    | inl e ↦ rw e (ground (arith, e))
    | inr (r, e) ↦ rw e (ground (arith, e, lookup-insert user v (f r) s.records))
  ]

  -- The record that `touch` leaves for its user.
  abbrev pub touched : ℕ → ℕ → Store V → Entry V
  touched user now s = record (entry_or_new (lookup user s.records)) { last_write = now }

  -- The user's own record survives the sweep of its write, if the clock did not move on by more than
  -- the maximal age in between.
  pub lookup-touch_self :
      (user now sweep_now : ℕ) (s : Store V)
      → IsStore s
      → sweep_now ≤ now + s.max_age
      → lookup user (touch user now sweep_now s).records ≡ some (touched user now s)
  unfolding touch
  lookup-touch_self user now sweep_now s v h = ground (
    arith,
    lookup-insert user user (touched user now s) s.records,
    insert-IsMap user (touched user now s) s.records v.keys,
    lookup-retain (is_fresh s.max_age sweep_now) user (insert user (touched user now s) s.records),
  )

  -- Another user's record stays as it was, unless the write sweeps and the record is stale.
  pub lookup-touch_other :
      (user v now sweep_now : ℕ) (s : Store V)
      → IsStore s
      → user ≢ v
      → lookup v (touch user now sweep_now s).records ≡ elim (lookup v s.records) [
        | none ↦ none
        | some r ↦ if sweeps s && not (is_fresh s.max_age sweep_now r) then none else some r
      ]
  unfolding touch
  lookup-touch_other user v now sweep_now s h n = ground (
    arith,
    lookup-insert user v (touched user now s) s.records,
    insert-IsMap user (touched user now s) s.records h.keys,
    lookup-retain (is_fresh s.max_age sweep_now) v (insert user (touched user now s) s.records),
  )

  pub touch-IsStore :
      (user now sweep_now : ℕ) (s : Store V) → IsStore s → IsStore (touch user now sweep_now s)
  unfolding touch
  touch-IsStore user now sweep_now s v = ground (
    arith,
    insert-IsMap user (touched user now s) s.records v.keys,
    retain-IsMap (is_fresh s.max_age sweep_now) (insert user (touched user now s) s.records),
  )

  pub modify-IsStore :
      (user : ℕ) (f : Entry V → Entry V) (s : Store V) → IsStore s → IsStore (modify user f s)
  unfolding modify
  modify-IsStore user f s v = elim (Option-cases (lookup user s.records)) [
    | inl e ↦ rw e v
    | inr (r, e) ↦
        rw e (record { keys = insert-IsMap user (f r) s.records v.keys; counter = v.counter })
  ]

  -- After `SetState` the user's state is the one that was set and the user's data is as before, if
  -- the clock did not move on by more than the maximal age during the call.
  pub get_state-set_state :
      (user now sweep_now : ℕ) (state : State) (s : Store V)
      → IsStore s
      → sweep_now ≤ now + s.max_age
      → (get_state user (set_state user state now sweep_now s) ≡ (state, is_set state))
        × (get_data user (set_state user state now sweep_now s) ≡ get_data user s)
  unfolding get_state set_state get_data
  get_state-set_state user now sweep_now state s v h =
      let t = touch user now sweep_now s in
      let f : Entry V → Entry V = λ r. record r { state = state } in
      ground (arith, lookup-touch_self user now sweep_now s v h, lookup-modify user user f t)

  -- After `UpdateData` the updates lie over the user's old data, and the state is as before.
  pub get_data-update_data :
      (user now sweep_now : ℕ) (updates : Data V) (s : Store V)
      → IsStore s
      → sweep_now ≤ now + s.max_age
      → (get_data user (update_data user updates now sweep_now s) ≡ merge updates (get_data user s))
        × (get_state user (update_data user updates now sweep_now s) ≡ get_state user s)
  unfolding get_state update_data get_data
  get_data-update_data user now sweep_now updates s v h =
      let t = touch user now sweep_now s in
      let f : Entry V → Entry V = λ r. record r { flow_data = merge updates r.flow_data } in
      ground (arith, lookup-touch_self user now sweep_now s v h, lookup-modify user user f t)

  -- `SetData` replaces the data and keeps the state.
  pub get_data-set_data :
      (user now sweep_now : ℕ) (d : Data V) (s : Store V)
      → IsStore s
      → sweep_now ≤ now + s.max_age
      → (get_data user (set_data user d now sweep_now s) ≡ d)
        × (get_state user (set_data user d now sweep_now s) ≡ get_state user s)
  unfolding get_state set_data get_data
  get_data-set_data user now sweep_now d s v h =
      let t = touch user now sweep_now s in
      let f : Entry V → Entry V = λ r. record r { flow_data = d } in
      ground (arith, lookup-touch_self user now sweep_now s v h, lookup-modify user user f t)

  -- `ClearState` leaves no state and keeps every user's data; `Clear` forgets both and touches no other
  -- user.
  pub clear_lem :
      (user v : ℕ) (s : Store V)
      → (get_state user (clear_state user s) ≡ (unset, false))
        × (get_data v (clear_state user s) ≡ get_data v s)
        × (get_state user (clear user s) ≡ (unset, false))
        × (get_data user (clear user s) ≡ no_data)
        × (user ≢ v
            → (get_state v (clear user s) ≡ get_state v s)
              × (get_data v (clear user s) ≡ get_data v s))
  unfolding get_state clear_state clear get_data
  clear_lem user v s = ground (
    arith,
    lookup-modify user user (λ (r : Entry V). record r { state = unset }) s,
    lookup-modify user v (λ (r : Entry V). record r { state = unset }) s,
    lookup-erase user user s.records,
    lookup-erase user v s.records,
  )
