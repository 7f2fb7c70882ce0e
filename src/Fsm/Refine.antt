-- ===== src/Fsm/Refine.antt =====
-- The store refines its view: histories of operations, while nothing grows stale.
use birthly_go.Prelude.{
  All, fun_ext, ℕ, ◌+◌, ◌≤◌, ◌≡◌, refl, ap, ◌∙◌, Option-cases, inl, inr, List, [], ◌∷◌, some, arith,
}
use birthly_go.Prelude.Assoc.{lookup, lookup-erase, erase-IsMap}
use birthly_go.Fsm.State.{State, unset}
use birthly_go.Fsm.Defs.{
  merge, Data, Entry, Store, no_data, new_store, touch, modify, set_state, get_state, clear_state,
  set_data, update_data, get_data, clear, is_set, IsStore,
}
use birthly_go.Fsm.Laws.{touch-IsStore, modify-IsStore, lookup-modify}
use birthly_go.Fsm.Sweep.{
  apply, run, new_store-IsStore, Op, to_state, to_no_state, to_data, to_merged, to_nothing,
}
use birthly_go.Fsm.View.{
  View, view_op, view_run, view, seen_as, change, IsWithin, IsRecent, write, write-view,
  write-IsRecent, modify-max_age, touch-max_age,
}

module _ {V : Type 0} where
  -- What holds of a store along a history.
  pub record IsLive (start max_age : ℕ) (s : Store V) : Type 0 where
    pub shape : IsStore s
    pub recent : IsRecent start s
    pub age : s.max_age ≡ max_age

  -- A write does to the view what `g` says.
  write-refines :
      (start max_age user now sweep_now : ℕ) (f : Entry V → Entry V)
      (g : State × Data V → State × Data V) (s : Store V)
      → ((q : Entry V)
          → (seen_as (some (f q)) ≡ g (seen_as (some q))) × ((f q).last_write ≡ q.last_write))
      → IsLive start max_age s
      → (start ≤ now) × (sweep_now ≤ start + max_age)
      → (view (write user now sweep_now f s) ≡ change user g (view s))
        × IsLive start max_age (write user now sweep_now f s)
  write-refines start max_age user now sweep_now f g s same l w =
      let window : sweep_now ≤ start + s.max_age = omega (arith, l.age, w.1) in
      (
        write-view start user now sweep_now f g s (λ q. (same q).0) l.shape l.recent w.0 window,
        record {
          shape =
              modify-IsStore user f (touch user now sweep_now s)
                (touch-IsStore user now sweep_now s l.shape);
          recent =
              write-IsRecent start user now sweep_now f s (λ q. (same q).1) l.shape l.recent w.0
                window;
          age =
              modify-max_age user f (touch user now sweep_now s)
              ∙ touch-max_age user now sweep_now s
              ∙ l.age;
        },
      )

  clear_state-recent :
      (start user v : ℕ) (s : Store V)
      → IsRecent start s
      → (r : Entry V) → lookup v (modify user (λ r. record r { state = unset }) s).records ≡ some r
      → start ≤ r.last_write
  clear_state-recent start user v s recent r e =
      let f : Entry V → Entry V = λ q. record q { state = unset } in
      elim (Option-cases (lookup v s.records)) [
        | inl gone ↦ ground (arith, gone, lookup-modify user v f s)
        | inr (q, there) ↦ ground (arith, there, recent v q there, lookup-modify user v f s)
      ]

  -- An operation within the window does to the view what its specification says.
  apply-view :
      (start max_age : ℕ) (op : Op V) (s : Store V)
      → IsLive start max_age s
      → IsWithin start max_age op
      → (view (apply op s) ≡ view_op op (view s)) × IsLive start max_age (apply op s)
  unfolding apply view_op set_state clear_state set_data update_data clear
  apply-view start max_age (to_state user state now sweep_now) s l w =
      write-refines start max_age user now sweep_now _ (λ p. (state, p.1)) s (λ q. (refl, refl)) l w
  apply-view start max_age (to_data user d now sweep_now) s l w =
      write-refines start max_age user now sweep_now _ (λ p. (p.0, d)) s (λ q. (refl, refl)) l w
  apply-view start max_age (to_merged user d now sweep_now) s l w =
      write-refines start max_age user now sweep_now _ (λ p. (p.0, merge d p.1)) s
        (λ q. (refl, refl)) l w
  apply-view start max_age (to_no_state user) s l w =
      let f : Entry V → Entry V = λ r. record r { state = unset } in
      (
        fun_ext λ v. ground (arith, lookup-modify user v f s),
        record {
          shape = modify-IsStore user f s l.shape;
          recent = λ v r e. clear_state-recent start user v s l.recent r e;
          age = modify-max_age user f s ∙ l.age;
        },
      )
  apply-view start max_age (to_nothing user) s l w = (
    fun_ext λ v. ground (arith, lookup-erase user v s.records),
    record {
      shape = record { keys = erase-IsMap user s.records l.shape.keys; counter = l.shape.counter };
      recent = λ v r e. ground (arith, l.recent v r, lookup-erase user v s.records);
      age = l.age;
    },
  )

  run-view :
      (start max_age : ℕ) (ops : List (Op V)) (s : Store V)
      → IsLive start max_age s
      → All (λ op. IsWithin start max_age op) ops
      → view (run ops s) ≡ view_run ops (view s)
  unfolding run view_run
  run-view start max_age [] s l w = refl
  run-view start max_age (op ∷ ops) s l w =
      let (same, live) = apply-view start max_age op s l w.0 in
      run-view start max_age ops (apply op s) live w.1 ∙ ap (view_run ops) same

  get-view :
      (user : ℕ) (s : Store V)
      → (get_state user s ≡ ((view s user).0, is_set (view s user).0))
        × (get_data user s ≡ (view s user).1)
  unfolding get_state get_data
  get-view user s = elim (Option-cases (lookup user s.records)) [
    | inl e ↦ rw e (refl, refl)
    | inr (r, e) ↦ rw e (refl, refl)
  ]

  new_store-IsLive :
      (start max_age sweep_every : ℕ) → IsLive start max_age (new_store max_age sweep_every)
  unfolding new_store lookup
  new_store-IsLive start max_age sweep_every = record {
    shape = unfold new_store in new_store-IsStore max_age sweep_every;
    recent = λ v r e. cc;
    age = refl;
  }

  new_store-view :
      (max_age sweep_every : ℕ) (s : Store V)
      → s ≡ new_store max_age sweep_every
      → view s ≡ (λ v. (unset, no_data))
  unfolding new_store lookup
  new_store-view max_age sweep_every s e = rw e refl

  -- While no more than the maximal age passes, any operations on a new store leave just the step and the
  -- data that the same operations leave in a map from users to steps and data: the records, the clock
  -- and the sweeps do not show.
  pub run_refines :
      (start max_age sweep_every : ℕ) (ops : List (Op V)) (user : ℕ)
      → All (λ op. IsWithin start max_age op) ops
      → let w = view_run ops (λ v. (unset, no_data)) user in
        (get_state user (run ops (new_store max_age sweep_every)) ≡ (w.0, is_set w.0))
        × (get_data user (run ops (new_store max_age sweep_every)) ≡ w.1)
  run_refines start max_age sweep_every ops user w =
      let s : Store V = run ops (new_store max_age sweep_every) in
      let seen : view s user ≡ view_run ops (λ v. (unset, no_data)) user =
        ap (λ (x : View V). x user)
          (run-view start max_age ops (new_store max_age sweep_every)
              (new_store-IsLive start max_age sweep_every) w
            ∙ ap (view_run ops)
                (new_store-view max_age sweep_every (new_store max_age sweep_every) refl)) in
      rw (← seen) (get-view user s)
