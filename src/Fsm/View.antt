-- ===== src/Fsm/View.antt =====
-- What the store promises, without its records and its clock: a step and data for every user.
use birthly_go.Prelude.{
  fun_ext, leb, ℕ, ◌+◌, ◌≤◌, ◌≡◌, ◌≢◌, refl, ap, ◌∙◌, ◌==◌, if◌then◌else◌, Bool-cases, Option-cases,
  inl, inr, List, [], ◌∷◌, Option, none, some, arith,
}
use birthly_go.Prelude.Assoc.{lookup}
use birthly_go.Fsm.State.{State, unset}
use birthly_go.Fsm.Defs.{Data, Entry, Store, entry_or_new, no_data, touch, modify, merge, IsStore}
use birthly_go.Fsm.Laws.{touched, lookup-modify, lookup-touch_self, lookup-touch_other}
use birthly_go.Fsm.Sweep.{Op, to_state, to_no_state, to_data, to_merged, to_nothing}

abbrev pub View : Type 0 → Type 0
View V = ℕ → State × Data V

module _ {V : Type 0} where
  abbrev pub change : ℕ → (State × Data V → State × Data V) → View V → View V
  change user f w v = if user == v then f (w v) else w v

  -- The operations on the view; none of them reads the clock.
  unfoldable pub view_op : Op V → View V → View V
  view_op (to_state user state now sweep_now) w = change user (λ p. (state, p.1)) w
  view_op (to_no_state user) w = change user (λ p. (unset, p.1)) w
  view_op (to_data user d now sweep_now) w = change user (λ p. (p.0, d)) w
  view_op (to_merged user d now sweep_now) w = change user (λ p. (p.0, merge d p.1)) w
  view_op (to_nothing user) w = change user (λ p. (unset, no_data)) w

  unfoldable pub view_run : List (Op V) → View V → View V
  view_run [] w = w
  view_run (op ∷ ops) w = view_run ops (view_op op w)

  abbrev pub seen_as : Option (Entry V) → State × Data V
  seen_as none = (unset, no_data)
  seen_as (some r) = (r.state, r.flow_data)

  abbrev pub view : Store V → View V
  view s v = seen_as (lookup v s.records)

  -- The operation writes after `start`, and its sweep is not more than the maximal age after it.
  abbrev pub IsWithin : ℕ → ℕ → Op V → Type 0
  IsWithin start max_age (to_state user state now sweep_now) =
      (start ≤ now) × (sweep_now ≤ start + max_age)
  IsWithin start max_age (to_data user d now sweep_now) =
      (start ≤ now) × (sweep_now ≤ start + max_age)
  IsWithin start max_age (to_merged user d now sweep_now) =
      (start ≤ now) × (sweep_now ≤ start + max_age)
  IsWithin start max_age _ = Unit

  -- Every record was written after `start`.
  abbrev pub IsRecent : ℕ → Store V → Type 0
  IsRecent start s = (v : ℕ) (r : Entry V) → lookup v s.records ≡ some r → start ≤ r.last_write

  touch-other :
      (start user v now sweep_now : ℕ) (s : Store V)
      → IsStore s
      → IsRecent start s
      → sweep_now ≤ start + s.max_age
      → user ≢ v
      → lookup v (touch user now sweep_now s).records ≡ lookup v s.records
  touch-other start user v now sweep_now s h recent window n =
      elim (Option-cases (lookup v s.records)) [
        | inl e ↦ ground (arith, e, lookup-touch_other user v now sweep_now s h n)
        | inr (r, e) ↦
            ground (arith, e, recent v r e, lookup-touch_other user v now sweep_now s h n)
      ]

  -- A write: `touch`, and then the change of the user's own record.
  abbrev pub write : ℕ → ℕ → ℕ → (Entry V → Entry V) → Store V → Store V
  write user now sweep_now f s = modify user f (touch user now sweep_now s)

  write-lookup :
      (start user now sweep_now : ℕ) (f : Entry V → Entry V) (s : Store V)
      → IsStore s
      → IsRecent start s
      → start ≤ now
      → sweep_now ≤ start + s.max_age
      → (v : ℕ)
      → lookup v (write user now sweep_now f s).records
        ≡ (if user == v then some (f (touched user now s)) else lookup v s.records)
  write-lookup start user now sweep_now f s h recent late window v = elim (Bool-cases (user == v)) [
    | inl same ↦ ground (
      arith,
      same,
      lookup-touch_self user now sweep_now s h (omega arith),
      lookup-modify user v f (touch user now sweep_now s),
    )
    | inr other ↦ ground (
      arith,
      other,
      touch-other start user v now sweep_now s h recent window (ground arith),
      lookup-modify user v f (touch user now sweep_now s),
    )
  ]

  seen_as_touched :
      (now : ℕ) (r : Option (Entry V))
      → seen_as (some (record (entry_or_new r) { last_write = now })) ≡ seen_as r
  seen_as_touched now none = refl
  seen_as_touched now (some r) = refl

  -- The changes of a record that the writes make, on the view.
  pub write-view :
      (start user now sweep_now : ℕ) (f : Entry V → Entry V) (g : State × Data V → State × Data V)
      (s : Store V)
      → ((q : Entry V) → seen_as (some (f q)) ≡ g (seen_as (some q)))
      → IsStore s
      → IsRecent start s
      → start ≤ now
      → sweep_now ≤ start + s.max_age
      → view (write user now sweep_now f s) ≡ change user g (view s)
  write-view start user now sweep_now f g s same h recent late window = fun_ext λ v.
      rw (write-lookup start user now sweep_now f s h recent late window v)
        (elim (Bool-cases (user == v)) [
          | inl self ↦ rw self (
              same (touched user now s)
              ∙ ap g (seen_as_touched now (lookup user s.records))
              ∙ ap (λ u. g (seen_as (lookup u s.records))) (ground arith))
          | inr other ↦ rw other refl
        ])

  pub write-IsRecent :
      (start user now sweep_now : ℕ) (f : Entry V → Entry V) (s : Store V)
      → ((r : Entry V) → (f r).last_write ≡ r.last_write)
      → IsStore s
      → IsRecent start s
      → start ≤ now
      → sweep_now ≤ start + s.max_age
      → IsRecent start (write user now sweep_now f s)
  write-IsRecent start user now sweep_now f s keeps h recent late window v r e =
      elim (Bool-cases (user == v)) [
        | inl self ↦ ground (
          arith,
          self,
          keeps (touched user now s),
          write-lookup start user now sweep_now f s h recent late window v,
        )
        | inr other ↦ ground (
          arith,
          other,
          recent v r,
          write-lookup start user now sweep_now f s h recent late window v,
        )
      ]

  -- Changes that keep the maximal age.
  pub modify-max_age :
      (user : ℕ) (f : Entry V → Entry V) (s : Store V) → (modify user f s).max_age ≡ s.max_age
  unfolding modify
  modify-max_age user f s = elim (Option-cases (lookup user s.records)) [
    | inl e ↦ rw e refl
    | inr (r, e) ↦ rw e refl
  ]

  pub touch-max_age :
      (user now sweep_now : ℕ) (s : Store V) → (touch user now sweep_now s).max_age ≡ s.max_age
  unfolding touch
  touch-max_age user now sweep_now s = elim (Bool-cases (leb s.sweep_every (s.writes_sweep + 1))) [
    | inl full ↦ rw full refl
    | inr more ↦ rw more refl
  ]
