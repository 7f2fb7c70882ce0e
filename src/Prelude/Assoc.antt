-- ===== src/Prelude/Assoc.antt =====
-- Go's `map[int64]V` as an association list: a key occurs at most once when the map was built by
-- the operations below.
use birthly_go.Prelude.Tests.{◌==◌, if◌then◌else◌}
use birthly_go.Prelude.Lists.{length}
use Prim.Native.Nat.{ℕ, suc, ◌≤◌}
use mathlib.Core.Path.{◌≡◌, refl}
use mathlib.Core.Bool.{Bool}
use mathlib.Core.List.{List, [], ◌∷◌}
use mathlib.Core.Option.{Option, none, some}
use native.Mathlib.Omega.{arith}

module _ {ℓ} {V : Type ℓ} where
  unfoldable pub lookup : ℕ → List (ℕ × V) → Option V
  lookup k [] = none
  lookup k ((j, v) ∷ m) = if j == k then some v else lookup k m

  unfoldable pub insert : ℕ → V → List (ℕ × V) → List (ℕ × V)
  insert k v [] = (k, v) ∷ []
  insert k v ((j, w) ∷ m) = if j == k then (k, v) ∷ m else (j, w) ∷ insert k v m

  -- `delete(m, k)`
  unfoldable pub erase : ℕ → List (ℕ × V) → List (ℕ × V)
  erase k [] = []
  erase k ((j, w) ∷ m) = let rest = erase k m in if j == k then rest else (j, w) ∷ rest

  -- A `range` loop that deletes the entries which fail a test.
  unfoldable pub retain : (V → Bool) → List (ℕ × V) → List (ℕ × V)
  retain p [] = []
  retain p ((j, w) ∷ m) = let rest = retain p m in if p w then (j, w) ∷ rest else rest

module _ {ℓ} {V : Type ℓ} where
  pub lookup-insert :
      (key other : ℕ) (v : V) (m : List (ℕ × V))
      → lookup other (insert key v m) ≡ (if key == other then some v else lookup other m)
  unfolding insert lookup
  lookup-insert key other v [] = refl
  lookup-insert key other v ((j, w) ∷ rest) = ground (arith, lookup-insert key other v rest)

  pub lookup-erase :
      (k j : ℕ) (m : List (ℕ × V)) → lookup j (erase k m) ≡ (if k == j then none else lookup j m)
  unfolding lookup erase
  lookup-erase k j [] = ground arith
  lookup-erase k j ((i, w) ∷ m) = ground (arith, lookup-erase k j m)

  -- No key occurs twice.
  abbrev pub IsMap : List (ℕ × V) → Type ℓ
  IsMap [] = Unit
  IsMap ((j, v) ∷ m) = (lookup j m ≡ none) × IsMap m

  pub lookup-retain :
      (p : V → Bool) (j : ℕ) (m : List (ℕ × V))
      → IsMap m
      → lookup j (retain p m)
        ≡ elim (lookup j m) [ none ↦ none | some v ↦ if p v then some v else none ]
  unfolding lookup retain
  lookup-retain p j [] h = refl
  lookup-retain p j ((i, w) ∷ m) h = ground (arith, lookup-retain p j m h.1)

module _ {ℓ} {V : Type ℓ} where
  lookup-retain-none :
      (p : V → Bool) (j : ℕ) (m : List (ℕ × V)) → lookup j m ≡ none → lookup j (retain p m) ≡ none
  unfolding lookup retain
  lookup-retain-none p j [] h = refl
  lookup-retain-none p j ((i, w) ∷ m) h = ground (arith, lookup-retain-none p j m)

  pub insert-IsMap : (k : ℕ) (v : V) (m : List (ℕ × V)) → IsMap m → IsMap (insert k v m)
  unfolding lookup insert
  insert-IsMap k v [] h = (refl, tt)
  insert-IsMap k v ((i, w) ∷ m) h = ground (arith, lookup-insert k i v m, insert-IsMap k v m)

  pub erase-IsMap : (k : ℕ) (m : List (ℕ × V)) → IsMap m → IsMap (erase k m)
  unfolding erase
  erase-IsMap k [] h = tt
  erase-IsMap k ((i, w) ∷ m) h = ground (arith, lookup-erase k i m, erase-IsMap k m)

  pub retain-IsMap : (p : V → Bool) (m : List (ℕ × V)) → IsMap m → IsMap (retain p m)
  unfolding retain
  retain-IsMap p [] h = tt
  retain-IsMap p ((i, w) ∷ m) h = ground (arith, lookup-retain-none p i m, retain-IsMap p m)

  pub length-retain : (p : V → Bool) (m : List (ℕ × V)) → length (retain p m) ≤ length m
  unfolding retain
  length-retain p [] = omega arith
  length-retain p ((i, w) ∷ m) = ground (arith, length-retain p m)

  pub length-insert : (k : ℕ) (v : V) (m : List (ℕ × V)) → length (insert k v m) ≤ suc (length m)
  unfolding insert
  length-insert k v [] = omega arith
  length-insert k v ((i, w) ∷ m) = ground (arith, length-insert k v m)

  pub length-erase : (k : ℕ) (m : List (ℕ × V)) → length (erase k m) ≤ length m
  unfolding erase
  length-erase k [] = omega arith
  length-erase k ((i, w) ∷ m) = ground (arith, length-erase k m)
