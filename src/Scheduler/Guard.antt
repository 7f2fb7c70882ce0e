-- ===== src/Scheduler/Guard.antt =====
-- `safe` of internal/scheduler/scheduler.go: the flag that keeps a job from running twice at once, under any
-- interleaving of the calls.
use birthly_go.Prelude.{ℕ, suc, ◌≤◌, ◌≡◌, refl, Bool, true, false, if◌then◌else◌, arith, ap}

-- The flag, and how many calls are inside the job.
pub record Job : Type 0 where
  pub running : Bool
  pub inside : ℕ

abbrev pub job : Bool → ℕ → Job
job running inside = record { running = running; inside = inside }

-- A call swaps the flag and goes in, or finds it set and is skipped; a call inside comes to its end, whether
-- it returns or panics, and resets the flag.
pub data Step : Job → Job → Type 0 where
  goes_in : (n : ℕ) → Step (job false n) (job true (suc n))
  is_skipped : (n : ℕ) → Step (job true n) (job true n)
  ends : (b : Bool) (n : ℕ) → Step (job b (suc n)) (job false n)

-- The states that a new job can come to.
pub data Reached : Job → Type 0 where
  at_start : Reached (job false 0)
  then_step : {s t : Job} → Reached s → Step s t → Reached t

abbrev IsGuarded : Job → Type 0
IsGuarded s = s.inside ≡ (if s.running then 1 else 0)

Step-IsGuarded : {s t : Job} → Step s t → IsGuarded s → IsGuarded t
Step-IsGuarded (goes_in n) h = ap suc h
Step-IsGuarded (is_skipped n) h = h
Step-IsGuarded (ends true n) h = omega (arith, h)
Step-IsGuarded (ends false n) h = absurd (omega (arith, h))

-- However the calls of a job interleave, at most one is inside it, and the flag is set just while one is.
pub Reached-once :
    (s : Job) → Reached s → (s.inside ≤ 1) × (s.inside ≡ (if s.running then 1 else 0))
Reached-once s r = let g = reached-IsGuarded r in (ground (arith, g), g)
  where
    reached-IsGuarded : {s : Job} → Reached s → IsGuarded s
    reached-IsGuarded at_start = refl
    reached-IsGuarded (then_step r step) = Step-IsGuarded step (reached-IsGuarded r)
