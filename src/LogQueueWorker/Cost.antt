-- ===== src/LogQueueWorker/Cost.antt =====
-- log_queue_worker.cpp, the loop of `run`: turns of the worker for each task that it runs.
use vnelogging.Common.{ℕ, zero, suc, ◌+◌, ◌-◌, ◌*◌, ◌≤◌, ◌≡◌, refl, [], ◌∷◌, List, arith}
use vnelogging.LogQueueWorker.{Task, RunPc, draining, executing}

module _ {ℓ} {A : Type ℓ} where
  -- The worker's turns before it runs a task, if there is one.
  unfoldable pub phase : RunPc A → ℕ
  phase (executing []) = 3
  phase RunPc.testing = 2
  phase draining = 1
  phase (executing (task ∷ rest)) = 0
  phase RunPc.returned = 0

  -- Its turns, at most, before it has run so many more.
  unfoldable pub cost : ℕ → RunPc A → ℕ
  unfolding phase
  cost zero pc = 0
  cost (suc n) pc = 4 * suc n + phase pc

  pub cost_bound : (n : ℕ) (pc : RunPc A) → cost n pc ≤ 4 * n + 3
  unfolding cost phase
  cost_bound zero pc = omega arith
  cost_bound (suc n) (executing []) = omega arith
  cost_bound (suc n) RunPc.testing = omega arith
  cost_bound (suc n) draining = omega arith
  cost_bound (suc n) (executing (task ∷ rest)) = omega arith
  cost_bound (suc n) RunPc.returned = omega arith

  pub cost-zero : (n : ℕ) (pc : RunPc A) → cost n pc ≡ 0 → n ≡ 0
  unfolding cost
  cost-zero zero pc e = refl
  cost-zero (suc n) pc e = absurd (omega arith)

  pub cost-next :
      (n : ℕ) (pc pc' : RunPc A) → suc (phase pc') ≤ phase pc → cost n pc' ≤ cost n pc - 1
  unfolding cost
  cost-next zero pc pc' h = omega arith
  cost-next (suc n) pc pc' h = omega arith

  pub cost-executed :
      (n m : ℕ) (task : Task A) (rest : List (Task A))
      → m ≡ n - 1
      → cost m (executing rest) ≤ cost n (executing (task ∷ rest)) - 1
  unfolding cost phase
  cost-executed zero zero task rest e = omega arith
  cost-executed zero (suc m) task rest e = absurd (omega arith)
  cost-executed (suc n) m task rest e = omega (arith, cost_bound m (executing rest))
