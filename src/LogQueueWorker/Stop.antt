-- ===== src/LogQueueWorker/Stop.antt =====
-- `stop`, once it has pushed the dummy: every turn of the worker brings it nearer to its return.
use vnelogging.Common.{
  ℕ, ◌+◌, ◌-◌, ◌≤◌, false, ◌≡◌, refl, ◌≢◌, Option, none, some, List, [], ◌∷◌, ◌++◌, arith, All,
  length,
}
use vnelogging.LogQueue
use vnelogging.LogQueue.{LogQueue, drain-parts, items-push, drain-take}
use vnelogging.LogQueueWorker.{
  Task, message, RunPc, draining, executing, StopPc, not_called, cleared, pushed, joined, State,
  submit, taken, execute, run_at, run_turn, join_at, stop_at, stop_turn, Actor, submits, worker,
  stopper, flusher, or_wait, turn, run_schedule, batch_size,
}
use vnelogging.LogQueueWorker.Order.{NotFlusher}

module _ {ℓ} {A : Type ℓ} where
  -- The worker's turns until it has returned, once the flag is down.
  abbrev pub remaining : RunPc A → ℕ
  remaining RunPc.testing = 1
  remaining draining = 35
  remaining (executing batch) = length batch + 2
  remaining RunPc.returned = 0

  -- The dummy is on its way: a worker that drains after it was pushed finds a task.
  pub record IsStopping (s : State A) : Type ℓ where
    pub flag_down : s.running ≡ false
    pub not_stuck : s.run_pc ≡ draining → s.log_queue.items ≢ []

  pub append-ne-nil : (xs : List (Task A)) (task : Task A) → xs ++ task ∷ [] ≢ []
  append-ne-nil [] task e = cc
  append-ne-nil (x ∷ xs) task e = cc

  submit-IsStopping : (task : Task A) (s : State A) → IsStopping s → IsStopping (submit task s)
  unfolding submit
  submit-IsStopping task s v = record {
    flag_down = v.flag_down;
    not_stuck = λ _. rw (items-push task s.log_queue) (append-ne-nil s.log_queue.items task);
  }

  -- A turn of the worker brings it nearer to its return.
  abbrev Nearer : State A → State A → Type ℓ
  Nearer s t = IsStopping t × (remaining t.run_pc ≤ remaining s.run_pc - 1)

  taken-Nearer :
      (s : State A) (o : Option (List (Task A) × LogQueue (Task A)))
      → s.run_pc ≡ draining
      → LogQueue.drain batch_size s.log_queue ≡ o
      → IsStopping s
      → Nearer s (or_wait s (taken s o))
  unfolding taken
  taken-Nearer s none e d v =
      absurd (v.not_stuck e (ground (arith, drain-take batch_size s.log_queue)))
  taken-Nearer s (some (batch, left)) e d v =
      let parts = drain-parts batch_size s.log_queue left batch d in
      (record { flag_down = v.flag_down; not_stuck = λ y. cc }, rw e (omega (arith, parts.1)))

  run_at-Nearer :
      (s : State A) (pc : RunPc A)
      → s.run_pc ≡ pc
      → IsStopping s
      → Nearer s (or_wait s (run_at s pc))
  unfolding run_at execute
  run_at-Nearer s RunPc.testing e v =
      rw (v.flag_down, e) (record { flag_down = refl; not_stuck = λ y. cc }, omega arith)
  run_at-Nearer s draining e v = taken-Nearer s _ e refl v
  run_at-Nearer s (executing []) e v =
      (record { flag_down = v.flag_down; not_stuck = λ y. cc }, rw e (omega arith))
  run_at-Nearer s (executing (task ∷ rest)) e v =
      (record { flag_down = v.flag_down; not_stuck = λ y. cc }, rw e (omega arith))
  run_at-Nearer s RunPc.returned e v = (v, rw e (omega arith))

  -- The dummy has been pushed.
  abbrev pub Woken : StopPc A → Type 0
  Woken pushed = Unit
  Woken joined = Unit
  Woken _ = ⊥

  -- `stop` has pushed the dummy, and what that guarantees.
  pub record IsWoken (s : State A) : Type ℓ where
    pub stopping : IsStopping s
    pub woken : Woken s.stop_pc

  join_at-IsWoken :
      (s : State A) (pc : RunPc A)
      → IsWoken s
      → IsWoken (or_wait s (join_at s pc)) × ((or_wait s (join_at s pc)).run_pc ≡ s.run_pc)
  unfolding join_at
  join_at-IsWoken s RunPc.returned v = (
    record {
      stopping = record { flag_down = v.stopping.flag_down; not_stuck = v.stopping.not_stuck };
      woken = tt;
    },
    refl,
  )
  join_at-IsWoken s _ v = (v, refl)

  stop_at-IsWoken :
      (s : State A) (pc : StopPc A)
      → s.stop_pc ≡ pc
      → IsWoken s
      → IsWoken (or_wait s (stop_at s pc)) × ((or_wait s (stop_at s pc)).run_pc ≡ s.run_pc)
  unfolding stop_at
  stop_at-IsWoken s not_called e v = absurd (rw e at v.woken)
  stop_at-IsWoken s cleared e v = absurd (rw e at v.woken)
  stop_at-IsWoken s pushed e v = join_at-IsWoken s s.run_pc v
  stop_at-IsWoken s joined e v = (v, refl)

  -- The turns of the worker in a schedule.
  unfoldable pub worker_turns : List (Actor A) → ℕ
  worker_turns [] = 0
  worker_turns (submits a ∷ rest) = worker_turns rest
  worker_turns (worker ∷ rest) = worker_turns rest + 1
  worker_turns (stopper ∷ rest) = worker_turns rest
  worker_turns (flusher ∷ rest) = worker_turns rest

  submit-run_pc : (task : Task A) (s : State A) → (submit task s).run_pc ≡ s.run_pc
  unfolding submit
  submit-run_pc task s = refl

  submit-stop_pc : (task : Task A) (s : State A) → (submit task s).stop_pc ≡ s.stop_pc
  unfolding submit
  submit-stop_pc task s = refl

  run_at-stop_pc : (s : State A) (pc : RunPc A) → (or_wait s (run_at s pc)).stop_pc ≡ s.stop_pc
  unfolding run_at taken execute
  run_at-stop_pc s RunPc.testing = refl
  run_at-stop_pc s draining = kept (LogQueue.drain batch_size s.log_queue)
    where
      kept :
          (o : Option (List (Task A) × LogQueue (Task A)))
          → (or_wait s (taken s o)).stop_pc ≡ s.stop_pc
      kept none = refl
      kept (some (batch, left)) = refl
  run_at-stop_pc s (executing []) = refl
  run_at-stop_pc s (executing (task ∷ rest)) = refl
  run_at-stop_pc s RunPc.returned = refl

  -- One turn of any thread but a flushing one.
  turn-IsWoken :
      (s : State A) (actor : Actor A)
      → NotFlusher actor
      → IsWoken s
      → IsWoken (turn s actor)
        × (remaining (turn s actor).run_pc ≤ remaining s.run_pc - worker_turns (actor ∷ []))
  unfolding turn run_turn stop_turn worker_turns
  turn-IsWoken s (submits a) n v = (
    record {
      stopping = submit-IsStopping (message a) s v.stopping;
      woken = rw (submit-stop_pc (message a) s) v.woken;
    },
    rw (submit-run_pc (message a) s) (omega arith),
  )
  turn-IsWoken s worker n v =
      let (stopping, nearer) = run_at-Nearer s s.run_pc refl v.stopping in
      (
        record { stopping = stopping; woken = rw (run_at-stop_pc s s.run_pc) v.woken },
        omega (arith, nearer),
      )
  turn-IsWoken s stopper n v =
      let (woken, same) = stop_at-IsWoken s s.stop_pc refl v in (woken, rw same (omega arith))
  turn-IsWoken s flusher n v = absurd n

  pub run_schedule-IsWoken :
      (s : State A) (schedule : List (Actor A))
      → All NotFlusher schedule
      → IsWoken s
      → IsWoken (run_schedule s schedule)
        × (remaining (run_schedule s schedule).run_pc ≤ remaining s.run_pc - worker_turns schedule)
  unfolding run_schedule worker_turns
  run_schedule-IsWoken s [] n v = (v, omega arith)
  run_schedule-IsWoken s (actor ∷ rest) n v =
      let (w, near) = turn-IsWoken s actor n.0 v in
      let (w', near') = run_schedule-IsWoken (turn s actor) rest n.1 w in
      (w', omega (arith, near, near', worker_turns-cons actor rest))
    where
      worker_turns-cons :
          (actor : Actor A) (rest : List (Actor A))
          → worker_turns (actor ∷ rest) ≡ worker_turns (actor ∷ []) + worker_turns rest
      worker_turns-cons (submits a) rest = omega arith
      worker_turns-cons worker rest = omega arith
      worker_turns-cons stopper rest = omega arith
      worker_turns-cons flusher rest = omega arith

  pub remaining-zero : (pc : RunPc A) → remaining pc ≤ 0 → pc ≡ RunPc.returned
  remaining-zero RunPc.testing h = absurd (omega arith)
  remaining-zero draining h = absurd (omega arith)
  remaining-zero (executing batch) h = absurd (omega arith)
  remaining-zero RunPc.returned h = refl
