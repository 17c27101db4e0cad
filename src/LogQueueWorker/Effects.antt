-- ===== src/LogQueueWorker/Effects.antt =====
-- What each turn runs, when no thread flushes.
use vnelogging.Common.{
  ◌≡◌, ◌⊎◌, inl, inr, refl, sym, Option, none, some, List, [], ◌∷◌, ◌++◌, append-nil,
}
use vnelogging.LogQueue
use vnelogging.LogQueue.{LogQueue}
use vnelogging.LogQueueWorker.{
  Task, message, dummy, RunPc, draining, executing, StopPc, not_called, cleared, pushed, joined,
  State, submit, taken, run_at, run_turn, execute, join_at, stop_at, stop_turn, submits, worker,
  stopper, Actor, or_wait, turn, run_schedule, batch_size,
}

module _ {ℓ} {A : Type ℓ} where
  -- The task that the worker's next turn runs, if it runs one.
  abbrev pub due : RunPc A → List (Task A)
  due (executing (task ∷ rest)) = task ∷ []
  due _ = []

  executed-taken :
      (s : State A) (o : Option (List (Task A) × LogQueue (Task A)))
      → (or_wait s (taken s o)).executed ≡ s.executed ++ []
  unfolding taken
  executed-taken s none = sym (append-nil s.executed)
  executed-taken s (some (batch, rest)) = sym (append-nil s.executed)

  executed-run_at :
      (s : State A) (pc : RunPc A) → (or_wait s (run_at s pc)).executed ≡ s.executed ++ due pc
  unfolding run_at execute
  executed-run_at s RunPc.testing = sym (append-nil s.executed)
  executed-run_at s draining = executed-taken s (LogQueue.drain batch_size s.log_queue)
  executed-run_at s (executing []) = sym (append-nil s.executed)
  executed-run_at s (executing (task ∷ rest)) = refl
  executed-run_at s RunPc.returned = sym (append-nil s.executed)

  -- A turn of the worker runs what is due.
  pub executed-worker : (s : State A) → (turn s worker).executed ≡ s.executed ++ due s.run_pc
  unfolding turn run_turn
  executed-worker s = executed-run_at s s.run_pc

  executed-join_at : (s : State A) (pc : RunPc A) → (or_wait s (join_at s pc)).executed ≡ s.executed
  unfolding join_at
  executed-join_at s RunPc.returned = refl
  executed-join_at s _ = refl

  executed-stop_at :
      (s : State A) (pc : StopPc A) → (or_wait s (stop_at s pc)).executed ≡ s.executed
  unfolding stop_at submit
  executed-stop_at s not_called = refl
  executed-stop_at s cleared = refl
  executed-stop_at s pushed = executed-join_at s s.run_pc
  executed-stop_at s joined = refl

  -- The others run nothing.
  pub executed-stopper : (s : State A) → (turn s stopper).executed ≡ s.executed
  unfolding turn stop_turn
  executed-stopper s = executed-stop_at s s.stop_pc

  pub executed-submits : (s : State A) (a : A) → (turn s (submits a)).executed ≡ s.executed
  unfolding turn submit
  executed-submits s a = refl

  pub run_schedule-append :
      (s : State A) (xs ys : List (Actor A))
      → run_schedule s (xs ++ ys) ≡ run_schedule (run_schedule s xs) ys
  unfolding run_schedule
  run_schedule-append s [] ys = refl
  run_schedule-append s (x ∷ xs) ys = run_schedule-append (turn s x) xs ys

  -- What `stop` pushes is the dummy.
  submitted-join_at :
      (s : State A) (pc : RunPc A) → (or_wait s (join_at s pc)).submitted ≡ s.submitted
  unfolding join_at
  submitted-join_at s RunPc.returned = refl
  submitted-join_at s _ = refl

  submitted-stop_at :
      (s : State A) (pc : StopPc A)
      → ((or_wait s (stop_at s pc)).submitted ≡ s.submitted)
        ⊎ ((or_wait s (stop_at s pc)).submitted ≡ s.submitted ++ dummy ∷ [])
  unfolding stop_at submit
  submitted-stop_at s not_called = inl refl
  submitted-stop_at s cleared = inr refl
  submitted-stop_at s pushed = inl (submitted-join_at s s.run_pc)
  submitted-stop_at s joined = inl refl

  pub submitted-stopper :
      (s : State A)
      → ((turn s stopper).submitted ≡ s.submitted)
        ⊎ ((turn s stopper).submitted ≡ s.submitted ++ dummy ∷ [])
  unfolding turn stop_turn
  submitted-stopper s = submitted-stop_at s s.stop_pc

  submitted-taken :
      (s : State A) (o : Option (List (Task A) × LogQueue (Task A)))
      → (or_wait s (taken s o)).submitted ≡ s.submitted
  unfolding taken
  submitted-taken s none = refl
  submitted-taken s (some (batch, rest)) = refl

  submitted-run_at :
      (s : State A) (pc : RunPc A) → (or_wait s (run_at s pc)).submitted ≡ s.submitted
  unfolding run_at execute
  submitted-run_at s draining = submitted-taken s (LogQueue.drain batch_size s.log_queue)
  submitted-run_at s (executing []) = refl
  submitted-run_at s (executing (task ∷ rest)) = refl
  submitted-run_at s RunPc.testing = refl
  submitted-run_at s RunPc.returned = refl

  pub submitted-worker : (s : State A) → (turn s worker).submitted ≡ s.submitted
  unfolding turn run_turn
  submitted-worker s = submitted-run_at s s.run_pc

  pub submitted-submits :
      (s : State A) (a : A) → (turn s (submits a)).submitted ≡ s.submitted ++ message a ∷ []
  unfolding turn submit
  submitted-submits s a = refl
