-- ===== src/LogQueueWorker/Order.antt =====
-- No message is lost, made up or run twice while the threads work; without `flush` the worker runs
-- them in the order in which they were pushed.
use vnelogging.Common.{
  Bool, true, false, ◌≡◌, refl, ◌∙◌, Option, none, some, List, [], ◌∷◌, ◌++◌, append_assoc, All,
  if◌then◌else◌,
}
use vnelogging.LogQueue
use vnelogging.LogQueue.{LogQueue, drain-parts, pop-parts, items-push}
use vnelogging.LogQueueWorker.{
  Task, message, dummy, RunPc, draining, executing, StopPc, not_called, cleared, pushed, joined,
  FlushPc, popping, holding, done, State, created, start, submit, taken, execute, run_at, run_turn,
  join_at, stop_at, stop_turn, Actor, submits, worker, stopper, flusher, or_wait, turn,
  run_schedule, batch_size,
}

module _ {ℓ} {A : Type ℓ} where
  -- The tasks that the worker has drained and not yet run.
  abbrev pub in_hand : RunPc A → List (Task A)
  in_hand (executing batch) = batch
  in_hand _ = []

  -- The task that `flush` has popped and not yet run.
  abbrev pub held : FlushPc A → List (Task A)
  held (holding task) = task ∷ []
  held _ = []

  pub held-test : (b : Bool) → held (if b then done else popping) ≡ []
  held-test true = refl
  held-test false = refl

  abbrev pub pending : State A → List (Task A)
  pending s = in_hand s.run_pc ++ (held s.flush_pc ++ s.log_queue.items)

  -- No flush is under way, and the tasks pushed are those run and those pending, in order.
  pub record IsFifo (s : State A) : Type ℓ where
    pub quiet : held s.flush_pc ≡ []
    pub fifo : s.submitted ≡ s.executed ++ pending s

  abbrev pub NotFlusher : Actor A → Type 0
  NotFlusher (submits a) = Unit
  NotFlusher worker = Unit
  NotFlusher stopper = Unit
  NotFlusher flusher = ⊥

  pub fifo_at :
      (s : State A) (pc : RunPc A)
      → s.run_pc ≡ pc
      → IsFifo s
      → s.submitted ≡ s.executed ++ (in_hand pc ++ s.log_queue.items)
  fifo_at s pc e v = v.fifo ∙ rw (e, v.quiet) refl

  IsFifo-intro :
      (s : State A)
      → held s.flush_pc ≡ []
      → s.submitted ≡ s.executed ++ (in_hand s.run_pc ++ s.log_queue.items)
      → IsFifo s
  IsFifo-intro s quiet e = record { quiet = quiet; fifo = e ∙ rw quiet refl }

  submit-IsFifo : (task : Task A) (s : State A) → IsFifo s → IsFifo (submit task s)
  unfolding submit
  submit-IsFifo task s v =
      IsFifo-intro (submit task s) v.quiet
        (rw (fifo_at s s.run_pc refl v, items-push task s.log_queue) (simp append_assoc))

  pub in_hand-test : (b : Bool) → in_hand (if b then draining else RunPc.returned) ≡ []
  in_hand-test true = refl
  in_hand-test false = refl

  taken-IsFifo :
      (s : State A) (o : Option (List (Task A) × LogQueue (Task A)))
      → s.run_pc ≡ draining
      → LogQueue.drain batch_size s.log_queue ≡ o
      → IsFifo s
      → IsFifo (or_wait s (taken s o))
  unfolding taken
  taken-IsFifo s none e d v = v
  taken-IsFifo s (some (batch, left)) e d v =
      let parts = drain-parts batch_size s.log_queue left batch d in
      IsFifo-intro _ v.quiet (fifo_at s draining e v ∙ rw (parts.0) refl)

  run_at-IsFifo :
      (s : State A) (pc : RunPc A) → s.run_pc ≡ pc → IsFifo s → IsFifo (or_wait s (run_at s pc))
  unfolding run_at execute
  run_at-IsFifo s RunPc.testing e v =
      IsFifo-intro _ v.quiet (fifo_at s RunPc.testing e v ∙ rw (in_hand-test s.running) refl)
  run_at-IsFifo s draining e v = taken-IsFifo s _ e refl v
  run_at-IsFifo s (executing []) e v = IsFifo-intro _ v.quiet (fifo_at s (executing []) e v)
  run_at-IsFifo s (executing (task ∷ rest)) e v =
      IsFifo-intro _ v.quiet (fifo_at s (executing (task ∷ rest)) e v ∙ simp append_assoc)
  run_at-IsFifo s RunPc.returned e v = v

  join_at-IsFifo : (s : State A) (pc : RunPc A) → IsFifo s → IsFifo (or_wait s (join_at s pc))
  unfolding join_at
  join_at-IsFifo s RunPc.returned v = IsFifo-intro _ v.quiet (fifo_at s s.run_pc refl v)
  join_at-IsFifo s _ v = v

  stop_at-IsFifo : (s : State A) (pc : StopPc A) → IsFifo s → IsFifo (or_wait s (stop_at s pc))
  unfolding stop_at
  stop_at-IsFifo s not_called v = IsFifo-intro _ v.quiet (fifo_at s s.run_pc refl v)
  stop_at-IsFifo s cleared v =
      let w = submit-IsFifo dummy s v in IsFifo-intro _ w.quiet (fifo_at (submit dummy s) _ refl w)
  stop_at-IsFifo s pushed v = join_at-IsFifo s s.run_pc v
  stop_at-IsFifo s joined v = v

  pub turn-IsFifo :
      (s : State A) (actor : Actor A) → NotFlusher actor → IsFifo s → IsFifo (turn s actor)
  unfolding turn run_turn stop_turn
  turn-IsFifo s (submits a) n v = submit-IsFifo (message a) s v
  turn-IsFifo s worker n v = run_at-IsFifo s s.run_pc refl v
  turn-IsFifo s stopper n v = stop_at-IsFifo s s.stop_pc v
  turn-IsFifo s flusher n v = absurd n

  pub run_schedule-IsFifo :
      (s : State A) (schedule : List (Actor A))
      → All NotFlusher schedule
      → IsFifo s
      → IsFifo (run_schedule s schedule)
  unfolding run_schedule
  run_schedule-IsFifo s [] n v = v
  run_schedule-IsFifo s (actor ∷ rest) n v =
      run_schedule-IsFifo (turn s actor) rest n.1 (turn-IsFifo s actor n.0 v)

  pub start-IsFifo : IsFifo (start (created {A = A}))
  unfolding start
  start-IsFifo = record { quiet = refl; fifo = refl }

  -- Without `flush` the order is kept: under every schedule of pushes, of the worker and of `stop`,
  -- the tasks pushed are, in order, those that the worker has run, then those that it has drained,
  -- then those in the queue.
  pub run_schedule-fifo :
      (schedule : List (Actor A))
      → All NotFlusher schedule
      → let s = run_schedule (start created) schedule in
        s.submitted ≡ s.executed ++ (in_hand s.run_pc ++ s.log_queue.items)
  run_schedule-fifo schedule n =
      fifo_at (run_schedule (start created) schedule) _ refl
        (run_schedule-IsFifo (start created) schedule n start-IsFifo)
