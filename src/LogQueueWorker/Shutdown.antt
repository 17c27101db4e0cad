-- ===== src/LogQueueWorker/Shutdown.antt =====
-- log_queue_worker.cpp, `flush` and then `stop`, as `finalize` and the destructors call them.
use mathlib.Core.List.{Perm}
use vnelogging.Common.{
  arith, Bool, true, false, ◌≡◌, refl, sym, ap, ◌∙◌, subst, List, [], ◌∷◌, ◌++◌, append-nil, All,
  if◌then◌else◌,
}
use vnelogging.LogQueue
use vnelogging.LogQueue.{LogQueue, drain-parts, pop-parts, items-push}
use vnelogging.LogQueueWorker.{
  Task, joined, FlushPc, popping, done, State, created, start, flush_at, flush_turn, Actor, flusher,
  or_wait, turn, run_schedule,
}
use vnelogging.LogQueueWorker.Order.{in_hand, held}
use vnelogging.LogQueueWorker.Conserve.{run_schedule-perm}
use vnelogging.LogQueueWorker.Messages.{messages, messages-append, messages-perm}
use vnelogging.LogQueueWorker.Effects.{run_schedule-append}
use vnelogging.LogQueueWorker.Drained.{
  NotSubmits, IsDrained, messages-middle, run_schedule-IsDrained,
}
use vnelogging.LogQueueWorker.Joined.{run_schedule-IsJoined, start-IsJoined}

module _ {ℓ} {A : Type ℓ} where
  nothing_there : (q : LogQueue (Task A)) → LogQueue.empty q ≡ true → q.items ≡ []
  unfolding LogQueue.empty
  nothing_there q e = ground arith

  abbrev after_test : Bool → FlushPc A
  after_test b = if b then done else popping

  tested-IsDrained :
      (s : State A) (b : Bool)
      → LogQueue.empty s.log_queue ≡ b
      → after_test b ≡ done
      → IsDrained (record s { flush_pc = after_test b })
  unfolding messages
  tested-IsDrained s true e returns = record { drained = rw (nothing_there s.log_queue e) refl }
  tested-IsDrained s false e returns = cc

  -- A flush that returns has found the queue empty.
  returned-IsDrained :
      (s : State A)
      → s.flush_pc ≡ FlushPc.testing
      → (turn s flusher).flush_pc ≡ done
      → IsDrained (turn s flusher)
  unfolding turn flush_turn flush_at
  returned-IsDrained s testing returns =
      let tested = ap (λ pc. or_wait s (flush_at s pc)) testing in
      subst IsDrained (sym tested) (
        tested-IsDrained s (LogQueue.empty s.log_queue) refl
          (sym (ap (λ (t : State A). t.flush_pc) tested) ∙ returns))

  all_run :
      (executed xs ys : List (Task A))
      → xs ≡ []
      → messages ys ≡ []
      → messages (executed ++ (xs ++ ys)) ≡ messages executed
  all_run executed xs ys none_held none_there =
      rw none_held (messages-append executed ys ∙ rw none_there (append-nil (messages executed)))

  -- A shutdown loses nothing: after any schedule of pushes, of the worker, of `stop` and of `flush`,
  -- let a flush return, as `finalize` has it, and let no message be pushed from then on. Then, under
  -- every schedule of the other threads, once `stop` has joined, as the destructors have it, the
  -- messages run are, up to their order, all the messages ever pushed, each once, and the queue holds
  -- none.
  pub flush_then_stop :
      (before later : List (Actor A))
      → let q = run_schedule (start created) before in
        q.flush_pc ≡ FlushPc.testing
        → (turn q flusher).flush_pc ≡ done
        → All NotSubmits later
        → let s = run_schedule (start created) (before ++ flusher ∷ later) in
          s.stop_pc ≡ joined
          → Perm (messages s.submitted) (messages s.executed) × (messages s.log_queue.items ≡ [])
  unfolding run_schedule turn
  flush_then_stop before later testing returns quiet stopped =
      let q = run_schedule (start created) before in
      let s = run_schedule (start created) (before ++ flusher ∷ later) in
      let ended =
        (run_schedule-IsJoined (start created) (before ++ flusher ∷ later) start-IsJoined).returns
          stopped in
      let empty =
        subst IsDrained (sym (run_schedule-append (start created) before (flusher ∷ later))) (
          run_schedule-IsDrained (turn q flusher) later quiet
            (returned-IsDrained q testing returns)) in
      (
        subst (Perm (messages s.submitted))
            (all_run s.executed (in_hand s.run_pc) (held s.flush_pc ++ s.log_queue.items)
              (ap in_hand ended) empty.drained)
            (messages-perm (run_schedule-perm (before ++ flusher ∷ later))),
        messages-middle [] (held s.flush_pc) s.log_queue.items empty.drained,
      )
