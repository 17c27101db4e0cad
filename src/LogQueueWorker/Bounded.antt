-- ===== src/LogQueueWorker/Bounded.antt =====
-- What a thread of the worker holds at a time.
use vnelogging.Common.{◌≤◌, ◌≡◌, refl, Option, none, some, List, [], ◌∷◌, arith, length}
use vnelogging.LogQueue
use vnelogging.LogQueue.{LogQueue, drain-parts}
use vnelogging.LogQueueWorker.{
  Task, RunPc, draining, executing, StopPc, not_called, cleared, pushed, joined, FlushPc, idle,
  popping, holding, done, State, created, start, submit, taken, execute, run_at, run_turn, join_at,
  stop_at, stop_turn, popped, flush_at, flush_turn, Actor, submits, worker, stopper, flusher,
  or_wait, turn, run_schedule, batch_size,
}
use vnelogging.LogQueueWorker.Order.{in_hand}

module _ {ℓ} {A : Type ℓ} where
  abbrev IsBounded : State A → Type 0
  IsBounded s = length (in_hand s.run_pc) ≤ batch_size

  taken-IsBounded :
      (s : State A) (o : Option (List (Task A) × LogQueue (Task A)))
      → LogQueue.drain batch_size s.log_queue ≡ o
      → IsBounded s
      → IsBounded (or_wait s (taken s o))
  unfolding taken
  taken-IsBounded s none d v = v
  taken-IsBounded s (some (batch, left)) d v = (drain-parts batch_size s.log_queue left batch d).1

  run_at-IsBounded :
      (s : State A) (pc : RunPc A)
      → s.run_pc ≡ pc
      → IsBounded s
      → IsBounded (or_wait s (run_at s pc))
  unfolding run_at execute
  run_at-IsBounded s RunPc.testing e v = ground arith
  run_at-IsBounded s draining e v = taken-IsBounded s _ refl v
  run_at-IsBounded s (executing []) e v = omega arith
  run_at-IsBounded s (executing (task ∷ rest)) e v = ground arith
  run_at-IsBounded s RunPc.returned e v = v

  join_at-IsBounded :
      (s : State A) (pc : RunPc A) → IsBounded s → IsBounded (or_wait s (join_at s pc))
  unfolding join_at
  join_at-IsBounded s RunPc.testing v = v
  join_at-IsBounded s draining v = v
  join_at-IsBounded s (executing batch) v = v
  join_at-IsBounded s RunPc.returned v = v

  stop_at-IsBounded :
      (s : State A) (pc : StopPc A) → IsBounded s → IsBounded (or_wait s (stop_at s pc))
  unfolding stop_at submit
  stop_at-IsBounded s not_called v = v
  stop_at-IsBounded s cleared v = v
  stop_at-IsBounded s pushed v = join_at-IsBounded s s.run_pc v
  stop_at-IsBounded s joined v = v

  popped-IsBounded :
      (s : State A) (o : Option (Task A × LogQueue (Task A)))
      → IsBounded s
      → IsBounded (or_wait s (popped s o))
  unfolding popped
  popped-IsBounded s none v = v
  popped-IsBounded s (some (task, left)) v = v

  flush_at-IsBounded :
      (s : State A) (pc : FlushPc A) → IsBounded s → IsBounded (or_wait s (flush_at s pc))
  unfolding flush_at
  flush_at-IsBounded s idle v = v
  flush_at-IsBounded s FlushPc.testing v = v
  flush_at-IsBounded s popping v = popped-IsBounded s _ v
  flush_at-IsBounded s (holding task) v = v
  flush_at-IsBounded s done v = v

  turn-IsBounded : (s : State A) (actor : Actor A) → IsBounded s → IsBounded (turn s actor)
  unfolding turn submit run_turn stop_turn flush_turn
  turn-IsBounded s (submits a) v = v
  turn-IsBounded s worker v = run_at-IsBounded s s.run_pc refl v
  turn-IsBounded s stopper v = stop_at-IsBounded s s.stop_pc v
  turn-IsBounded s flusher v = flush_at-IsBounded s s.flush_pc v

  run_schedule-IsBounded :
      (s : State A) (schedule : List (Actor A)) → IsBounded s → IsBounded (run_schedule s schedule)
  unfolding run_schedule
  run_schedule-IsBounded s [] v = v
  run_schedule-IsBounded s (actor ∷ rest) v =
      run_schedule-IsBounded (turn s actor) rest (turn-IsBounded s actor v)

  -- Under every schedule, with any number of messages, with flush and stop, the worker holds at most
  -- 32 tasks that it has drained and not run.
  pub run_schedule-bounded :
      (schedule : List (Actor A))
      → length (in_hand (run_schedule (start created) schedule).run_pc) ≤ batch_size
  unfolding start
  run_schedule-bounded schedule = run_schedule-IsBounded (start created) schedule (omega arith)
