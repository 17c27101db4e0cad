-- ===== src/LogQueueWorker/Joined.antt =====
-- log_queue_worker.cpp: once `stop` has joined, `run` has returned.
use vnelogging.Common.{◌≡◌, refl, Option, none, some, List, [], ◌∷◌}
use vnelogging.LogQueue
use vnelogging.LogQueue.{LogQueue, drain-parts, pop-parts, items-push}
use vnelogging.LogQueueWorker.{
  Task, RunPc, draining, executing, StopPc, not_called, cleared, pushed, joined, FlushPc, idle,
  popping, holding, done, State, created, start, submit, taken, execute, run_at, run_turn, join_at,
  stop_at, stop_turn, popped, flush_at, flush_turn, Actor, submits, worker, stopper, flusher,
  or_wait, turn, run_schedule, batch_size,
}

module _ {ℓ} {A : Type ℓ} where
  pub record IsJoined (s : State A) : Type ℓ where
    pub returns : s.stop_pc ≡ joined → s.run_pc ≡ RunPc.returned

  taken-IsJoined :
      (s : State A) (o : Option (List (Task A) × LogQueue (Task A)))
      → s.run_pc ≡ draining
      → IsJoined s
      → IsJoined (or_wait s (taken s o))
  unfolding taken
  taken-IsJoined s none e v = v
  taken-IsJoined s (some (batch, left)) e v = record { returns = λ j. cc (v.returns j, e) }

  run_at-IsJoined :
      (s : State A) (pc : RunPc A) → s.run_pc ≡ pc → IsJoined s → IsJoined (or_wait s (run_at s pc))
  unfolding run_at execute
  run_at-IsJoined s RunPc.testing e v = record { returns = λ j. cc (v.returns j, e) }
  run_at-IsJoined s draining e v = taken-IsJoined s (LogQueue.drain batch_size s.log_queue) e v
  run_at-IsJoined s (executing []) e v = record { returns = λ j. cc (v.returns j, e) }
  run_at-IsJoined s (executing (task ∷ rest)) e v = record { returns = λ j. cc (v.returns j, e) }
  run_at-IsJoined s RunPc.returned e v = v

  join_at-IsJoined :
      (s : State A) (pc : RunPc A)
      → s.run_pc ≡ pc
      → IsJoined s
      → IsJoined (or_wait s (join_at s pc))
  unfolding join_at
  join_at-IsJoined s RunPc.testing e v = v
  join_at-IsJoined s draining e v = v
  join_at-IsJoined s (executing batch) e v = v
  join_at-IsJoined s RunPc.returned e v = record { returns = λ j. e }

  stop_at-IsJoined :
      (s : State A) (pc : StopPc A) → IsJoined s → IsJoined (or_wait s (stop_at s pc))
  unfolding stop_at submit
  stop_at-IsJoined s not_called v = record { returns = λ j. cc }
  stop_at-IsJoined s cleared v = record { returns = λ j. cc }
  stop_at-IsJoined s pushed v = join_at-IsJoined s s.run_pc refl v
  stop_at-IsJoined s joined v = v

  popped-IsJoined :
      (s : State A) (o : Option (Task A × LogQueue (Task A)))
      → IsJoined s
      → IsJoined (or_wait s (popped s o))
  unfolding popped
  popped-IsJoined s none v = v
  popped-IsJoined s (some (task, left)) v = record { returns = v.returns }

  flush_at-IsJoined :
      (s : State A) (pc : FlushPc A) → IsJoined s → IsJoined (or_wait s (flush_at s pc))
  unfolding flush_at
  flush_at-IsJoined s idle v = record { returns = v.returns }
  flush_at-IsJoined s FlushPc.testing v = record { returns = v.returns }
  flush_at-IsJoined s popping v = popped-IsJoined s (LogQueue.pop s.log_queue) v
  flush_at-IsJoined s (holding task) v = record { returns = v.returns }
  flush_at-IsJoined s done v = record { returns = v.returns }

  turn-IsJoined : (s : State A) (actor : Actor A) → IsJoined s → IsJoined (turn s actor)
  unfolding turn run_turn stop_turn flush_turn submit
  turn-IsJoined s (submits a) v = record { returns = v.returns }
  turn-IsJoined s worker v = run_at-IsJoined s s.run_pc refl v
  turn-IsJoined s stopper v = stop_at-IsJoined s s.stop_pc v
  turn-IsJoined s flusher v = flush_at-IsJoined s s.flush_pc v

  pub run_schedule-IsJoined :
      (s : State A) (schedule : List (Actor A)) → IsJoined s → IsJoined (run_schedule s schedule)
  unfolding run_schedule
  run_schedule-IsJoined s [] v = v
  run_schedule-IsJoined s (actor ∷ rest) v =
      run_schedule-IsJoined (turn s actor) rest (turn-IsJoined s actor v)

  pub start-IsJoined : IsJoined (start (created {A = A}))
  unfolding start
  start-IsJoined = record { returns = λ j. cc }
