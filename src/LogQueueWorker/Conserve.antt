-- ===== src/LogQueueWorker/Conserve.antt =====
-- No message is lost, made up or run twice, whatever the threads do, flushing ones included.
use mathlib.Core.List.{Perm, perm_middle}
use mathlib.Core.List.Perm
use vnelogging.Common.{◌≡◌, refl, sym, subst, Option, none, some, List, [], ◌∷◌, ◌++◌, append_assoc}
use vnelogging.LogQueue
use vnelogging.LogQueue.{LogQueue, pop-parts}
use vnelogging.LogQueueWorker.{
  Task, RunPc, draining, executing, StopPc, not_called, cleared, pushed, joined, FlushPc, idle,
  popping, holding, done, State, created, start, submit, taken, execute, run_at, run_turn, join_at,
  stop_at, stop_turn, popped, flush_at, flush_turn, Actor, submits, worker, stopper, flusher,
  or_wait, turn, run_schedule,
}
use vnelogging.LogQueueWorker.Order.{in_hand, held, held-test}
use vnelogging.LogQueueWorker.Shared.{IsShared, submits-IsShared, worker-IsShared, stopper-IsShared}

module _ {ℓ} {A : Type ℓ} where
  -- The worker and `stop` leave the flush where it is.
  flush_pc-taken :
      (s : State A) (o : Option (List (Task A) × LogQueue (Task A)))
      → (or_wait s (taken s o)).flush_pc ≡ s.flush_pc
  unfolding taken
  flush_pc-taken s none = refl
  flush_pc-taken s (some (batch, rest)) = refl

  flush_pc-run_at : (s : State A) (pc : RunPc A) → (or_wait s (run_at s pc)).flush_pc ≡ s.flush_pc
  unfolding run_at execute
  flush_pc-run_at s RunPc.testing = refl
  flush_pc-run_at s draining = flush_pc-taken s _
  flush_pc-run_at s (executing []) = refl
  flush_pc-run_at s (executing (task ∷ rest)) = refl
  flush_pc-run_at s RunPc.returned = refl

  flush_pc-join_at : (s : State A) (pc : RunPc A) → (or_wait s (join_at s pc)).flush_pc ≡ s.flush_pc
  unfolding join_at
  flush_pc-join_at s RunPc.testing = refl
  flush_pc-join_at s draining = refl
  flush_pc-join_at s (executing batch) = refl
  flush_pc-join_at s RunPc.returned = refl

  flush_pc-stop_at :
      (s : State A) (pc : StopPc A) → (or_wait s (stop_at s pc)).flush_pc ≡ s.flush_pc
  unfolding stop_at submit
  flush_pc-stop_at s not_called = refl
  flush_pc-stop_at s cleared = refl
  flush_pc-stop_at s pushed = flush_pc-join_at s s.run_pc
  flush_pc-stop_at s joined = refl

  abbrev split : State A → RunPc A → FlushPc A → List (Task A) → List (Task A)
  split s run_pc flush_pc items = s.executed ++ (in_hand run_pc ++ (held flush_pc ++ items))

  -- The tasks pushed are, in some order, those run and those pending.
  pub record IsConserved (s : State A) : Type ℓ where
    pub conserved : Perm s.submitted (split s s.run_pc s.flush_pc s.log_queue.items)

  -- The same with the state's parts replaced by equal ones.
  conserved_at :
      (s : State A) (flush_pc : FlushPc A) (items : List (Task A))
      → s.flush_pc ≡ flush_pc
      → s.log_queue.items ≡ items
      → IsConserved s
      → Perm s.submitted (split s s.run_pc flush_pc items)
  conserved_at s flush_pc items f g v = rw (← f, ← g) v.conserved

  -- A turn of another thread than the one that flushes.
  of_IsShared :
      (s t : State A) → t.flush_pc ≡ s.flush_pc → IsShared (held s.flush_pc) t → IsConserved t
  of_IsShared s t e v = record { conserved = rw e v.shared }

  to_IsShared : (s : State A) → IsConserved s → IsShared (held s.flush_pc) s
  to_IsShared s v = record { shared = v.conserved }

  popped-IsConserved :
      (s : State A) (o : Option (Task A × LogQueue (Task A)))
      → s.flush_pc ≡ popping
      → LogQueue.pop s.log_queue ≡ o
      → IsConserved s
      → IsConserved (or_wait s (popped s o))
  unfolding popped
  popped-IsConserved s none e p v = v
  popped-IsConserved s (some (task, left)) e p v = record {
    conserved = conserved_at s popping _ e (pop-parts s.log_queue left task p) v;
  }

  flush_at-IsConserved :
      (s : State A) (pc : FlushPc A)
      → s.flush_pc ≡ pc
      → IsConserved s
      → IsConserved (or_wait s (flush_at s pc))
  unfolding flush_at
  flush_at-IsConserved s idle e v = record { conserved = conserved_at s idle _ e refl v }
  flush_at-IsConserved s FlushPc.testing e v = record {
    conserved =
        rw (held-test (LogQueue.empty s.log_queue)) (conserved_at s FlushPc.testing _ e refl v);
  }
  flush_at-IsConserved s popping e v = popped-IsConserved s _ e refl v
  flush_at-IsConserved s (holding task) e v = record {
    conserved = Perm.trans (conserved_at s (holding task) _ e refl v) (
        subst (Perm _) (sym (append_assoc s.executed (task ∷ []) _))
          (Perm.append_left s.executed (perm_middle (in_hand s.run_pc) s.log_queue.items)));
  }
  flush_at-IsConserved s done e v = record { conserved = conserved_at s done _ e refl v }

  turn-IsConserved : (s : State A) (actor : Actor A) → IsConserved s → IsConserved (turn s actor)
  unfolding turn run_turn stop_turn flush_turn submit
  turn-IsConserved s (submits a) v =
      of_IsShared s _ refl (submits-IsShared (held s.flush_pc) a s (to_IsShared s v))
  turn-IsConserved s worker v =
      of_IsShared s _ (flush_pc-run_at s s.run_pc)
        (worker-IsShared (held s.flush_pc) s (to_IsShared s v))
  turn-IsConserved s stopper v =
      of_IsShared s _ (flush_pc-stop_at s s.stop_pc)
        (stopper-IsShared (held s.flush_pc) s (to_IsShared s v))
  turn-IsConserved s flusher v = flush_at-IsConserved s s.flush_pc refl v

  run_schedule-IsConserved :
      (s : State A) (schedule : List (Actor A))
      → IsConserved s
      → IsConserved (run_schedule s schedule)
  unfolding run_schedule
  run_schedule-IsConserved s [] v = v
  run_schedule-IsConserved s (actor ∷ rest) v =
      run_schedule-IsConserved (turn s actor) rest (turn-IsConserved s actor v)

  start-IsConserved : IsConserved (start (created {A = A}))
  unfolding start
  start-IsConserved = record { conserved = Perm.refl [] }

  -- Under every schedule of pushes, of the worker, of `stop` and of `flush`, the tasks pushed are, up
  -- to their order, those run, those that the worker has drained, the one that `flush` has popped,
  -- and those in the queue: each is in one place, once.
  pub run_schedule-perm :
      (schedule : List (Actor A))
      → let s = run_schedule (start created) schedule in
        Perm s.submitted
          (s.executed ++ (in_hand s.run_pc ++ (held s.flush_pc ++ s.log_queue.items)))
  run_schedule-perm schedule =
      (run_schedule-IsConserved (start created) schedule start-IsConserved).conserved
