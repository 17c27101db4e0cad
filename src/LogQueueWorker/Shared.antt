-- ===== src/LogQueueWorker/Shared.antt =====
-- Which tasks a push, the worker and `stop` move, whatever tasks other threads hold.
use mathlib.Core.List.{Perm, perm_append_comm, perm_middle}
use mathlib.Core.List.Perm
use vnelogging.Common.{◌≡◌, refl, sym, subst, Option, none, some, List, [], ◌∷◌, ◌++◌, append_assoc}
use vnelogging.LogQueue
use vnelogging.LogQueue.{LogQueue, drain-parts, items-push}
use vnelogging.LogQueueWorker.{
  Task, message, dummy, RunPc, draining, executing, StopPc, not_called, cleared, pushed, joined,
  State, submit, taken, execute, run_at, run_turn, join_at, stop_at, stop_turn, submits, worker,
  stopper, or_wait, turn, batch_size,
}
use vnelogging.LogQueueWorker.Order.{in_hand, in_hand-test}

-- Tasks between two others that come to the front.
pub swap-perm {ℓ} : {A : Type ℓ} (xs ys zs : List A) → Perm (xs ++ (ys ++ zs)) (ys ++ (xs ++ zs))
swap-perm xs ys zs =
    subst (λ l. Perm l (ys ++ (xs ++ zs))) (append_assoc xs ys zs)
      (subst (Perm ((xs ++ ys) ++ zs)) (append_assoc ys xs zs)
        (Perm.append_right zs (perm_append_comm xs ys)))

-- What the worker, `stop` and a push do while other threads hold some tasks.
module _ {ℓ} {A : Type ℓ} (others : List (Task A)) where
  abbrev pub split : State A → RunPc A → List (Task A) → List (Task A)
  split s run_pc items = s.executed ++ (in_hand run_pc ++ (others ++ items))

  -- The tasks pushed are, in some order, those run and those pending.
  pub record IsShared (s : State A) : Type ℓ where
    pub shared : Perm s.submitted (split s s.run_pc s.log_queue.items)

  -- The same with the state's parts replaced by equal ones.
  shared_at :
      (s : State A) (run_pc : RunPc A) (items : List (Task A))
      → s.run_pc ≡ run_pc
      → s.log_queue.items ≡ items
      → IsShared s
      → Perm s.submitted (split s run_pc items)
  shared_at s run_pc items e f v = rw (← e, ← f) v.shared

  pub submit-IsShared : (task : Task A) (s : State A) → IsShared s → IsShared (submit task s)
  unfolding submit
  submit-IsShared task s v = record {
    shared = rw (items-push task s.log_queue) (
        subst (Perm (s.submitted ++ task ∷ [])) (simp append_assoc)
          (Perm.append_right (task ∷ []) v.shared));
  }

  taken-IsShared :
      (s : State A) (o : Option (List (Task A) × LogQueue (Task A)))
      → s.run_pc ≡ draining
      → LogQueue.drain batch_size s.log_queue ≡ o
      → IsShared s
      → IsShared (or_wait s (taken s o))
  unfolding taken
  taken-IsShared s none e d v = v
  taken-IsShared s (some (batch, left)) e d v = record {
    shared =
        let parts = drain-parts batch_size s.log_queue left batch d in
        Perm.trans (shared_at s draining _ e (parts.0) v)
          (Perm.append_left s.executed (swap-perm others batch left.items));
  }

  run_at-IsShared :
      (s : State A) (pc : RunPc A) → s.run_pc ≡ pc → IsShared s → IsShared (or_wait s (run_at s pc))
  unfolding run_at execute
  run_at-IsShared s RunPc.testing e v = record {
    shared = rw (in_hand-test s.running) (shared_at s RunPc.testing _ e refl v);
  }
  run_at-IsShared s draining e v = taken-IsShared s _ e refl v
  run_at-IsShared s (executing []) e v = record { shared = shared_at s (executing []) _ e refl v }
  run_at-IsShared s (executing (task ∷ rest)) e v = record {
    shared =
        subst (Perm s.submitted) (simp append_assoc)
          (shared_at s (executing (task ∷ rest)) _ e refl v);
  }
  run_at-IsShared s RunPc.returned e v = v

  stop_at-IsShared :
      (s : State A) (pc : StopPc A) → IsShared s → IsShared (or_wait s (stop_at s pc))
  unfolding stop_at
  stop_at-IsShared s not_called v = record { shared = v.shared }
  stop_at-IsShared s cleared v = record { shared = (submit-IsShared dummy s v).shared }
  stop_at-IsShared s pushed v = joins s.run_pc
    where
      joins : (pc : RunPc A) → IsShared (or_wait s (join_at s pc))
      joins RunPc.returned = record { shared = v.shared }
      joins _ = v
  stop_at-IsShared s joined v = v

  pub worker-IsShared : (s : State A) → IsShared s → IsShared (turn s worker)
  unfolding turn run_turn
  worker-IsShared s v = run_at-IsShared s s.run_pc refl v

  pub stopper-IsShared : (s : State A) → IsShared s → IsShared (turn s stopper)
  unfolding turn stop_turn
  stopper-IsShared s v = stop_at-IsShared s s.stop_pc v

  pub submits-IsShared : (a : A) (s : State A) → IsShared s → IsShared (turn s (submits a))
  unfolding turn
  submits-IsShared a s v = submit-IsShared (message a) s v

-- What a thread that flushes does, beside the tasks of others.
module _ {ℓ} {A : Type ℓ} (before after : List (Task A)) (task : Task A) where
  to_front :
      (left : List (Task A))
      → Perm ((before ++ task ∷ after) ++ left) (task ∷ ((before ++ after) ++ left))
  to_front left = Perm.append_right left (perm_middle before after)

  -- It takes the oldest task of the queue.
  pub pop-IsShared :
      (s : State A) (left : LogQueue (Task A))
      → s.log_queue.items ≡ task ∷ left.items
      → IsShared (before ++ after) s
      → IsShared (before ++ task ∷ after) (record s { log_queue = left })
  pop-IsShared s left e v = record {
    shared = Perm.trans (shared_at (before ++ after) s s.run_pc _ refl e v) (
        Perm.append_left s.executed (
          Perm.append_left (in_hand s.run_pc) (
            Perm.trans (perm_middle (before ++ after) left.items)
              (Perm.symm (to_front left.items)))));
  }

  -- It runs the task.
  pub run-IsShared :
      (s : State A)
      → IsShared (before ++ task ∷ after) s
      → IsShared (before ++ after) (record s { executed = s.executed ++ task ∷ [] })
  run-IsShared s v = record {
    shared = Perm.trans v.shared (
        subst (Perm _) (sym (append_assoc s.executed (task ∷ []) _)) (
          Perm.append_left s.executed (
            Perm.trans (Perm.append_left (in_hand s.run_pc) (to_front s.log_queue.items))
              (perm_middle (in_hand s.run_pc) _))));
  }
