-- ===== src/LogQueueWorker/Drained.antt =====
-- log_queue_worker.cpp: no message waits, while none is pushed.
use mathlib.Core.List.{append-eq-nil_iff}
use vnelogging.Common.{
  ◌≡◌, refl, sym, ◌∙◌, Option, none, some, List, [], ◌∷◌, ◌++◌, append-nil, append_assoc, All,
}
use vnelogging.LogQueue
use vnelogging.LogQueue.{LogQueue, drain-parts, pop-parts, items-push}
use vnelogging.LogQueueWorker.{
  Task, dummy, RunPc, draining, executing, StopPc, not_called, cleared, pushed, joined, FlushPc,
  idle, popping, holding, done, State, submit, taken, execute, run_at, run_turn, join_at, stop_at,
  stop_turn, popped, flush_at, flush_turn, Actor, submits, worker, stopper, flusher, or_wait, turn,
  run_schedule, batch_size,
}
use vnelogging.LogQueueWorker.Order.{held, held-test}
use vnelogging.LogQueueWorker.Messages.{messages, messages-append}

module _ {ℓ} {A : Type ℓ} where
  abbrev pub NotSubmits : Actor A → Type 0
  NotSubmits (submits a) = ⊥
  NotSubmits worker = Unit
  NotSubmits stopper = Unit
  NotSubmits flusher = Unit

  -- No message waits in the queue or with `flush`.
  pub record IsDrained (s : State A) : Type ℓ where
    pub drained : messages (held s.flush_pc ++ s.log_queue.items) ≡ []

  -- The same with the state's parts replaced by equal ones.
  drained_at :
      (s : State A) (flush_pc : FlushPc A) (items : List (Task A))
      → s.flush_pc ≡ flush_pc
      → s.log_queue.items ≡ items
      → IsDrained s
      → messages (held flush_pc ++ items) ≡ []
  drained_at s flush_pc items e f v = rw (← e, ← f) v.drained

  pub messages-middle :
      (xs ys zs : List (Task A)) → messages (xs ++ (ys ++ zs)) ≡ [] → messages (xs ++ zs) ≡ []
  messages-middle xs ys zs e =
      let (front, rest) =
        (append-eq-nil_iff {p = messages xs} {q = messages (ys ++ zs)}).0
          (sym (messages-append xs (ys ++ zs)) ∙ e) in
      let (middle, back) =
        (append-eq-nil_iff {p = messages ys} {q = messages zs}).0
          (sym (messages-append ys zs) ∙ rest) in
      messages-append xs zs ∙ rw (front, back) refl

  taken-IsDrained :
      (s : State A) (o : Option (List (Task A) × LogQueue (Task A)))
      → LogQueue.drain batch_size s.log_queue ≡ o
      → IsDrained s
      → IsDrained (or_wait s (taken s o))
  unfolding taken
  taken-IsDrained s none d v = v
  taken-IsDrained s (some (batch, left)) d v = record {
    drained =
        messages-middle (held s.flush_pc) batch left.items
          (drained_at s s.flush_pc _ refl (drain-parts batch_size s.log_queue left batch d).0 v);
  }

  run_at-IsDrained :
      (s : State A) (pc : RunPc A) → IsDrained s → IsDrained (or_wait s (run_at s pc))
  unfolding run_at execute
  run_at-IsDrained s RunPc.testing v = record { drained = v.drained }
  run_at-IsDrained s draining v = taken-IsDrained s _ refl v
  run_at-IsDrained s (executing []) v = record { drained = v.drained }
  run_at-IsDrained s (executing (task ∷ rest)) v = record { drained = v.drained }
  run_at-IsDrained s RunPc.returned v = v

  join_at-IsDrained :
      (s : State A) (pc : RunPc A) → IsDrained s → IsDrained (or_wait s (join_at s pc))
  unfolding join_at
  join_at-IsDrained s RunPc.testing v = v
  join_at-IsDrained s draining v = v
  join_at-IsDrained s (executing batch) v = v
  join_at-IsDrained s RunPc.returned v = record { drained = v.drained }

  stop_at-IsDrained :
      (s : State A) (pc : StopPc A) → IsDrained s → IsDrained (or_wait s (stop_at s pc))
  unfolding stop_at submit messages
  stop_at-IsDrained s not_called v = record { drained = v.drained }
  stop_at-IsDrained s cleared v = record {
    drained =
        rw
          (
            items-push dummy s.log_queue,
            ← append_assoc (held s.flush_pc) s.log_queue.items (dummy ∷ []),
          )
          (messages-append (held s.flush_pc ++ s.log_queue.items) (dummy ∷ [])
            ∙ append-nil _
            ∙ v.drained);
  }
  stop_at-IsDrained s pushed v = join_at-IsDrained s s.run_pc v
  stop_at-IsDrained s joined v = v

  popped-IsDrained :
      (s : State A) (o : Option (Task A × LogQueue (Task A)))
      → s.flush_pc ≡ popping
      → LogQueue.pop s.log_queue ≡ o
      → IsDrained s
      → IsDrained (or_wait s (popped s o))
  unfolding popped
  popped-IsDrained s none e p v = v
  popped-IsDrained s (some (task, left)) e p v = record {
    drained = drained_at s popping _ e (pop-parts s.log_queue left task p) v;
  }

  flush_at-IsDrained :
      (s : State A) (pc : FlushPc A)
      → s.flush_pc ≡ pc
      → IsDrained s
      → IsDrained (or_wait s (flush_at s pc))
  unfolding flush_at
  flush_at-IsDrained s idle e v = record { drained = drained_at s idle _ e refl v }
  flush_at-IsDrained s FlushPc.testing e v = record {
    drained = rw (held-test (LogQueue.empty s.log_queue)) (drained_at s FlushPc.testing _ e refl v);
  }
  flush_at-IsDrained s popping e v = popped-IsDrained s _ e refl v
  flush_at-IsDrained s (holding task) e v = record {
    drained = messages-middle [] (task ∷ []) _ (drained_at s (holding task) _ e refl v);
  }
  flush_at-IsDrained s done e v = record { drained = drained_at s done _ e refl v }

  turn-IsDrained :
      (s : State A) (actor : Actor A) → NotSubmits actor → IsDrained s → IsDrained (turn s actor)
  unfolding turn run_turn stop_turn flush_turn
  turn-IsDrained s (submits a) n v = elim n [ ]
  turn-IsDrained s worker n v = run_at-IsDrained s s.run_pc v
  turn-IsDrained s stopper n v = stop_at-IsDrained s s.stop_pc v
  turn-IsDrained s flusher n v = flush_at-IsDrained s s.flush_pc refl v

  pub run_schedule-IsDrained :
      (s : State A) (schedule : List (Actor A))
      → All NotSubmits schedule
      → IsDrained s
      → IsDrained (run_schedule s schedule)
  unfolding run_schedule
  run_schedule-IsDrained s [] n v = v
  run_schedule-IsDrained s (actor ∷ rest) (n, more) v =
      run_schedule-IsDrained (turn s actor) rest more (turn-IsDrained s actor n v)
