-- ===== src/LogQueueWorker/Flush.antt =====
-- `flush` beside the worker: alone it empties the queue; with the worker it may wait for ever, or
-- return while messages are still to be run.
use vnelogging.Common.{
  suc, ◌≤◌, ◌<◌, ◌≡◌, refl, ap, ◌∙◌, Option, none, some, List, [], ◌∷◌, ◌++◌, map, append-nil,
  append_assoc, arith, All, length, take_all, drop_all,
}
use vnelogging.LogQueue
use vnelogging.LogQueue.{LogQueue, drain-take, drain-parts, pop-nil}
use vnelogging.LogQueueWorker.{
  Task, message, RunPc, draining, executing, FlushPc, idle, popping, holding, done, State, created,
  start, run_at, taken, execute, run_turn, flush_at, popped, flush_turn, Actor, submits, worker,
  stopper, flusher, or_wait, turn, run_schedule, batch_size,
}
use vnelogging.LogQueueWorker.Loss.{run_schedule-submits}

module _ {ℓ} {A : Type ℓ} where
  -- The turns that a flush of these tasks takes.
  abbrev pub flush_turns : List (Task A) → List (Actor A)
  flush_turns [] = flusher ∷ []
  flush_turns (task ∷ rest) = flusher ∷ flusher ∷ flusher ∷ flush_turns rest

  -- Undisturbed, a flush that is at its test runs all the tasks of the queue in their order, and
  -- returns with the queue empty and all else as it was.
  pub flush_alone :
      (s : State A) (tasks : List (Task A))
      → run_schedule
          (record s { log_queue = record { items = tasks }; flush_pc = FlushPc.testing })
          (flush_turns tasks)
        ≡ record s {
          log_queue = record { items = [] };
          flush_pc = done;
          executed = s.executed ++ tasks;
        }
  unfolding run_schedule turn flush_turn LogQueue.empty LogQueue.pop
  flush_alone s [] = rw (append-nil s.executed) refl
  flush_alone s (task ∷ rest) =
      flush_alone (record s { executed = s.executed ++ task ∷ [] }) rest
      ∙ rw (append_assoc s.executed) refl

  -- A flush inside `pop`, with nothing to pop.
  record IsBlocked (s : State A) : Type ℓ where
    inside : s.flush_pc ≡ popping
    nothing : s.log_queue.items ≡ []

  -- A turn of one of the two threads at hand.
  abbrev pub WorkerOrFlusher : Actor A → Type 0
  WorkerOrFlusher (submits a) = ⊥
  WorkerOrFlusher worker = Unit
  WorkerOrFlusher stopper = ⊥
  WorkerOrFlusher flusher = Unit

  taken-IsBlocked :
      (s : State A) (o : Option (List (Task A) × LogQueue (Task A)))
      → LogQueue.drain batch_size s.log_queue ≡ o
      → IsBlocked s
      → IsBlocked (or_wait s (taken s o))
  unfolding taken
  taken-IsBlocked s none d v = v
  taken-IsBlocked s (some (batch, left)) d v =
      absurd ((drain-parts batch_size s.log_queue left batch d).2 v.nothing)

  run_at-IsBlocked :
      (s : State A) (pc : RunPc A) → IsBlocked s → IsBlocked (or_wait s (run_at s pc))
  unfolding run_at execute
  run_at-IsBlocked s RunPc.testing v = record { inside = v.inside; nothing = v.nothing }
  run_at-IsBlocked s draining v = taken-IsBlocked s _ refl v
  run_at-IsBlocked s (executing []) v = record { inside = v.inside; nothing = v.nothing }
  run_at-IsBlocked s (executing (task ∷ rest)) v = record { inside = v.inside; nothing = v.nothing }
  run_at-IsBlocked s RunPc.returned v = v

  popped-IsBlocked :
      (s : State A) (o : Option (Task A × LogQueue (Task A)))
      → LogQueue.pop s.log_queue ≡ o
      → IsBlocked s
      → IsBlocked (or_wait s (popped s o))
  unfolding popped
  popped-IsBlocked s none e v = v
  popped-IsBlocked s (some (task, left)) e v = cc (e, pop-nil s.log_queue v.nothing)

  flush_at-IsBlocked :
      (s : State A) (pc : FlushPc A)
      → s.flush_pc ≡ pc
      → IsBlocked s
      → IsBlocked (or_wait s (flush_at s pc))
  unfolding flush_at
  flush_at-IsBlocked s idle e v = cc (e, v.inside)
  flush_at-IsBlocked s FlushPc.testing e v = cc (e, v.inside)
  flush_at-IsBlocked s popping e v = popped-IsBlocked s _ refl v
  flush_at-IsBlocked s (holding task) e v = cc (e, v.inside)
  flush_at-IsBlocked s done e v = cc (e, v.inside)

  turn-IsBlocked :
      (s : State A) (actor : Actor A)
      → WorkerOrFlusher actor
      → IsBlocked s
      → IsBlocked (turn s actor)
  unfolding turn run_turn flush_turn
  turn-IsBlocked s (submits a) n v = absurd n
  turn-IsBlocked s worker n v = run_at-IsBlocked s s.run_pc v
  turn-IsBlocked s stopper n v = absurd n
  turn-IsBlocked s flusher n v = flush_at-IsBlocked s s.flush_pc refl v

  run_schedule-IsBlocked :
      (s : State A) (schedule : List (Actor A))
      → All WorkerOrFlusher schedule
      → IsBlocked s
      → IsBlocked (run_schedule s schedule)
  unfolding run_schedule
  run_schedule-IsBlocked s [] n v = v
  run_schedule-IsBlocked s (actor ∷ rest) n v =
      run_schedule-IsBlocked (turn s actor) rest n.1 (turn-IsBlocked s actor n.0 v)

  -- The worker waits in `drain`, messages arrive, a flush finds the queue not empty, and the worker
  -- drains it before the flush pops.
  abbrev pub overtaken : List A → List (Actor A)
  overtaken ms = worker ∷ (map submits ms ++ flusher ∷ flusher ∷ worker ∷ [])

  -- The same with the worker first: it has drained the messages when the flush looks.
  abbrev pub drained_first : List A → List (Actor A)
  drained_first ms = worker ∷ (map submits ms ++ worker ∷ flusher ∷ flusher ∷ [])

  length-messages : (ms : List A) → length (map message ms) ≡ length ms
  length-messages [] = refl
  length-messages (m ∷ ms) = ap suc (length-messages ms)

  pub drain_messages :
      (m : A) (ms : List A)
      → length ms < batch_size
      → LogQueue.drain batch_size (record { items = map message (m ∷ ms) })
        ≡ some (map message (m ∷ ms), record { items = [] })
  drain_messages m ms h =
      let few : length (map message (m ∷ ms)) ≤ batch_size = omega (arith, length-messages ms) in
      drain-take batch_size _
      ∙ ap some (λ i. (
        take_all batch_size (map message (m ∷ ms)) few i,
        record { items = drop_all batch_size (map message (m ∷ ms)) few i },
      ))

  blocked_after :
      (s : State A) (after : List (Actor A))
      → All WorkerOrFlusher after
      → s.flush_pc ≡ popping
      → s.log_queue.items ≡ []
      → ((run_schedule s after).flush_pc ≡ popping) × ((run_schedule s after).log_queue.items ≡ [])
  blocked_after s after n inside nothing =
      let v = run_schedule-IsBlocked s after n (record { inside = inside; nothing = nothing }) in
      (v.inside, v.nothing)

  -- A flush may wait for ever: for any 1 to 32 messages there is a schedule after which, as long as
  -- only the worker and the flush go on, the flush stays inside `pop` and the queue stays empty.
  pub flush_hangs :
      (m : A) (ms : List A) (after : List (Actor A))
      → length ms < batch_size
      → All WorkerOrFlusher after
      → let s = run_schedule (run_schedule (start created) (overtaken (m ∷ ms))) after in
        (s.flush_pc ≡ popping) × (s.log_queue.items ≡ [])
  unfolding run_schedule turn run_turn flush_turn start LogQueue.empty
  flush_hangs m ms after few n =
      rw
        (run_schedule-submits _ (m ∷ ms) (flusher ∷ flusher ∷ worker ∷ []), drain_messages m ms few)
        (blocked_after _ after n refl refl)

  -- A flush may return early: for any 1 to 32 messages there is a schedule after which the flush has
  -- returned and none of the messages has been run: the worker holds them all.
  pub flush_early :
      (m : A) (ms : List A)
      → length ms < batch_size
      → let s = run_schedule (start created) (drained_first (m ∷ ms)) in
        (s.flush_pc ≡ done) × (s.executed ≡ []) × (s.run_pc ≡ executing (map message (m ∷ ms)))
  unfolding run_schedule turn run_turn flush_turn start LogQueue.empty
  flush_early m ms few =
      rw
        (run_schedule-submits _ (m ∷ ms) (worker ∷ flusher ∷ flusher ∷ []), drain_messages m ms few)
        (refl, refl, refl)
