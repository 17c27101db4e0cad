-- ===== src/LogQueueWorker/Overtakes.antt =====
-- A flush overtakes the worker: it runs new tasks before those the worker has drained.
use vnelogging.Common.{
  ◌<◌, ◌≡◌, refl, ap, ◌∙◌, List, [], ◌∷◌, ◌++◌, map, append-nil, append_assoc, length,
}
use vnelogging.LogQueueWorker.{
  Task, message, draining, executing, FlushPc, done, State, created, start, run_at, taken, execute,
  run_turn, flush_turn, Actor, submits, worker, flusher, turn, run_schedule, batch_size,
}
use vnelogging.LogQueueWorker.Effects.{run_schedule-append}
use vnelogging.LogQueueWorker.Flush.{flush_turns, flush_alone, drain_messages}
use vnelogging.LogQueueWorker.Loss.{run_schedule-submits}

module _ {ℓ} {A : Type ℓ} where
  -- A turn of the worker for each task.
  abbrev pub worker_runs : List (Task A) → List (Actor A)
  worker_runs [] = []
  worker_runs (task ∷ rest) = worker ∷ worker_runs rest

  -- The worker runs the batch in its order.
  run_schedule-executing :
      (s : State A) (batch : List (Task A))
      → run_schedule (record s { run_pc = executing batch }) (worker_runs batch)
        ≡ record s { run_pc = executing []; executed = s.executed ++ batch }
  unfolding run_schedule turn run_turn run_at execute
  run_schedule-executing s [] = rw (append-nil s.executed) refl
  run_schedule-executing s (task ∷ rest) =
      run_schedule-executing (record s { executed = s.executed ++ task ∷ [] }) rest
      ∙ rw (append_assoc s.executed) refl

  -- The turns of a flush that is called now, then those of the worker.
  abbrev flush_then_run : List (Task A) → List (Task A) → List (Actor A)
  flush_then_run news olds = flusher ∷ (flush_turns news ++ worker_runs olds)

  -- The worker drains the old messages, the new ones come, a flush is called and goes first.
  abbrev pub overtaking : List A → List A → List (Actor A)
  overtaking olds news =
      worker
      ∷ (map submits olds
          ++ worker ∷ (map submits news ++ flush_then_run (map message news) (map message olds)))

  flush_then_run-executed :
      (s : State A) (news olds : List (Task A))
      → run_schedule
          (record s {
            log_queue = record { items = news };
            flush_pc = FlushPc.idle;
            run_pc = executing olds;
          })
          (flush_then_run news olds)
        ≡ record s {
          log_queue = record { items = [] };
          flush_pc = done;
          run_pc = executing [];
          executed = (s.executed ++ news) ++ olds;
        }
  unfolding run_schedule turn flush_turn
  flush_then_run-executed s news olds =
      rw
        (
          run_schedule-append _ (flush_turns news) (worker_runs olds),
          flush_alone (record s { run_pc = executing olds }) news,
        )
        (run_schedule-executing
          (record s {
            log_queue = record { items = [] };
            flush_pc = done;
            executed = s.executed ++ news;
          })
          olds)

  -- A worker that waits in `drain` takes up to 32 messages that have come.
  drained :
      (s : State A) (m : A) (ms : List A)
      → length ms < batch_size
      → turn
          (record s { log_queue = record { items = map message (m ∷ ms) }; run_pc = draining })
          worker
        ≡ record s { log_queue = record { items = [] }; run_pc = executing (map message (m ∷ ms)) }
  unfolding turn run_turn run_at taken
  drained s m ms few = rw (drain_messages m ms few) refl

  overtaking-executed :
      (m : A) (ms news : List A)
      → length ms < batch_size
      → run_schedule (start created) (overtaking (m ∷ ms) news) ≡ record (start created) {
        flush_pc = done;
        run_pc = executing [];
        submitted = map message (m ∷ ms) ++ map message news;
        executed = map message news ++ map message (m ∷ ms);
      }
  unfolding run_schedule turn run_turn run_at start
  overtaking-executed m ms news few =
      let after = flush_then_run (map message news) (map message (m ∷ ms)) in
      let waiting : State A = record (start created) { run_pc = draining } in
      let sent : State A = record waiting { submitted = map message (m ∷ ms) } in
      let busy : State A = record sent { run_pc = executing (map message (m ∷ ms)) } in
      let more : State A = record sent { submitted = map message (m ∷ ms) ++ map message news } in
      run_schedule-submits waiting (m ∷ ms) (worker ∷ (map submits news ++ after))
      ∙ ap (λ t. run_schedule t (map submits news ++ after)) (drained sent m ms few)
      ∙ run_schedule-submits busy news after
      ∙ flush_then_run-executed more (map message news) (map message (m ∷ ms))

  -- A flush may run messages before older ones: for any 1 to 32 old messages and any new ones there
  -- is a schedule in which the new ones are pushed after the old ones and all are run, the new ones
  -- first, by the time the flush has returned and the worker is through with its batch.
  pub flush_overtakes :
      (m : A) (ms news : List A)
      → length ms < batch_size
      → let s = run_schedule (start created) (overtaking (m ∷ ms) news) in
        (s.submitted ≡ map message (m ∷ ms) ++ map message news)
        × (s.executed ≡ map message news ++ map message (m ∷ ms))
        × (s.flush_pc ≡ done)
        × (s.run_pc ≡ executing [])
  flush_overtakes m ms news few = rw (overtaking-executed m ms news few) (refl, refl, refl, refl)
