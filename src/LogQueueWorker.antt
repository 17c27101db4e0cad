-- ===== src/LogQueueWorker.antt =====
-- core/log_queue_worker.h and log_queue_worker.cpp, by threads. A state has the shared queue and
-- flag, and where each thread stands; a turn is one access to what the threads share, or one task.
-- Any number of threads submit messages. One thread runs `run`, one calls `stop`, once, and one may
-- call `flush`, again and again. A schedule is the list of the turns, in order; a thread that waits
-- on the queue or on `join` uses its turn to go on waiting.
pub mod Shared
pub mod Conserve
pub mod Order
pub mod Stop
pub mod StopReturns
pub mod Loss
pub mod Flush
pub mod Cost
pub mod Progress
pub mod Effects
pub mod Overtakes
pub mod Bounded
pub mod Messages
pub mod Drained
pub mod Joined
pub mod Shutdown
use vnelogging.Common.{ℕ, Bool, true, false, Option, none, some, List, [], ◌∷◌, ◌++◌, if◌then◌else◌}
use vnelogging.LogQueue
use vnelogging.LogQueue.{LogQueue}

-- `kBatchSize`
abbrev pub batch_size : ℕ
batch_size = 32

-- A task of the queue: a message for the sinks, or the empty task of `stop`.
pub data Task {ℓ} (A : Type ℓ) : Type ℓ where
  message : A → Task A
  dummy : Task A

module _ {ℓ} (A : Type ℓ) where
  -- `run`: at the test of `running_`, inside `drain`, in the loop over the batch, returned.
  pub data RunPc : Type ℓ where
    testing : RunPc
    draining : RunPc
    executing : List (Task A) → RunPc
    returned : RunPc

  -- `stop`: not called, `running_` cleared, the dummy pushed, joined.
  pub data StopPc : Type ℓ where
    not_called cleared pushed joined : StopPc

  -- `flush`: not called, at the test of `empty`, inside `pop`, with a task in hand, returned.
  pub data FlushPc : Type ℓ where
    idle testing popping : FlushPc
    holding : Task A → FlushPc
    done : FlushPc

  pub record State : Type ℓ where
    pub log_queue : LogQueue (Task A)
    pub running : Bool
    pub run_pc : RunPc
    pub stop_pc : StopPc
    pub flush_pc : FlushPc
    pub executed : List (Task A)
    pub submitted : List (Task A)

module _ {ℓ} {A : Type ℓ} where
  -- `LogQueueWorker(queue)`
  abbrev pub created : State A
  created = record {
    log_queue = record { items = [] };
    running = false;
    run_pc = RunPc.returned;
    stop_pc = not_called;
    flush_pc = idle;
    executed = [];
    submitted = [];
  }

  -- `start`: the flag is set and the thread begins at the test.
  unfoldable pub start : State A → State A
  start s = record s { running = true; run_pc = RunPc.testing }

  -- `LogQueue::push`, with a record of what was pushed.
  unfoldable pub submit : Task A → State A → State A
  submit task s = record s {
    log_queue = LogQueue.push task s.log_queue;
    submitted = s.submitted ++ task ∷ [];
  }

  taken : State A → Option (List (Task A) × LogQueue (Task A)) → Option (State A)
  taken s none = none
  taken s (some (batch, rest)) = some (record s { log_queue = rest; run_pc = executing batch })

  -- The loop over the batch.
  execute : State A → List (Task A) → State A
  execute s [] = record s { run_pc = RunPc.testing }
  execute s (task ∷ rest) = record s { run_pc = executing rest; executed = s.executed ++ task ∷ [] }

  run_at : State A → RunPc A → Option (State A)
  unfolding taken execute
  run_at s RunPc.testing =
      some (record s { run_pc = if s.running then draining else RunPc.returned })
  run_at s draining = taken s (LogQueue.drain batch_size s.log_queue)
  run_at s (executing batch) = some (execute s batch)
  run_at s RunPc.returned = none

  -- A turn of the thread in `run`; `none` if it waits or has returned.
  unfoldable pub run_turn : State A → Option (State A)
  unfolding run_at
  run_turn s = run_at s s.run_pc

  -- `join` returns once `run` has.
  join_at : State A → RunPc A → Option (State A)
  join_at s RunPc.returned = some (record s { stop_pc = joined })
  join_at s _ = none

  stop_at : State A → StopPc A → Option (State A)
  unfolding join_at
  stop_at s not_called = some (record s { running = false; stop_pc = cleared })
  stop_at s cleared = some (record (submit dummy s) { stop_pc = pushed })
  stop_at s pushed = join_at s s.run_pc
  stop_at s joined = none

  -- A turn of the thread in `stop`.
  unfoldable pub stop_turn : State A → Option (State A)
  unfolding stop_at
  stop_turn s = stop_at s s.stop_pc

  popped : State A → Option (Task A × LogQueue (Task A)) → Option (State A)
  popped s none = none
  popped s (some (task, rest)) = some (record s { log_queue = rest; flush_pc = holding task })

  flush_at : State A → FlushPc A → Option (State A)
  unfolding popped
  flush_at s idle = some (record s { flush_pc = FlushPc.testing })
  flush_at s FlushPc.testing =
      some (record s { flush_pc = if LogQueue.empty s.log_queue then done else popping })
  flush_at s popping = popped s (LogQueue.pop s.log_queue)
  flush_at s (holding task) =
      some (record s { flush_pc = FlushPc.testing; executed = s.executed ++ task ∷ [] })
  flush_at s done = some (record s { flush_pc = FlushPc.testing })

  -- A turn of the thread in `flush`; where none is under way it calls it.
  unfoldable pub flush_turn : State A → Option (State A)
  unfolding flush_at
  flush_turn s = flush_at s s.flush_pc

pub data Actor {ℓ} (A : Type ℓ) : Type ℓ where
  submits : A → Actor A
  worker stopper flusher : Actor A

module _ {ℓ} {A : Type ℓ} where
  -- A thread that has to wait leaves the state alone.
  abbrev pub or_wait : State A → Option (State A) → State A
  or_wait s none = s
  or_wait s (some t) = t

  unfoldable pub turn : State A → Actor A → State A
  unfolding submit run_turn stop_turn flush_turn
  turn s (submits a) = submit (message a) s
  turn s worker = or_wait s (run_turn s)
  turn s stopper = or_wait s (stop_turn s)
  turn s flusher = or_wait s (flush_turn s)

  unfoldable pub run_schedule : State A → List (Actor A) → State A
  unfolding turn
  run_schedule s [] = s
  run_schedule s (actor ∷ rest) = run_schedule (turn s actor) rest
