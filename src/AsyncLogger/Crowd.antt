-- ===== src/AsyncLogger/Crowd.antt =====
-- async_logger.cpp, log_dispatcher.cpp and log_queue_worker.cpp together, by threads: any number of
-- threads call `log`, each with records of its own and of any level, and a record at the flush level
-- makes its thread flush. The worker's thread runs tasks beside them, and one thread may call `stop`.
-- A turn is one access to what the threads share, or one call on the sinks, a task or a flush. The
-- history has these calls, by whom and in the order in which they are made. The sinks have no lock,
-- so that calls of two threads may overlap there: what they do to the sinks is not said here.
pub mod Split
pub mod Records
pub mod Places
pub mod Placed
pub mod Quiet
pub mod Simulated
pub mod InOrder
use vnelogging.Common.{
  ℕ, Bool, Option, none, some, List, [], ◌∷◌, ◌++◌, map, set, get_elem?, if◌then◌else◌,
}
use vnelogging.LogLevel.{LogLevel, at_least}
use vnelogging.LogFormatter.{LogRecord}
use vnelogging.LogQueue
use vnelogging.LogQueue.{LogQueue}
use vnelogging.LogQueueWorker
use vnelogging.LogQueueWorker.{Task, message, State, created, start, submits, worker, stopper}
use vnelogging.LogQueueWorker.Effects.{due}

-- Where a thread stands that calls `log`: before a call; in the loop of `flush` at the test of
-- `empty`, inside `pop` or with a task in hand; before the flush of the sinks.
pub data CallerPc : Type 0 where
  ready flush_testing flush_popping flushing_sinks : CallerPc
  flush_holding : Task LogRecord → CallerPc

-- A thread with its number, the records that it is still to log, and where it stands.
pub record Caller : Type 0 where
  pub thread : ℕ
  pub todo : List LogRecord
  pub pc : CallerPc

-- What a thread does with the sinks: it runs a task, or it flushes them.
pub data SinkCall : Type 0 where
  runs : Task LogRecord → SinkCall
  flushes : SinkCall

-- The queue that the threads share, the threads, and who has called the sinks.
pub record Crowd : Type 0 where
  pub queue : State LogRecord
  pub callers : List Caller
  pub history : List (ℕ × SinkCall)

-- A thread with its number and its records, before its first call.
abbrev pub caller_for : ℕ × List LogRecord → Caller
caller_for (thread, records) = record { thread = thread; todo = records; pc = ready }

-- The logger is made, and no thread has begun.
abbrev pub begun : List (ℕ × List LogRecord) → Crowd
begun threads = record { queue = start created; callers = map caller_for threads; history = [] }

abbrev pub at_pc : Caller → CallerPc → Caller
at_pc c pc = record c { pc = pc }

-- A thread of the list moves on.
abbrev pub move : ℕ → Caller → Crowd → Crowd
move i c s = record s { callers = set s.callers i c }

-- A thread runs tasks.
unfoldable pub run_task : ℕ → List (Task LogRecord) → Crowd → Crowd
run_task thread tasks s = record s {
  history = s.history ++ map (λ task. (thread, runs task)) tasks;
}

-- Whose turn it is: the thread of that place in the list, the worker, or the thread in `stop`.
pub data Turn : Type 0 where
  calls : ℕ → Turn
  works stops : Turn

module _ (level flush_level : LogLevel) (worker_thread : ℕ) where
  -- `log` up to the push: of the first record to do, if there is one.
  log_next : ℕ → Caller → List LogRecord → Crowd → Crowd
  log_next i c [] s = s
  log_next i c (r ∷ rest) s =
      if at_least r.level level
      then record (move i
          (record c {
            todo = rest;
            pc = if at_least r.level flush_level then flush_testing else ready;
          })
          s) { queue = LogQueueWorker.turn s.queue (submits r) }
      else move i (record c { todo = rest; pc = ready }) s

  -- A thread inside `pop` waits while the queue is empty.
  pop_next : ℕ → Caller → Option (Task LogRecord × LogQueue (Task LogRecord)) → Crowd → Crowd
  pop_next i c none s = s
  pop_next i c (some (task, rest)) s = record (move i (at_pc c (flush_holding task)) s) {
    queue = record s.queue { log_queue = rest };
  }

  caller_at : ℕ → Caller → CallerPc → Crowd → Crowd
  unfolding log_next pop_next run_task
  caller_at i c ready s = log_next i c c.todo s
  caller_at i c flush_testing s =
      move i (at_pc c (if LogQueue.empty s.queue.log_queue then flushing_sinks else flush_popping))
        s
  caller_at i c flush_popping s = pop_next i c (LogQueue.pop s.queue.log_queue) s
  caller_at i c (flush_holding task) s =
      let ran = run_task c.thread (task ∷ []) s in
      record (move i (at_pc c flush_testing) ran) {
        queue = record s.queue { executed = s.queue.executed ++ task ∷ [] };
      }
  caller_at i c flushing_sinks s = record (move i (at_pc c ready) s) {
    history = s.history ++ (c.thread, flushes) ∷ [];
  }

  caller_turn : ℕ → Option Caller → Crowd → Crowd
  unfolding caller_at
  caller_turn i none s = s
  caller_turn i (some c) s = caller_at i c c.pc s

  unfoldable pub perform : Turn → Crowd → Crowd
  unfolding caller_turn run_task
  perform (calls i) s = caller_turn i (get_elem? s.callers i) s
  perform works s = record (run_task worker_thread (due s.queue.run_pc) s) {
    queue = LogQueueWorker.turn s.queue worker;
  }
  perform stops s = record s { queue = LogQueueWorker.turn s.queue stopper }

  unfoldable pub perform_all : List Turn → Crowd → Crowd
  unfolding perform
  perform_all [] s = s
  perform_all (t ∷ ts) s = perform_all ts (perform t s)
