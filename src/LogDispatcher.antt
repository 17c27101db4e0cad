-- ===== src/LogDispatcher.antt =====
-- core/log_dispatcher.h and log_dispatcher.cpp: messages go to the queue as tasks, and a task logs
-- its message to the sinks that the logger has when it is run. Here each method runs undisturbed, and
-- so does each round of the worker; LogQueueWorker has the interleavings.
use vnelogging.Common.{ℕ, Option, none, some, List, [], ◌∷◌}
use vnelogging.Host.{Host, M, pure, ◌>>=◌}
use vnelogging.LogFormatter.{LogRecord}
use vnelogging.LogSink.{LogSink}
use vnelogging.SyncLogger.{log_each, flush_each}
use vnelogging.LogQueue
use vnelogging.LogQueue.{LogQueue}
use vnelogging.LogQueueWorker.{Task, message, dummy, batch_size}

pub record LogDispatcher : Type 0 where
  pub log_queue : LogQueue (Task LogRecord)

-- `LogDispatcher()`: the worker is started on an empty queue.
abbrev pub new : LogDispatcher
new = record { log_queue = record { items = [] } }

unfoldable pub dispatch : LogRecord → LogDispatcher → LogDispatcher
dispatch r d = record { log_queue = LogQueue.push (message r) d.log_queue }

-- Tasks run one after the other on a thread.
unfoldable pub run_tasks : Host → ℕ → List (Task LogRecord) → List LogSink → M (List LogSink)
run_tasks h thread [] sinks = pure sinks
run_tasks h thread (dummy ∷ rest) sinks = run_tasks h thread rest sinks
run_tasks h thread (message r ∷ rest) sinks = do
  sinks' ← log_each h thread r sinks
  run_tasks h thread rest sinks'

-- `LogDispatcher::flush`: `LogQueueWorker::flush` empties the queue on the calling thread, then the
-- sinks are flushed.
unfoldable pub flush : Host → ℕ → LogDispatcher → List LogSink → M (LogDispatcher × List LogSink)
unfolding run_tasks
flush h thread d sinks = do
  sinks' ← run_tasks h thread d.log_queue.items sinks
  pure (record { log_queue = record { items = [] } }, flush_each sinks')

ran :
    Host
    → ℕ
    → List LogSink
    → LogDispatcher
    → Option (List (Task LogRecord) × LogQueue (Task LogRecord))
    → M (LogDispatcher × List LogSink)
ran h worker sinks d none = pure (d, sinks)
ran h worker sinks d (some (batch, left)) = do
  sinks' ← run_tasks h worker batch sinks
  pure (record { log_queue = left }, sinks')

-- One round of the worker on its own thread; it waits on an empty queue.
unfoldable pub worker_round :
    Host → ℕ → LogDispatcher → List LogSink → M (LogDispatcher × List LogSink)
unfolding ran run_tasks
worker_round h worker d sinks = ran h worker sinks d (LogQueue.drain batch_size d.log_queue)
