-- ===== src/AsyncLogger/Crowd/Placed.antt =====
-- async_logger.cpp and log_queue_worker.cpp: what becomes of the records that any number of threads
-- log, some of which flush.
use mathlib.Core.List.{Perm}
use mathlib.Core.List.Perm
use vnelogging.Common.{ℕ, ◌≡◌, refl, List, [], ◌++◌, append_assoc}
use vnelogging.LogLevel.{LogLevel}
use vnelogging.LogFormatter.{LogRecord}
use vnelogging.LogQueueWorker.{Task, start}
use vnelogging.LogQueueWorker.Order.{in_hand}
use vnelogging.AsyncLogger.Crowd.{Crowd, Turn, begun, perform_all}
use vnelogging.AsyncLogger.Crowd.Split.{all_of}
use vnelogging.LogQueueWorker.Messages.{messages, messages-append, messages-perm}
use vnelogging.AsyncLogger.Crowd.Records.{
  holds, passing, to_log, tasks_of, holds-begun, to_log-begun,
}
use vnelogging.AsyncLogger.Crowd.Places.{IsPlaced, perform_all-IsPlaced}

module _ (level flush_level : LogLevel) (worker_thread : ℕ)
    (threads : List (ℕ × List LogRecord)) where
  -- The records that pass the level, of all the threads.
  abbrev pub wanted : List LogRecord
  wanted = all_of (λ t. passing level t.1) threads

  begun-IsPlaced : IsPlaced level flush_level worker_thread wanted (begun threads)
  unfolding messages tasks_of start
  begun-IsPlaced = record {
    tasks = record { shared = rw (holds-begun threads) (Perm.refl []) };
    records = rw (to_log-begun level threads) (Perm.refl wanted);
    ran = refl;
  }

  abbrev pub run : List Turn → Crowd
  run turns = perform_all level flush_level worker_thread turns (begun threads)

  -- The records among the tasks that threads or the worker hold or that wait in the queue.
  abbrev pub pending : Crowd → List LogRecord
  pending s =
      messages (in_hand s.queue.run_pc ++ (all_of holds s.callers ++ s.queue.log_queue.items))

  -- At every moment of every schedule of any number of threads, each of which calls `log` with
  -- records of its own of any level and flushes where the flush level says so, of the worker and of
  -- `stop`: the records whose tasks some thread has begun to run on the sinks, those pending and those
  -- still to log that pass the level are, in some order, all the threads' records that pass the
  -- level, each as often as the threads have it. No record is lost and none is given to the sinks
  -- twice; what two threads that use a sink at the same time do to it is not said.
  pub each_record_once :
      (turns : List Turn)
      → let s = run turns in
        Perm wanted
          (messages (tasks_of s.history) ++ (pending s ++ all_of (to_log level) s.callers))
  each_record_once turns =
      let p =
        perform_all-IsPlaced level flush_level worker_thread wanted turns (begun threads)
          begun-IsPlaced in
      placed p.tasks.shared p.records p.ran
    where
      s : Crowd
      s = run turns

      rest : List (Task LogRecord)
      rest = in_hand s.queue.run_pc ++ (all_of holds s.callers ++ s.queue.log_queue.items)

      placed :
          Perm s.queue.submitted (s.queue.executed ++ rest)
          → Perm wanted (messages s.queue.submitted ++ all_of (to_log level) s.callers)
          → tasks_of s.history ≡ s.queue.executed
          → Perm wanted
              (messages (tasks_of s.history) ++ (pending s ++ all_of (to_log level) s.callers))
      placed tasks records ran = Perm.trans records (
          rw
            (
              ran,
              ← append_assoc (messages s.queue.executed) (messages rest)
                  (all_of (to_log level) s.callers),
              ← messages-append s.queue.executed rest,
            )
            (Perm.append_right (all_of (to_log level) s.callers) (messages-perm tasks)))
