-- ===== src/Examples/Crowds.antt =====
-- An asynchronous logger with several threads that log and flush.
use mathlib.Core.List.{Perm}
use vnelogging.Common.{ℕ, ◌≡◌, refl, List, [], ◌∷◌, ◌++◌, map}
use vnelogging.LogLevel.{info, debug, error}
use vnelogging.LogFormatter.{LogRecord}
use vnelogging.LogQueueWorker.{message, start, turn}
use vnelogging.LogQueue.{push, pop, empty, drain}
use vnelogging.AsyncLogger.Crowd.{
  Caller, Crowd, runs, Turn, calls, works, ready, flush_popping, perform_all, run_task,
}
use vnelogging.AsyncLogger.Crowd.Split.{all_of}
use vnelogging.LogQueueWorker.Messages.{messages}
use vnelogging.AsyncLogger.Crowd.Records.{to_log, tasks_of}
use vnelogging.AsyncLogger.Crowd.Placed.{run, wanted, pending, each_record_once}
use vnelogging.Examples.Data.{started, failed}

abbrev detail : LogRecord
detail = record started { level = debug }

-- Thread 1 logs two records, the second of too low a level; thread 2 logs an error, and flushes.
abbrev two_threads : List (ℕ × List LogRecord)
two_threads = (1, started ∷ detail ∷ []) ∷ (2, failed ∷ []) ∷ []

-- The flush runs the first record on thread 2 and is at `empty` again.
abbrev turns : List Turn
turns = calls 0 ∷ calls 1 ∷ calls 1 ∷ calls 1 ∷ calls 1 ∷ []

abbrev after : List Turn → Crowd
after ts = run info error 9 two_threads ts

after_flush :
    ((after turns).history ≡ (2, runs (message started)) ∷ [])
    × ((after turns).queue.log_queue.items ≡ message failed ∷ [])
unfolding perform_all run_task start push pop empty turn
after_flush = (refl, refl)

each_record_once_example :
    let s = after turns in
    Perm (wanted info error 9 two_threads) (
      messages (tasks_of s.history)
      ++ (pending info error 9 two_threads s ++ all_of (to_log info) s.callers))
each_record_once_example = each_record_once info error 9 two_threads turns

-- Two threads flush one record each: both find the queue not empty, the first takes both, and the
-- second waits inside `pop`.
abbrev two_errors : List (ℕ × List LogRecord)
two_errors = (1, failed ∷ []) ∷ (2, failed ∷ []) ∷ []

abbrev both_flush : List Turn
both_flush =
    calls 0
    ∷ calls 1
    ∷ calls 0
    ∷ calls 1
    ∷ calls 0
    ∷ calls 0
    ∷ calls 0
    ∷ calls 0
    ∷ calls 0
    ∷ calls 0
    ∷ calls 0
    ∷ calls 1
    ∷ works
    ∷ calls 1
    ∷ works
    ∷ calls 1
    ∷ []

one_waits :
    let s = run info error 9 two_errors both_flush in
    (map (λ (c : Caller). c.pc) s.callers ≡ ready ∷ flush_popping ∷ [])
    × (s.queue.log_queue.items ≡ [])
unfolding perform_all run_task start push pop empty turn drain
one_waits = (refl, refl)
