-- ===== src/AsyncLogger/Written.antt =====
-- async_logger.cpp, log_dispatcher.cpp, log_queue.cpp, log_queue_worker.cpp and file_log_sink.cpp:
-- what an asynchronous logger writes to its file, under every schedule.
use vnelogging.Common.{
  ℕ, ◌+◌, ◌*◌, ◌≤◌, ◌≡◌, sym, ap, ◌∙◌, true, List, [], ◌∷◌, ◌++◌, arith, All, Text, length, take,
  drop, take-append-drop,
}
use vnelogging.LogLevel.{LogLevel}
use vnelogging.Host.{Host, World}
use vnelogging.LogFormatter.{LogRecord}
use vnelogging.LogSink.{LogSink, FileLogSink, file}
use vnelogging.SyncLogger.Lines.{lines, with_stream}
use vnelogging.LogQueueWorker.{Task, State, created, start, run_schedule}
use vnelogging.LogQueueWorker.Order.{in_hand, run_schedule-fifo}
use vnelogging.LogQueueWorker.Progress.{submitted_runs}
use vnelogging.AsyncLogger.Threads.{Turn, Running, started, perform_all, actors}
use vnelogging.LogQueueWorker.Effects.{run_schedule-append}
use vnelogging.AsyncLogger.Delivery.{
  logged, text_of, text_of-append, NotFlusher-actors, queue_after, file_after, lines-pushed,
}
use vnelogging.AsyncLogger.Actors.{
  NotStops, count_works, IsRunner-actors, worker_turns-actors, actors-append, length-submitted,
}

module _ (h : Host) (thread : ℕ) (level : LogLevel) (sink : FileLogSink) (w : World) where
  abbrev pub run : List Turn → Running
  run ts = perform_all h thread level ts (started (file sink ∷ []) w)

  -- The file with so much more in it.
  abbrev pub with_text : Text → List LogSink
  with_text text =
      file (with_stream sink (sink.file_stream.accepted ++ text) sink.file_stream.flushed) ∷ []

  -- At every moment of every schedule of calls of `log` on any threads, below the flush level, of the
  -- worker and of `stop`, the open file of an asynchronous logger has, after its earlier text, a part
  -- from the start of the lines of the records logged so far that pass the level, in the order of the
  -- calls.
  pub quiet_in_order :
      sink.file_stream.is_open ≡ true
      → (ts : List Turn)
      → (written : Text) × (unwritten : Text) × ((run ts).sinks ≡ with_text written)
        × ((lines h thread level sink.pattern (logged ts) w).0 ≡ written ++ unwritten)
  quiet_in_order is_open ts =
      let q = queue_after h thread level sink w is_open ts in
      let rest = in_hand q.run_pc ++ q.log_queue.items in
      let (text, v) = text_of h thread sink.pattern q.executed w in
      (
        text,
        (text_of h thread sink.pattern rest v).0,
        file_after h thread level sink w is_open ts,
        lines-pushed h thread level sink w is_open ts
            ∙ (ap (λ tasks. (text_of h thread sink.pattern tasks w).0)
                  (run_schedule-fifo (actors level ts) (NotFlusher-actors h thread level ts))
                ∙ ap (λ (p : Text × World). p.0)
                    (text_of-append h thread sink.pattern q.executed rest w)),
      )

  -- What is logged is written: after any calls of `log` below the flush level and any turns of the
  -- worker, once the worker has had four more turns for each record logged so far, and three, the open
  -- file of an asynchronous logger has, after its earlier text, the lines of all those records that
  -- pass the level, in the order of the calls, and then the lines of others logged in the meantime.
  -- `stop` may not be called.
  pub quiet_written :
      sink.file_stream.is_open ≡ true
      → (before later : List Turn) → All NotStops before
      → All NotStops later
      → 4 * length (logged before) + 3 ≤ count_works later
      → (more : Text) × ((run (before ++ later)).sinks
          ≡ with_text ((lines h thread level sink.pattern (logged before) w).0 ++ more))
  unfolding start
  quiet_written is_open before later running running' turns = (
    (text_of h thread sink.pattern more_tasks (text_of h thread sink.pattern q.submitted w).1).0,
    file_after h thread level sink w is_open (before ++ later)
        ∙ ap with_text (
            ap (λ (p : Text × World). p.0)
              (ap (λ tasks. text_of h thread sink.pattern tasks w) executed_split
                ∙ text_of-append h thread sink.pattern q.submitted more_tasks w)
            ∙ ap
                (λ (t : Text).
                  t
                  ++ (text_of h thread sink.pattern more_tasks
                      (text_of h thread sink.pattern q.submitted w).1).0)
                (sym (lines-pushed h thread level sink w is_open before))),
  )
    where
      q : State LogRecord
      q = run_schedule (start created) (actors level before)

      t : State LogRecord
      t = run_schedule (start created) (actors level (before ++ later))

      split : t ≡ run_schedule q (actors level later)
      split =
          ap (run_schedule (start created)) (actors-append level before later)
          ∙ run_schedule-append (start created) (actors level before) (actors level later)

      run_first : take (length q.submitted) t.executed ≡ q.submitted
      run_first =
          ap (λ (k : State LogRecord). take (length q.submitted) k.executed) split
          ∙ submitted_runs (actors level before) (actors level later)
              (IsRunner-actors level before running) (IsRunner-actors level later running')
              (omega (
                arith,
                worker_turns-actors level later,
                length-submitted level before (start created) running,
              ))

      more_tasks : List (Task LogRecord)
      more_tasks = drop (length q.submitted) t.executed

      executed_split : t.executed ≡ q.submitted ++ more_tasks
      executed_split =
          sym (take-append-drop (length q.submitted) t.executed)
          ∙ ap (λ xs. xs ++ more_tasks) run_first
