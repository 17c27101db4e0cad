-- ===== src/AsyncLogger/Crowd/InOrder.antt =====
-- async_logger.cpp, log_dispatcher.cpp, log_queue.cpp, log_queue_worker.cpp and file_log_sink.cpp: what
-- threads that log below the flush level write to the file of an asynchronous logger.
use vnelogging.Common.{
  ℕ, ◌+◌, ◌*◌, ◌≤◌, ◌≡◌, sym, ap, subst, ◌∙◌, true, List, [], ◌∷◌, ◌++◌, All, Text, length,
}
use vnelogging.LogLevel.{LogLevel}
use vnelogging.Host.{Host, World}
use vnelogging.LogSink.{LogSink, FileLogSink, file}
use vnelogging.SyncLogger.Lines.{lines}
use vnelogging.AsyncLogger.Threads
use vnelogging.AsyncLogger.Threads.{started}
use vnelogging.AsyncLogger.Actors
use vnelogging.AsyncLogger.Written.{with_text, quiet_in_order, quiet_written}
use vnelogging.AsyncLogger.Crowd.{Crowd, Turn, begun, perform_all}
use vnelogging.AsyncLogger.Crowd.Quiet.{
  Todo, AllBelow, left_after_all, logged_by, NotStops, count_works, turns_of, turns_of-append,
  logged-turns_of, NotStops-turns_of, works-turns_of, replay,
}
use vnelogging.AsyncLogger.Crowd.Simulated.{IsBy, IsQuiet, run-IsQuiet}

module _ (h : Host) (level flush_level : LogLevel) (worker_thread : ℕ) (sink : FileLogSink)
    (w : World) (threads : Todo) where
  -- The crowd after the turns.
  abbrev pub after : List Turn → Crowd
  after ts = perform_all level flush_level worker_thread ts (begun threads)

  -- The sinks after the calls that were made on them.
  abbrev pub sinks_of : Crowd → List LogSink
  sinks_of s = (replay h s.history (file sink ∷ []) w).0

  abbrev pub lines_for : List Turn → Text
  lines_for ts = (lines h worker_thread level sink.pattern (logged_by ts threads) w).0

  module _ (is_open : sink.file_stream.is_open ≡ true) (below : AllBelow flush_level threads) where
    quiet :
        (ts : List Turn)
        → IsQuiet h level flush_level worker_thread
            (file sink ∷ [])
            w
            (left_after_all ts threads)
            (after ts)
            (Threads.perform_all h worker_thread level
              (turns_of ts threads)
              (started (file sink ∷ []) w))
    quiet ts = run-IsQuiet h level flush_level worker_thread (file sink ∷ []) w ts threads below

    -- Any number of threads call `log` with records of their own, all below the flush level, on an
    -- asynchronous logger with an open file as its sink. At every moment of every schedule of them, of
    -- the worker and of `stop`, the worker alone has called the sink, and its calls leave the file, after
    -- its earlier text, with a part from the start of the lines of the records logged so far that pass
    -- the level, in the order of the calls.
    pub written_in_order :
        (ts : List Turn)
        → let s = after ts in
          (written : Text) × (unwritten : Text) × (sinks_of s
            ≡ with_text h worker_thread level sink w written)
          × (lines_for ts ≡ written ++ unwritten)
          × All (IsBy worker_thread) s.history
    written_in_order ts =
        let v = quiet ts in
        let (written, unwritten, sinks, text) =
          quiet_in_order h worker_thread level sink w is_open (turns_of ts threads) in
        (
          written,
          unwritten,
          ap (λ (p : List LogSink × World). p.0) v.replayed ∙ sinks,
          subst (λ rs. (lines h worker_thread level sink.pattern rs w).0 ≡ written ++ unwritten)
              (logged-turns_of ts threads) text,
          v.by_worker,
        )

    -- What is logged is written. Any number of threads call `log` with records of their own, all below
    -- the flush level, on an asynchronous logger with an open file as its sink, and `stop` is not called:
    -- once the worker has had four more turns for each record logged so far, and three, its calls leave
    -- the file, after its earlier text, with the lines of all those records that pass the level, in the
    -- order of the calls, and then the lines of others logged in the meantime.
    pub logged_written :
        (before later : List Turn)
        → All NotStops before
        → All NotStops later
        → 4 * length (logged_by before threads) + 3 ≤ count_works later
        → (more : Text) × (sinks_of (after (before ++ later))
            ≡ with_text h worker_thread level sink w (lines_for before ++ more))
    logged_written before later running running' turns =
        let v = quiet (before ++ later) in
        let rest = left_after_all before threads in
        let (more, sinks) =
          quiet_written h worker_thread level sink w is_open (turns_of before threads)
            (turns_of later rest) (NotStops-turns_of before threads running)
            (NotStops-turns_of later rest running')
            (subst (λ rs. 4 * length rs + 3 ≤ Actors.count_works (turns_of later rest))
              (sym (logged-turns_of before threads))
              (subst (λ n. 4 * length (logged_by before threads) + 3 ≤ n)
                (sym (works-turns_of later rest)) turns)) in
        (
          more,
          ap (λ (p : List LogSink × World). p.0) v.replayed
              ∙ ap
                  (λ ts.
                    (Threads.perform_all h worker_thread level ts
                      (started (file sink ∷ []) w)).sinks)
                  (turns_of-append before later threads)
              ∙ sinks
              ∙ ap
                  (λ rs.
                    with_text h worker_thread level sink w
                      ((lines h worker_thread level sink.pattern rs w).0 ++ more))
                  (logged-turns_of before threads),
        )
