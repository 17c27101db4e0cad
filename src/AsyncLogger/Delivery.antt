-- ===== src/AsyncLogger/Delivery.antt =====
-- async_logger.cpp, log_dispatcher.cpp, log_queue_worker.cpp and file_log_sink.cpp: what an
-- asynchronous logger writes to its file, by threads.
use vnelogging.Common.{
  ℕ, ◌≡◌, refl, sym, ap, ◌∙◌, true, inl, inr, List, [], ◌∷◌, ◌++◌, append-nil, append_assoc, All,
  Bool-cases, Text,
}
use vnelogging.LogLevel.{LogLevel, at_least}
use vnelogging.Host.{Host, World, M, pure, ◌>>=◌}
use vnelogging.LogFormatter.{LogRecord}
use vnelogging.LogSink.{LogSink, FileLogSink, file}
use vnelogging.SyncLogger.Lines.{
  line, lines, lines-above, lines-below, with_stream, with_stream_self, log_file-line,
}
use vnelogging.LogQueueWorker.{
  Task, message, dummy, State, created, start, submits, worker, stopper, turn, run_schedule,
}
use vnelogging.LogQueueWorker.Order.{NotFlusher}
use vnelogging.LogQueueWorker.Effects.{submitted-submits, submitted-worker, submitted-stopper}
use vnelogging.LogDispatcher.{run_tasks}
use vnelogging.AsyncLogger.Threads.{
  Turn, logs, works, stops, Running, started, perform_all, actors, queue-perform_all, IsRun,
  perform_all-IsRun,
}

-- The records of the calls of `log`, in order.
unfoldable pub logged : List Turn → List LogRecord
logged [] = []
logged (logs r ∷ ts) = r ∷ logged ts
logged (works ∷ ts) = logged ts
logged (stops ∷ ts) = logged ts

module _ (h : Host) (thread : ℕ) where
  -- The lines of the messages among the tasks.
  unfoldable pub text_of : Text → List (Task LogRecord) → M Text
  text_of pattern [] = pure []
  text_of pattern (dummy ∷ tasks) = text_of pattern tasks
  text_of pattern (message r ∷ tasks) = do
    s ← line h thread r pattern
    rest ← text_of pattern tasks
    pure (s ++ rest)

  pub text_of-append :
      (pattern : Text) (xs ys : List (Task LogRecord)) (w : World)
      → text_of pattern (xs ++ ys) w
        ≡ (do s ← text_of pattern xs; rest ← text_of pattern ys; pure (s ++ rest)) w
  unfolding text_of
  text_of-append pattern [] ys w = refl
  text_of-append pattern (dummy ∷ xs) ys w = text_of-append pattern xs ys w
  text_of-append pattern (message r ∷ xs) ys w =
      let (s, v) = line h thread r pattern w in
      rw (text_of-append pattern xs ys v) (simp append_assoc)

  -- Running tasks on the file writes their lines.
  pub run_tasks-text_of :
      (tasks : List (Task LogRecord)) (sink : FileLogSink) (text flushed : Text) (w : World)
      → run_tasks h thread tasks (file (with_stream sink text flushed) ∷ []) w
        ≡ (do
          s ← text_of sink.pattern tasks
          pure (file (with_stream sink (text ++ s) flushed) ∷ []))
            w
  unfolding run_tasks text_of
  run_tasks-text_of [] sink text flushed w = rw append-nil refl
  run_tasks-text_of (dummy ∷ tasks) sink text flushed w =
      run_tasks-text_of tasks sink text flushed w
  run_tasks-text_of (message r ∷ tasks) sink text flushed w =
      let (s, v) = line h thread r sink.pattern w in
      rw
        (
          log_file-line h thread r sink text flushed w,
          run_tasks-text_of tasks sink (text ++ s) flushed v,
          append_assoc,
        )
        refl

  -- The lines of all that was pushed are those of the records that pass the level.
  module _ (level : LogLevel) (pattern : Text) where
    pushed_text : State LogRecord → List Turn → M Text
    pushed_text s ts = do
      text ← text_of pattern s.submitted
      rest ← lines h thread level pattern (logged ts)
      pure (text ++ rest)

    text_of-snoc :
        (tasks : List (Task LogRecord)) (r : LogRecord) (w : World)
        → text_of pattern (tasks ++ message r ∷ []) w
          ≡ (do text ← text_of pattern tasks; s ← line h thread r pattern; pure (text ++ s)) w
    unfolding text_of
    text_of-snoc tasks r w = rw (text_of-append pattern tasks (message r ∷ []) w, append-nil) refl

    text_of-dummy :
        (tasks : List (Task LogRecord)) (w : World)
        → text_of pattern (tasks ++ dummy ∷ []) w ≡ text_of pattern tasks w
    unfolding text_of
    text_of-dummy tasks w = rw (text_of-append pattern tasks (dummy ∷ []) w, append-nil) refl

    text_of-run_schedule :
        (ts : List Turn) (s : State LogRecord) (w : World)
        → text_of pattern (run_schedule s (actors level ts)).submitted w ≡ pushed_text s ts w
    unfolding actors run_schedule pushed_text logged lines
    text_of-run_schedule [] s w = rw append-nil refl
    text_of-run_schedule (logs r ∷ ts) s w = elim (Bool-cases (at_least r.level level)) [
      | inl wanted ↦ rw (wanted) (
          text_of-run_schedule ts (turn s (submits r)) w
          ∙ rw
              (
                submitted-submits s r,
                text_of-snoc s.submitted r w,
                lines-above h thread r (logged ts) level pattern (text_of pattern s.submitted w).1
                    wanted,
              )
              (simp append_assoc))
      | inr dropped ↦ rw dropped (
          text_of-run_schedule ts s w
          ∙ rw
              (lines-below h thread r (logged ts) level pattern (text_of pattern s.submitted w).1
                dropped)
              refl)
    ]
    text_of-run_schedule (works ∷ ts) s w =
        text_of-run_schedule ts (turn s worker) w ∙ rw (submitted-worker s) refl
    text_of-run_schedule (stops ∷ ts) s w =
        text_of-run_schedule ts (turn s stopper) w ∙ elim (submitted-stopper s) [
          | inl same ↦ rw same refl
          | inr more ↦ rw (more, text_of-dummy s.submitted w) refl
        ]

  pub NotFlusher-actors : (level : LogLevel) (ts : List Turn) → All NotFlusher (actors level ts)
  unfolding actors
  NotFlusher-actors level [] = tt
  NotFlusher-actors level (logs r ∷ ts) = elim (Bool-cases (at_least r.level level)) [
    | inl wanted ↦ rw wanted (tt, NotFlusher-actors level ts)
    | inr dropped ↦ rw dropped (NotFlusher-actors level ts)
  ]
  NotFlusher-actors level (works ∷ ts) = (tt, NotFlusher-actors level ts)
  NotFlusher-actors level (stops ∷ ts) = (tt, NotFlusher-actors level ts)

  module _ (level : LogLevel) (sink : FileLogSink) (w : World)
      (is_open : sink.file_stream.is_open ≡ true) (ts : List Turn) where
    abbrev pub after : Running
    after = perform_all h thread level ts (started (file sink ∷ []) w)

    abbrev pub queue_after : State LogRecord
    queue_after = run_schedule (start created) (actors level ts)

    -- The file has the lines of what was run.
    pub file_after :
        after.sinks
        ≡ file (
            with_stream sink
              (sink.file_stream.accepted ++ (text_of sink.pattern queue_after.executed w).0)
              sink.file_stream.flushed)
          ∷ []
    unfolding IsRun start run_tasks
    file_after =
        ap (λ (p : List LogSink × World). p.0)
          (sym (
              perform_all-IsRun h thread level (file sink ∷ []) w ts (started (file sink ∷ []) w)
                refl)
            ∙ (ap (λ (q : State LogRecord). run_tasks h thread q.executed (file sink ∷ []) w)
                  (queue-perform_all h thread level ts (started (file sink ∷ []) w))
                ∙ (ap (λ k. run_tasks h thread queue_after.executed (file k ∷ []) w)
                      (with_stream_self sink is_open)
                    ∙ run_tasks-text_of queue_after.executed sink sink.file_stream.accepted
                        sink.file_stream.flushed w)))

    -- What was logged is what was pushed.
    pub lines-pushed :
        (lines h thread level sink.pattern (logged ts) w).0
        ≡ (text_of sink.pattern queue_after.submitted w).0
    unfolding start pushed_text text_of
    lines-pushed =
        ap (λ (p : Text × World). p.0)
          (sym (text_of-run_schedule level sink.pattern ts (start created) w))
