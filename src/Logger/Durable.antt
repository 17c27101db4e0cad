-- ===== src/Logger/Durable.antt =====
-- sync_logger.cpp, async_logger.cpp and file_log_sink.cpp: what has reached the files when `log`
-- returns.
use vnelogging.Common.{ℕ, ◌≡◌, refl, ap, true, inl, inr, List, [], ◌∷◌, ◌++◌, ◌∙◌, Bool-cases}
use vnelogging.LogLevel.{at_least}
use vnelogging.Host.{Host, World, M, pure, ◌>>=◌}
use vnelogging.LogFormatter.{LogRecord}
use vnelogging.LogSink
use vnelogging.LogSink.{LogSink, console, file, FileLogSink, FileStream, stream_flush}
use vnelogging.SyncLogger
use vnelogging.SyncLogger.{SyncLogger, log_each, flush_each}
use vnelogging.LogQueue.{push}
use vnelogging.LogQueueWorker.{Task, message, dummy}
use vnelogging.LogQueueWorker.Messages.{messages, messages-append}
use vnelogging.LogDispatcher.{run_tasks}
use vnelogging.LogDispatcher
use vnelogging.AsyncLogger
use vnelogging.AsyncLogger.{AsyncLogger}
use vnelogging.Logger.{
  Logger, sync, async, get_log_sinks, get_current_log_level, get_flush_level, log, flush,
}

stream_flush_twice : (s : FileStream) → stream_flush (stream_flush s) ≡ stream_flush s
stream_flush_twice s = elim (Bool-cases s.is_open) [
  | inl y ↦ rw (y, stream_flush) refl
  | inr n ↦ rw (n, stream_flush) refl
]

flush_twice : (sink : LogSink) → LogSink.flush (LogSink.flush sink) ≡ LogSink.flush sink
unfolding LogSink.flush
flush_twice (console sink) = refl
flush_twice (file sink) =
    ap (λ s. file (record sink { file_stream = s })) (stream_flush_twice sink.file_stream)

pub flush_each_twice : (sinks : List LogSink) → flush_each (flush_each sinks) ≡ flush_each sinks
flush_each_twice [] = refl
flush_each_twice (sink ∷ sinks) = rw (flush_twice sink, flush_each_twice sinks) refl

-- The sinks after records logged to them one after the other.
unfoldable pub log_records : Host → ℕ → List LogRecord → List LogSink → M (List LogSink)
log_records h thread [] sinks = pure sinks
log_records h thread (r ∷ rs) sinks = do
  sinks' ← log_each h thread r sinks
  log_records h thread rs sinks'

-- The tasks that wait; a synchronous logger has none.
abbrev pub waiting : Logger → List (Task LogRecord)
waiting (sync l) = []
waiting (async l) = l.dispatcher.log_queue.items

module _ (h : Host) (thread : ℕ) where
  -- To run tasks is to log their records.
  pub run_tasks-messages :
      (tasks : List (Task LogRecord)) (sinks : List LogSink) (w : World)
      → run_tasks h thread tasks sinks w ≡ log_records h thread (messages tasks) sinks w
  unfolding run_tasks log_records messages
  run_tasks-messages [] sinks w = refl
  run_tasks-messages (dummy ∷ tasks) sinks w = run_tasks-messages tasks sinks w
  run_tasks-messages (message r ∷ tasks) sinks w =
      let (sinks', w') = log_each h thread r sinks w in run_tasks-messages tasks sinks' w'

  -- The logger, whose sinks were `before`, has nothing waiting; its sinks are as after the records
  -- are logged and then flushed, and a further flush of them changes none.
  pub record IsDelivered (records : List LogRecord) (before : List LogSink) (w : World) (l : Logger)
      : Type 0 where
    pub no_task : waiting l ≡ []
    pub logged : get_log_sinks l ≡ flush_each (log_records h thread records before w).0
    pub no_text : flush_each (get_log_sinks l) ≡ get_log_sinks l

  -- A flush delivers what waits, and where nothing is left to deliver it changes no sink.
  pub flush-IsDelivered :
      (l : Logger) (w : World)
      → IsDelivered (messages (waiting l)) (get_log_sinks l) w (flush h thread l w).0
  unfolding flush log_records messages SyncLogger.flush AsyncLogger.flush LogDispatcher.flush
  flush-IsDelivered (sync l) w = record {
    no_task = refl;
    logged = refl;
    no_text = flush_each_twice l.log_sinks;
  }
  flush-IsDelivered (async l) w = record {
    no_task = refl;
    logged =
        ap (λ (p : List LogSink × World). flush_each p.0)
          (run_tasks-messages (waiting (async l)) l.log_sinks w);
    no_text = flush_each_twice _;
  }

  pub flush-again :
      (l : Logger) (w : World)
      → waiting l ≡ []
      → flush_each (get_log_sinks l) ≡ get_log_sinks l
      → get_log_sinks (flush h thread l w).0 ≡ get_log_sinks l
  unfolding flush run_tasks SyncLogger.flush AsyncLogger.flush LogDispatcher.flush
  flush-again (sync l) w empty same = same
  flush-again (async l) w empty same = rw empty same

  -- After `log` of a record that is of the logger's level and of its flush level, or above, with no
  -- other thread at work: the sinks, of a synchronous or an asynchronous logger, and what the
  -- process has written to the console, are as after the records that waited (a synchronous logger
  -- has none) and then this one are logged to the sinks; the sinks are flushed, a further flush
  -- changes none of them, and no task waits.
  pub log-flushed :
      (r : LogRecord) (l : Logger) (w : World)
      → at_least r.level (get_current_log_level l) ≡ true
      → at_least r.level (get_flush_level l) ≡ true
      → let records = messages (waiting l) ++ r ∷ [] in
        let (l', w') = log h thread r l w in
        IsDelivered records (get_log_sinks l) w l'
        × (w' ≡ (log_records h thread records (get_log_sinks l) w).1)
  unfolding log log_records messages SyncLogger.log AsyncLogger.log AsyncLogger.flush
      LogDispatcher.dispatch LogDispatcher.flush push
  log-flushed r (sync l) w wanted urgent =
      rw (wanted, urgent)
        (record { no_task = refl; logged = refl; no_text = flush_each_twice _ }, refl)
  log-flushed r (async l) w wanted urgent =
      let ran =
        run_tasks-messages (waiting (async l) ++ message r ∷ []) l.log_sinks w
        ∙ ap (λ rs. log_records h thread rs l.log_sinks w)
            (messages-append (waiting (async l)) (message r ∷ [])) in
      rw (wanted, urgent)
        (
          record {
            no_task = refl;
            logged = ap (λ (p : List LogSink × World). flush_each p.0) ran;
            no_text = flush_each_twice _;
          },
          ap (λ (p : List LogSink × World). p.1) ran,
        )
