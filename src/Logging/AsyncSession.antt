-- ===== src/Logging/AsyncSession.antt =====
-- From the macros to the file with an asynchronous logger: logging.h, logging.cpp, log_manager.cpp,
-- logger_controller.cpp, log_stream.cpp, async_logger.cpp, log_dispatcher.cpp and file_log_sink.cpp
-- together, on one thread.
use vnelogging.Common.{
  subst, ℕ, ◌≡◌, refl, ap, ◌∙◌, true, false, inl, inr, Option, none, some, List, [], ◌∷◌, ◌++◌, map,
  Text, is_empty, length, get_elem?, Bool-cases,
}
use vnelogging.Common.Dict.{lookup, insert}
use vnelogging.Host.{Host, World}
use vnelogging.LogSink.{FileLogSink, FileStream, file}
use vnelogging.LogSink.Opening.{opened}
use vnelogging.SyncLogger.Lines.{on_thread, lines, on_disk}
use vnelogging.SyncLogger.Delivery.{log_all-lines}
use vnelogging.AsyncLogger.{AsyncLogger}
use vnelogging.AsyncLogger.Refinement.{log_all-eq}
use vnelogging.LogDispatcher
use vnelogging.Logger
use vnelogging.Logger.{Logger, async, get_log_sinks}
use vnelogging.Logger.Calls
use vnelogging.Logger.Calls.{log_by, log_all-async, log_all_sync-eq}
use vnelogging.LogManager.{LogManager, create_logger}
use vnelogging.LogManager.Finalize.{finalize_alone}
use vnelogging.Logger.Durable.{waiting}
use vnelogging.Logging
use vnelogging.Logging.{App, LoggerConfig, or_new, wants_console, wants_file}
use vnelogging.Logging.Calls.{Call, perform, perform_all, fresh}
use vnelogging.Logging.Agreement.{perform_all-IsAgreed, fresh-IsAgreed, configure_logger-IsAgreed}
use vnelogging.Logging.Configured.{
  configured, console_sinks, file_sinks, file_pattern, configured_world,
}
use vnelogging.Logging.Configure.{configure_logger-Holds}
use vnelogging.Logging.Holds.{Holds}
use vnelogging.Logging.Statement.{record_by, Statement, record_of, say}
use vnelogging.Logging.Messages.{IsOpen, messages-IsOpen}
use vnelogging.Logging.Session.{session, logger_behind, configured_sink, opened_world}

-- An asynchronous logger with a file as its one sink and nothing queued.
abbrev pub async_file_logger : LoggerConfig → FileLogSink → AsyncLogger
async_file_logger cfg sink = record {
  logger_name = cfg.name;
  current_log_level = cfg.log_level;
  flush_level = cfg.flush_level;
  log_sinks = file sink ∷ [];
  dispatcher = LogDispatcher.new;
}

configured-async_file_logger :
    (h : Host) (cfg : LoggerConfig) (w : World)
    → cfg.is_async ≡ true
    → wants_console cfg.sink ≡ false
    → wants_file h.platform cfg.sink ≡ true
    → is_empty cfg.file_path ≡ false
    → (configured h cfg w ≡ async (async_file_logger cfg (configured_sink h cfg w)))
      × (configured_world h cfg w ≡ opened_world h cfg w)
unfolding console_sinks file_sinks configured_world
configured-async_file_logger h cfg w kind no_console wanted named =
    rw (kind, no_console, wanted, named) (refl, refl)

-- The loggers of the application's manager.
abbrev known : App → List (Text × ℕ)
known a = (or_new a.log_manager).loggers

known-initialize :
    (cfg : LoggerConfig) (a : App)
    → known a ≡ []
    → known (Logging.initialize cfg.name cfg.is_async a) ≡ (cfg.name, length a.process.store) ∷ []
unfolding Logging.initialize create_logger lookup insert
known-initialize cfg a alone = rw (alone, create_logger, lookup) (rw (alone, insert) refl)

known-configure_console :
    (cfg : LoggerConfig) (a : App) → known (Logging.configure_console cfg a) ≡ known a
unfolding Logging.configure_console Logging.add_console_sink Logging.set_console_pattern
known-configure_console cfg a = elim (Bool-cases (wants_console cfg.sink)) [
  | inr n ↦ rw n refl
  | inl y ↦ elim (Bool-cases (is_empty cfg.console_pattern)) [
    | inl e ↦ rw (y, e) refl
    | inr m ↦ rw (y, m) refl
  ]
]

known-configure_file :
    (h : Host) (cfg : LoggerConfig) (a : App) → known (Logging.configure_file h cfg a) ≡ known a
unfolding Logging.configure_file Logging.add_file_sink Logging.set_file_pattern
known-configure_file h cfg a = elim (Bool-cases (wants_file h.platform cfg.sink)) [
  | inr n ↦ rw n refl
  | inl y ↦ elim (Bool-cases (is_empty cfg.file_path)) [
    | inl e ↦ rw (y, e) refl
    | inr m ↦ elim (Bool-cases (is_empty cfg.file_pattern)) [
      | inl e ↦ rw (y, m, e) refl
      | inr k ↦ rw (y, m, k) refl
    ]
  ]
]

known-configure_logger :
    (h : Host) (cfg : LoggerConfig) (a : App)
    → known (Logging.configure_logger h cfg a) ≡ known (Logging.initialize cfg.name cfg.is_async a)
unfolding Logging.configure_logger Logging.set_flush_level Logging.set_log_level
known-configure_logger h cfg a =
    known-configure_file h cfg _
    ∙ known-configure_console cfg (Logging.initialize cfg.name cfg.is_async a)

known-messages :
    (h : Host) (thread : ℕ) (name : Text) (ss : List Statement) (a : App)
    → known (perform_all h (map (say name) (on_thread thread ss)) a) ≡ known a
unfolding perform_all perform say
known-messages h thread name [] a = refl
known-messages h thread name (s ∷ ss) a = known-messages h thread name ss _

-- The records of statements on one thread.
logged_here :
    (h : Host) (thread : ℕ) (ss : List Statement) (l : Logger) (w : World)
    → log_by h (map record_by (on_thread thread ss)) l w
      ≡ Logger.Calls.log_all h thread (map record_of ss) l w
unfolding log_by Logger.Calls.log_all
logged_here h thread [] l w = refl
logged_here h thread (s ∷ ss) l w =
    let (l', w') = Logger.log h thread (record_of s) l w in logged_here h thread ss l' w'

-- `shutdown` where the logger is the only one.
shutdown_alone :
    (h : Host) (thread : ℕ) (name : Text) (p : ℕ) (l : Logger) (w : World) (a : App)
    → Holds name p l w a
    → known a ≡ (name, p) ∷ []
    → get_elem? (Logging.shutdown h thread a).process.store p ≡ some (Logger.flush h thread l w).0
unfolding Logging.shutdown
shutdown_alone h thread name p l w a v only = at a.log_manager only
  where
    at :
        (o : Option LogManager)
        → (or_new o).loggers ≡ (name, p) ∷ []
        → get_elem? (Logging.shut h thread a o).process.store p ≡ some (Logger.flush h thread l w).0
    at none e = cc
    at (some m) e =
        finalize_alone h thread m a.process name p l e v.stored
        ∙ ap (λ u. some (Logger.flush h thread l u).0) v.world

-- The calls of `log` and a flush, on an asynchronous logger with one file.
flushed_file :
    (h : Host) (thread : ℕ) (cfg : LoggerConfig) (ss : List Statement) (sink : FileLogSink)
    (w : World)
    → sink.file_stream ≡ opened
    → let (l, v) =
        Logger.Calls.log_all h thread (map record_of ss) (async (async_file_logger cfg sink)) w in
      let text = (lines h thread cfg.log_level sink.pattern (map record_of ss) w).0 in
      let l' = (Logger.flush h thread l v).0 in
      (get_log_sinks l' ≡ file (on_disk sink text) ∷ []) × (waiting l' ≡ [])
flushed_file h thread cfg ss sink w opens =
    let rs = map record_of ss in
    let l = async_file_logger cfg sink in
    let s = logger_behind [] cfg sink in
    let same = log_all-eq h thread rs l s w refl refl refl refl in
    let ended = ap (λ r. r.0) (log_all-async h thread rs l w) in
    let written =
      (log_all-lines h thread rs sink s w refl (ap (λ (t : FileStream). t.is_open) opens)).0 in
    (
      ap get_log_sinks ended
          ∙ same.0
          ∙ ap (λ r. r.0.log_sinks) (log_all_sync-eq h thread rs s w)
          ∙ written
          ∙ ap
              (λ (t : FileStream).
                file
                  (on_disk sink (t.accepted ++ (lines h thread cfg.log_level sink.pattern rs w).0))
                ∷ [])
              opens,
      ap waiting ended ∙ same.1,
    )

module _ (h : Host) (thread : ℕ) (before : List (ℕ × Call)) (cfg : LoggerConfig)
    (ss : List Statement) where
  -- What reaches the file of an asynchronous logger that is the only one: after any use of the
  -- library that leaves no loggers, `configureLogger` for an asynchronous logger with a file, which
  -- opens, and no console, any statements of the macros for its name, some at the flush level or
  -- above, and `shutdown`, all on one thread and with no turn of the worker in between, leave in the
  -- file, and handed to the system, the lines of the statements that pass the level, each with the
  -- time and the thread number of its task's run, and no task waiting.
  pub session_async-on_disk :
      (or_new (perform_all h before fresh).log_manager).loggers ≡ []
      → cfg.is_async ≡ true
      → wants_console cfg.sink ≡ false
      → wants_file h.platform cfg.sink ≡ true
      → is_empty cfg.file_path ≡ false
      → (configured_sink h cfg (perform_all h before fresh).process.world).file_stream ≡ opened
      → let a = perform_all h before fresh in
        let sink = configured_sink h cfg a.process.world in
        let (text, v) =
          lines h thread cfg.log_level
            (file_pattern cfg)
            (map record_of ss)
            (opened_world h cfg a.process.world) in
        (l : Logger) × (get_elem?
            (session h thread cfg (on_thread thread ss) a).process.store
            (length a.process.store)
          ≡ some l)
        × (get_log_sinks l ≡ file (on_disk sink text) ∷ [])
        × (waiting l ≡ [])
  unfolding session perform lookup
  session_async-on_disk alone kind no_console wanted named opens =
      let a = perform_all h before fresh in
      let p = length a.process.store in
      let w = opened_world h cfg a.process.world in
      let sink = configured_sink h cfg a.process.world in
      let (made, moved) =
        configured-async_file_logger h cfg a.process.world kind no_console wanted named in
      let new = ap (λ entries. lookup cfg.name entries) alone in
      let ready : IsOpen cfg.name p (async (async_file_logger cfg sink)) w
          (Logging.configure_logger h cfg a) =
        record {
          holds = rw (← made, ← moved) (configure_logger-Holds h cfg a new);
          agreed =
              configure_logger-IsAgreed h cfg a
                (perform_all-IsAgreed h before fresh fresh-IsAgreed);
        } in
      let done =
        subst
          (λ (r : Logger × World). IsOpen cfg.name p r.0 r.1 (
            perform_all h (map (say cfg.name) (on_thread thread ss))
              (Logging.configure_logger h cfg a)))
          (logged_here h thread ss (async (async_file_logger cfg sink)) w)
          (messages-IsOpen h cfg.name p (on_thread thread ss) _ w _ ready) in
      let only =
        known-messages h thread cfg.name ss (Logging.configure_logger h cfg a)
        ∙ known-configure_logger h cfg a
        ∙ known-initialize cfg a alone in
      let file_done = flushed_file h thread cfg ss sink w opens in
      (_, shutdown_alone h thread cfg.name p _ _ _ done.holds only, file_done.0, file_done.1)
