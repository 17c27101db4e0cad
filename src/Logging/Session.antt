-- ===== src/Logging/Session.antt =====
-- logging.cpp, log_manager.cpp, log_stream.cpp and sync_logger.cpp: a session with a synchronous
-- logger that has a file, alone or behind a console.
use vnelogging.Common.{
  ℕ, ◌≡◌, refl, ap, subst, ◌∙◌, true, false, none, some, List, [], ◌∷◌, ◌++◌, map, Text, is_empty,
  length, get_elem?,
}
use vnelogging.Common.Dict.{lookup}
use vnelogging.Host.{Host, World}
use vnelogging.LogSink.{LogSink, FileLogSink, FileStream, file, new_file}
use vnelogging.LogSink.Opening.{opened}
use vnelogging.SyncLogger
use vnelogging.SyncLogger.{SyncLogger, flush_each}
use vnelogging.SyncLogger.Settings.{with_sinks, log_by-with_sinks}
use vnelogging.SyncLogger.Lines.{log_by, on_disk}
use vnelogging.SyncLogger.Fronts.{Front, lines_behind, log_by-lines_behind}
use vnelogging.Logger.{sync}
use vnelogging.Logger.Calls.{log_by-sync}
use vnelogging.Logging
use vnelogging.Logging.{App, LoggerConfig, or_new, wants_file}
use vnelogging.Logging.Calls.{Call, configure_logger, shutdown, perform, perform_all, fresh}
use vnelogging.Logging.Agreement.{
  IsAgreed, perform_all-IsAgreed, fresh-IsAgreed, configure_logger-IsAgreed,
}
use vnelogging.Logging.Configured.{
  configured, console_sinks, file_sinks, file_pattern, configured_world,
}
use vnelogging.Logging.Configure.{configure_logger-Holds}
use vnelogging.Logging.Statement.{Statement, record_by, say}
use vnelogging.Logging.Messages.{IsOpen, messages-IsOpen, shutdown-stored, shutdown-no_manager}

-- A whole session: `configureLogger` and `shutdown` on one thread, and messages on any.
unfoldable pub session : Host → ℕ → LoggerConfig → List (ℕ × Statement) → App → App
session h thread cfg ss a =
    perform h thread shutdown
      (perform_all h (map (say cfg.name) ss) (perform h thread (configure_logger cfg) a))

pub session-no_manager :
    (h : Host) (thread : ℕ) (cfg : LoggerConfig) (ss : List (ℕ × Statement)) (a : App)
    → (session h thread cfg ss a).log_manager ≡ none
unfolding session perform
session-no_manager h thread cfg ss a =
    shutdown-no_manager h thread
      (perform_all h (map (say cfg.name) ss) (perform h thread (configure_logger cfg) a))

-- A synchronous logger with a file behind other sinks.
abbrev pub logger_behind : List LogSink → LoggerConfig → FileLogSink → SyncLogger
logger_behind front cfg sink = record {
  logger_name = cfg.name;
  current_log_level = cfg.log_level;
  flush_level = cfg.flush_level;
  log_sinks = front ++ file sink ∷ [];
}

-- The sink that `configureLogger` makes, and what that does to the process.
abbrev pub configured_sink : Host → LoggerConfig → World → FileLogSink
configured_sink h cfg w = record (new_file h cfg.file_path true w).0 { pattern = file_pattern cfg }

abbrev pub opened_world : Host → LoggerConfig → World → World
opened_world h cfg w = (new_file h cfg.file_path true w).1

configured-logger_behind :
    (h : Host) (cfg : LoggerConfig) (front : List LogSink) (w : World)
    → cfg.is_async ≡ false
    → console_sinks cfg ≡ front
    → wants_file h.platform cfg.sink ≡ true
    → is_empty cfg.file_path ≡ false
    → (configured h cfg w ≡ sync (logger_behind front cfg (configured_sink h cfg w)))
      × (configured_world h cfg w ≡ opened_world h cfg w)
unfolding file_sinks configured_world
configured-logger_behind h cfg front w kind consoles wanted named =
    rw (consoles, kind, wanted, named) (refl, refl)

module _ (h : Host) (thread : ℕ) (front : Front h) (before : List (ℕ × Call)) (cfg : LoggerConfig)
    (ss : List (ℕ × Statement)) where
  abbrev a : App
  a = perform_all h before fresh

  abbrev start_world : World
  start_world = opened_world h cfg a.process.world

  a-IsAgreed : IsAgreed a
  a-IsAgreed = perform_all-IsAgreed h before fresh fresh-IsAgreed

  -- What the file has after a session.
  pub session-behind :
      lookup cfg.name (or_new a.log_manager).loggers ≡ none
      → cfg.is_async ≡ false
      → console_sinks cfg ≡ front.sinks
      → wants_file h.platform cfg.sink ≡ true
      → is_empty cfg.file_path ≡ false
      → (configured_sink h cfg a.process.world).file_stream ≡ opened
      → let (text, v) =
          lines_behind h front cfg.log_level (file_pattern cfg) (map record_by ss) start_world in
        get_elem? (session h thread cfg ss a).process.store (length a.process.store)
        ≡ some (
            sync (
              logger_behind front.sinks cfg (on_disk (configured_sink h cfg a.process.world) text)))
  unfolding session perform SyncLogger.flush
  session-behind new kind consoles wanted named opens =
      shutdown-stored h thread cfg.name p l' w' _ done.holds ∙ ap (λ k. some (sync k)) flushed
    where
      p : ℕ
      p = length a.process.store

      sink : FileLogSink
      sink = configured_sink h cfg a.process.world

      l : SyncLogger
      l = logger_behind front.sinks cfg sink

      ready : IsOpen cfg.name p (sync l) start_world (Logging.configure_logger h cfg a)
      ready =
          let (made, moved) =
            configured-logger_behind h cfg front.sinks a.process.world kind consoles wanted named in
          record {
            holds = rw (← made, ← moved) (configure_logger-Holds h cfg a new);
            agreed = configure_logger-IsAgreed h cfg a a-IsAgreed;
          }

      l' : SyncLogger
      l' = (log_by h (map record_by ss) l start_world).0

      w' : World
      w' = (log_by h (map record_by ss) l start_world).1

      text : Text
      text =
          (lines_behind h front cfg.log_level (file_pattern cfg) (map record_by ss) start_world).0

      done :
          IsOpen cfg.name p
            (sync l')
            w'
            (perform_all h (map (say cfg.name) ss) (Logging.configure_logger h cfg a))
      done =
          subst
            (λ r.
              IsOpen cfg.name p r.0 r.1
                (perform_all h (map (say cfg.name) ss) (Logging.configure_logger h cfg a)))
            (log_by-sync h (map record_by ss) l start_world)
            (messages-IsOpen h cfg.name p ss (sync l) start_world _ ready)

      flushed : SyncLogger.flush l' ≡ logger_behind front.sinks cfg (on_disk sink text)
      flushed =
          ap (λ k. with_sinks k (flush_each l'.log_sinks))
            (log_by-with_sinks h (map record_by ss) l start_world)
          ∙ (ap (with_sinks l)
                (log_by-lines_behind h front (map record_by ss) sink l start_world refl
                  (ap (λ (t : FileStream). t.is_open) opens)).0
              ∙ ap
                  (λ (t : FileStream).
                    logger_behind front.sinks cfg (on_disk sink (t.accepted ++ text)))
                  opens)
