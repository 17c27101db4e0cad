-- ===== src/Logging/EndToEnd.antt =====
-- From the macros to the file: logging.h, logging.cpp, log_manager.cpp, logger_controller.cpp,
-- log_stream.cpp, sync_logger.cpp, log_formatter.cpp and file_log_sink.cpp together.
use vnelogging.Common.{
  ℕ, ◌≡◌, refl, subst, true, false, none, some, List, [], map, Text, is_empty, length, get_elem?,
}
use vnelogging.Common.Dict.{lookup}
use vnelogging.Host.{Host, World}
use vnelogging.LogSink.Opening.{opened}
use vnelogging.SyncLogger.Lines.{on_disk, lines_by}
use vnelogging.Logger.{sync}
use vnelogging.Logging.{App, LoggerConfig, or_new, wants_console, wants_file}
use vnelogging.Logging.Calls.{Call, perform_all, fresh}
use vnelogging.Logging.Configured.{console_sinks, file_pattern}
use vnelogging.Logging.Statement.{Statement, record_by}
use vnelogging.SyncLogger.Fronts.{alone}
use vnelogging.SyncLogger.Delivery.{lines-alone}
use vnelogging.Logging.Session.{
  session, logger_behind, configured_sink, opened_world, session-behind,
}

no_consoles : (cfg : LoggerConfig) → wants_console cfg.sink ≡ false → console_sinks cfg ≡ []
unfolding console_sinks
no_consoles cfg e = rw e refl

module _ (h : Host) (thread : ℕ) (before : List (ℕ × Call)) (cfg : LoggerConfig)
    (ss : List (ℕ × Statement)) where
  abbrev a : App
  a = perform_all h before fresh

  abbrev start_world : World
  start_world = opened_world h cfg a.process.world

  -- What reaches the file, from the macros on: after any use of the library, let a name be new and
  -- `configureLogger` make a synchronous logger for it with a file, which opens, and no console. Then
  -- any statements of the macros for that name, on any threads, and `shutdown`, leave in the file, and
  -- handed to the system, one line for each statement of the configured level or above, in order: the
  -- pieces of the configured pattern with the statement's category, level, text, place and thread.
  pub session-on_disk :
      lookup cfg.name (or_new a.log_manager).loggers ≡ none
      → cfg.is_async ≡ false
      → wants_console cfg.sink ≡ false
      → wants_file h.platform cfg.sink ≡ true
      → is_empty cfg.file_path ≡ false
      → (configured_sink h cfg a.process.world).file_stream ≡ opened
      → let (text, v) =
          lines_by h cfg.log_level (file_pattern cfg) (map record_by ss) start_world in
        get_elem? (session h thread cfg ss a).process.store (length a.process.store)
        ≡ some (sync (logger_behind [] cfg (on_disk (configured_sink h cfg a.process.world) text)))
  session-on_disk new kind no_console wanted named opens =
      subst
        (λ (p : Text × World).
          get_elem? (session h thread cfg ss a).process.store (length a.process.store)
          ≡ some
              (sync (logger_behind [] cfg (on_disk (configured_sink h cfg a.process.world) p.0))))
        (lines-alone h cfg.log_level (file_pattern cfg) (map record_by ss) start_world)
        (session-behind h thread (alone h) before cfg ss new kind (no_consoles cfg no_console)
          wanted named opens)
