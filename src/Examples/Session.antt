-- ===== src/Examples/Session.antt =====
-- Whole sessions.
use vnelogging.Common.{
  ℕ, ◌≡◌, refl, true, false, some, List, [], ◌∷◌, ◌++◌, map, Text, codes, str_eq, get_elem?,
}
use vnelogging.Common.Dict.{lookup, insert}
use vnelogging.LogLevel.{debug, info, warn, error}
use vnelogging.Host.{World, initial}
use vnelogging.SyncLogger.Lines.{on_thread, lines_by, lines, on_disk}
use vnelogging.Logger
use vnelogging.Logger.{Logger, sync, async, get_log_sinks}
use vnelogging.Process.{Process, modify_in}
use vnelogging.LogManager
use vnelogging.LogManager.{LogManager, finalize}
use vnelogging.LogQueueWorker.{message}
use vnelogging.LogQueueWorker.Messages.{messages}
use vnelogging.AsyncLogger
use vnelogging.LogManager.Finalize.{finalize-IsDelivered}
use vnelogging.Logger.Durable.{waiting, IsDelivered}
use vnelogging.LogSink.{FileLogSink, file, new_file}
use vnelogging.Logging
use vnelogging.Logging.{LoggerConfig, file_sink, both_sinks}
use vnelogging.Logging.Calls.{Call, initialize, shutdown, perform_all, fresh}
use vnelogging.Logging.Configured.{
  configured, logger_with, console_sinks, file_sinks, configured_world,
}
use vnelogging.Logging.Reconfigure.{configure_logger-twice}
use vnelogging.Logging.Configure.{configure_logger-configured}
use vnelogging.Logging.Macros.{Site}
use vnelogging.Logging.Statement.{Statement, record_of, record_by}
use vnelogging.Logging.Session.{session, logger_behind, configured_sink, opened_world}
use vnelogging.Logging.EndToEnd.{session-on_disk}
use vnelogging.Logging.AsyncSession.{session_async-on_disk}
use vnelogging.Logging.Defaults.{default_logger_config}
use vnelogging.Logging.Defaults.Configured.{
  default_logger, after_default, default_logger_config-configured,
}
use vnelogging.Examples.Data.{host, started}

abbrev app : Text
app = codes "app"

abbrev to_file : LoggerConfig
to_file = record {
  name = app;
  sink = file_sink;
  console_pattern = [];
  file_pattern = codes "%x [%n] %v";
  file_path = codes "app.log";
  log_level = info;
  flush_level = error;
  is_async = false;
}

abbrev main_cpp : Site
main_cpp = record { file = codes "main.cpp"; function = codes "main"; line = 7 }

abbrev statements : List Statement
statements =
    record { category = codes "main"; level = info; site = main_cpp; text = codes "up" }
    ∷ record { category = codes "main"; level = debug; site = main_cpp; text = codes "detail" }
    ∷ record { category = codes "net"; level = warn; site = main_cpp; text = codes "slow" }
    ∷ []

abbrev earlier : List (ℕ × Call)
earlier = (1, initialize (codes "net") true) ∷ []

configure_logger-configured_example :
    let a = perform_all host earlier fresh in
    let a' = Logging.configure_logger host (record to_file { sink = both_sinks }) a in
    (Logging.get_logger app a' ≡ some (some 1))
    × (get_elem? a'.process.store 1
        ≡ some (configured host (record to_file { sink = both_sinks }) a.process.world))
unfolding perform_all Logging.initialize LogManager.create_logger lookup insert str_eq
configure_logger-configured_example =
    configure_logger-configured host (record to_file { sink = both_sinks })
      (perform_all host earlier fresh) refl

configure_logger-twice_example :
    let a = perform_all host earlier fresh in
    let w = a.process.world in
    let a' = Logging.configure_logger host to_file (Logging.configure_logger host to_file a) in
    get_elem? a'.process.store 1
    ≡ some (
        logger_with app false info error (
          (console_sinks to_file ++ file_sinks host to_file w)
          ++ (console_sinks to_file ++ file_sinks host to_file (configured_world host to_file w))))
unfolding perform_all Logging.initialize LogManager.create_logger lookup insert str_eq
configure_logger-twice_example =
    configure_logger-twice host to_file (perform_all host earlier fresh) refl

-- Two threads that log.
abbrev both : List (ℕ × Statement)
both = on_thread 1 statements ++ on_thread 2 statements

session-on_disk_example :
    let a = perform_all host earlier fresh in
    let (text, v) =
      lines_by host info
        (codes "%x [%n] %v")
        (map record_by both)
        (opened_world host to_file a.process.world) in
    get_elem? (session host 1 to_file both a).process.store 1
    ≡ some (
        sync
          (logger_behind [] to_file (on_disk (configured_sink host to_file a.process.world) text)))
unfolding perform_all Logging.initialize LogManager.create_logger lookup insert str_eq new_file
session-on_disk_example = session-on_disk host 1 earlier to_file both refl refl refl refl refl refl

abbrev busy_file : FileLogSink
busy_file = record {
  pattern = codes "%v";
  file_stream = record { is_open = true; accepted = codes "old"; flushed = [] };
  file_name = codes "app.log";
  is_append = true;
}

-- An asynchronous logger with a message that waits.
abbrev one_busy : Logger
one_busy = async (record (AsyncLogger.new app) {
  log_sinks = file busy_file ∷ [];
  dispatcher = record { log_queue = record { items = message started ∷ [] } };
})

abbrev one_logger : Process
one_logger = record { store = one_busy ∷ []; registry = 0 ∷ []; world = initial }

abbrev one_name : LogManager
one_name = record { loggers = (app, 0) ∷ []; logger_async_state = (app, true) ∷ [] }

finalize-IsDelivered_example :
    let (m', s') = finalize host 1 one_name one_logger in
    ((l : Logger) × (get_elem? s'.store 0 ≡ some l)
      × (w : World) × IsDelivered host 1 (started ∷ []) (file busy_file ∷ []) w l)
    × (m'.loggers ≡ [])
unfolding lookup str_eq messages
finalize-IsDelivered_example =
    finalize-IsDelivered host 1 one_name one_logger app 0 one_busy refl refl

-- An earlier use of the library that was shut down.
abbrev shut_down : List (ℕ × Call)
shut_down = (1, initialize (codes "net") true) ∷ (2, shutdown) ∷ []

abbrev to_file_async : LoggerConfig
to_file_async = record to_file { is_async = true }

session_async-on_disk_example :
    let a = perform_all host shut_down fresh in
    let sink = configured_sink host to_file_async a.process.world in
    let (text, v) =
      lines host 1 info
        (codes "%x [%n] %v")
        (map record_of statements)
        (opened_world host to_file_async a.process.world) in
    (l : Logger) × (get_elem?
        (session host 1 to_file_async (on_thread 1 statements) a).process.store
        1
      ≡ some l)
    × (get_log_sinks l ≡ file (on_disk sink text) ∷ [])
    × (waiting l ≡ [])
unfolding perform_all Logging.initialize LogManager.create_logger lookup insert str_eq new_file
    Logging.shutdown finalize Logger.flush modify_in
session_async-on_disk_example =
    session_async-on_disk host 1 shut_down to_file_async statements refl refl refl refl refl refl

default_logger_config-configured_example :
    let cfg = (default_logger_config host initial).0 in
    let a' = Logging.configure_logger host cfg (after_default host fresh) in
    (get_elem? a'.process.store 0 ≡ some (sync default_logger))
    × (a'.process.world ≡ (default_logger_config host initial).1)
unfolding lookup
default_logger_config-configured_example = default_logger_config-configured host fresh refl
