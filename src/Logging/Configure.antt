-- ===== src/Logging/Configure.antt =====
-- logging.cpp: the logger that `configureLogger` leaves behind a name.
use vnelogging.Common.{arith, ℕ, ◌≡◌, ap, Bool, none, some, List, [], ◌++◌, length, get_elem?}
use vnelogging.Common.Dict.{lookup}
use vnelogging.LogLevel.{LogLevel, info, error}
use vnelogging.Host.{Host, World}
use vnelogging.LogSink.{LogSink}
use vnelogging.LogManager
use vnelogging.LogManager.{make_logger, repattern_console, repattern_file}
use vnelogging.Logging
use vnelogging.Logging.{App, LoggerConfig, or_new, wants_console, wants_file}
use vnelogging.Logging.Configured.{
  logger_with, console_sinks, file_sinks, configured_world, configured, make_logger-logger_with,
  logger_with-set_levels,
}
use vnelogging.Logging.Sinks.{
  Holds-eq, restyle_consoles, restyle_files, Holds-configure_console, Holds-configure_file,
}
use vnelogging.Logging.Holds.{Holds, initialize-Holds, Holds-set_log_level, Holds-set_flush_level}

-- `configureLogger` for a name with an idle logger: that logger keeps its kind and its sinks, which
-- get the configured patterns, takes the levels, and has the configured sinks behind them.
pub configure_logger-from :
    (h : Host) (cfg : LoggerConfig) (p : ℕ) (b : Bool) (level flush_level : LogLevel)
    (before : List LogSink) (w : World) (a : App)
    → Holds cfg.name p
        (logger_with cfg.name b level flush_level before)
        w
        (Logging.initialize cfg.name cfg.is_async a)
    → Holds cfg.name p
        (logger_with cfg.name b cfg.log_level cfg.flush_level (
          restyle_files h cfg (restyle_consoles cfg before)
          ++ (console_sinks cfg ++ file_sinks h cfg w)))
        (configured_world h cfg w)
        (Logging.configure_logger h cfg a)
unfolding Logging.configure_logger
configure_logger-from h cfg p b level flush_level before w a made =
    let console_done = Holds-configure_console h cfg p b level flush_level before w _ made in
    let restyled = restyle_consoles cfg before in
    let file_done = Holds-configure_file h cfg p b level flush_level restyled w _ console_done in
    let u = configured_world h cfg w in
    let leveled = Holds-set_log_level cfg.name p _ u _ file_done cfg.log_level in
    let sinks = restyle_files h cfg restyled ++ (console_sinks cfg ++ file_sinks h cfg w) in
    Holds-eq cfg.name p _ _ u _
      (logger_with-set_levels cfg.name level flush_level sinks b cfg.log_level cfg.flush_level)
      (Holds-set_flush_level cfg.name p _ u _ leveled cfg.flush_level)

restyle_nil : (h : Host) (cfg : LoggerConfig) → restyle_files h cfg (restyle_consoles cfg []) ≡ []
unfolding restyle_files restyle_consoles
restyle_nil h cfg = ground arith

pub configure_logger-Holds :
    (h : Host) (cfg : LoggerConfig) (a : App)
    → lookup cfg.name (or_new a.log_manager).loggers ≡ none
    → Holds cfg.name
        (length a.process.store)
        (configured h cfg a.process.world)
        (configured_world h cfg a.process.world)
        (Logging.configure_logger h cfg a)
configure_logger-Holds h cfg a fresh =
    let p = length a.process.store in
    let w = a.process.world in
    let made =
      Holds-eq cfg.name p _ _ w _ (make_logger-logger_with cfg.name cfg.is_async)
        (initialize-Holds cfg.name cfg.is_async a fresh) in
    Holds-eq cfg.name p _ _ (configured_world h cfg w) _
      (ap
        (λ sinks.
          logger_with cfg.name cfg.is_async cfg.log_level cfg.flush_level
            (sinks ++ (console_sinks cfg ++ file_sinks h cfg w)))
        (restyle_nil h cfg))
      (configure_logger-from h cfg p cfg.is_async info error [] w a made)

-- `configureLogger` for a name that has no logger yet makes one that is exactly what the
-- configuration says: of the kind and with the two levels given, nothing queued, with one console
-- sink if it asks for the console, then one file sink if it asks for a file, gives a path and is not
-- on the web, each with the given pattern or its class's own if none is given; and `getLogger`
-- answers it.
pub configure_logger-configured :
    (h : Host) (cfg : LoggerConfig) (a : App)
    → lookup cfg.name (or_new a.log_manager).loggers ≡ none
    → let a' = Logging.configure_logger h cfg a in
      let p = length a.process.store in
      (Logging.get_logger cfg.name a' ≡ some (some p))
      × (get_elem? a'.process.store p ≡ some (configured h cfg a.process.world))
unfolding Logging.get_logger Logging.configure_logger Logging.set_flush_level LogManager.get_logger
configure_logger-configured h cfg a fresh =
    let v = configure_logger-Holds h cfg a fresh in (ap some v.known, v.stored)
