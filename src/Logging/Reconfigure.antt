-- ===== src/Logging/Reconfigure.antt =====
-- logging.cpp: `configureLogger` for the same name again.
use vnelogging.Common.{arith, ◌≡◌, ap, ◌∙◌, none, some, List, ◌++◌, length, get_elem?}
use vnelogging.Common.Dict.{lookup}
use vnelogging.Host.{Host, World}
use vnelogging.LogSink.{LogSink, set_pattern}
use vnelogging.LogManager.{repattern_console, repattern_file}
use vnelogging.Logging
use vnelogging.Logging.{App, LoggerConfig, or_new, wants_console, wants_file}
use vnelogging.Logging.Configured.{logger_with, console_sinks, file_sinks, configured_world}
use vnelogging.Logging.Sinks.{restyle_consoles, restyle_files}
use vnelogging.Logging.Configure.{configure_logger-Holds, configure_logger-from}
use vnelogging.Logging.Holds.{initialize-Holds_old}

module _ (h : Host) (cfg : LoggerConfig) (w : World) where
  abbrev own : List LogSink
  own = console_sinks cfg ++ file_sinks h cfg w

  restyle_consoles-own : restyle_consoles cfg own ≡ own
  unfolding restyle_consoles console_sinks file_sinks repattern_console set_pattern
  restyle_consoles-own = ground arith

  restyle_files-own : restyle_files h cfg own ≡ own
  unfolding restyle_files console_sinks file_sinks repattern_file set_pattern
  restyle_files-own = ground arith

-- `configureLogger` twice with the same configuration, for a name that had no logger, leaves the
-- logger of the first call with every sink twice: the file, if there is one, is opened again and has
-- a stream of its own in each of its two sinks.
pub configure_logger-twice :
    (h : Host) (cfg : LoggerConfig) (a : App)
    → lookup cfg.name (or_new a.log_manager).loggers ≡ none
    → let w = a.process.world in
      let a' = Logging.configure_logger h cfg (Logging.configure_logger h cfg a) in
      get_elem? a'.process.store (length a.process.store)
      ≡ some (
          logger_with cfg.name cfg.is_async cfg.log_level cfg.flush_level (
            (console_sinks cfg ++ file_sinks h cfg w)
            ++ (console_sinks cfg ++ file_sinks h cfg (configured_world h cfg w))))
configure_logger-twice h cfg a fresh =
    let p = length a.process.store in
    let w = a.process.world in
    let u = configured_world h cfg w in
    let first = configure_logger-Holds h cfg a fresh in
    let there = initialize-Holds_old cfg.name cfg.is_async p _ u _ first in
    let again =
      configure_logger-from h cfg p cfg.is_async cfg.log_level cfg.flush_level
        (console_sinks cfg ++ file_sinks h cfg w) u _ there in
    again.stored
    ∙ ap
        (λ sinks. some (
          logger_with cfg.name cfg.is_async cfg.log_level cfg.flush_level
            (sinks ++ (console_sinks cfg ++ file_sinks h cfg u))))
        (ap (restyle_files h cfg) (restyle_consoles-own h cfg w) ∙ restyle_files-own h cfg w)
