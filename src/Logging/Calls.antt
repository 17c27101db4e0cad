-- ===== src/Logging/Calls.antt =====
-- logging.h: any use of the library, as a list of calls, each on a thread of its choice and each done
-- before the next.
use vnelogging.Common.{ℕ, Bool, none, List, [], ◌∷◌, Text}
use vnelogging.LogLevel.{LogLevel}
use vnelogging.Host.{Host, initial}
use vnelogging.LogStream
use vnelogging.LogStream.{LogStream}
use vnelogging.Logging
use vnelogging.Logging.{App, LoggerConfig}

-- The functions of `Logging` that act on loggers, and a message.
pub data Call : Type 0 where
  initialize : Text → Bool → Call
  shutdown : Call
  add_console_sink : Text → Call
  add_file_sink set_console_pattern set_file_pattern : Text → Text → Call
  set_log_level set_flush_level : Text → LogLevel → Call
  configure_logger : LoggerConfig → Call
  message : LogStream → Call

unfoldable pub perform : Host → ℕ → Call → App → App
perform h thread (initialize name is_async) a = Logging.initialize name is_async a
perform h thread shutdown a = Logging.shutdown h thread a
perform h thread (add_console_sink name) a = Logging.add_console_sink name a
perform h thread (add_file_sink name path) a = Logging.add_file_sink h name path a
perform h thread (set_console_pattern name pattern) a = Logging.set_console_pattern name pattern a
perform h thread (set_file_pattern name pattern) a = Logging.set_file_pattern name pattern a
perform h thread (set_log_level name level) a = Logging.set_log_level name level a
perform h thread (set_flush_level name level) a = Logging.set_flush_level name level a
perform h thread (configure_logger cfg) a = Logging.configure_logger h cfg a
perform h thread (message s) a = record a { process = LogStream.destroy h thread s a.process }

unfoldable pub perform_all : Host → List (ℕ × Call) → App → App
unfolding perform
perform_all h [] a = a
perform_all h ((thread, call) ∷ rest) a = perform_all h rest (perform h thread call a)

-- Before the first call.
abbrev pub fresh : App
fresh = record {
  log_manager = none;
  process = record { store = []; registry = []; world = initial };
}
