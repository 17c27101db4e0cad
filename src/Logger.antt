-- ===== src/Logger.antt =====
-- core/logger.h: `ILogger`, by class.
pub mod Names
pub mod Durable
pub mod Clones
pub mod Calls
use vnelogging.Common.{ℕ, Bool, true, false, List, Text}
use vnelogging.LogLevel.{LogLevel}
use vnelogging.Host.{Host, M, pure, ◌>>=◌}
use vnelogging.LogFormatter.{LogRecord}
use vnelogging.LogSink.{LogSink}
use vnelogging.SyncLogger
use vnelogging.SyncLogger.{SyncLogger}
use vnelogging.AsyncLogger
use vnelogging.AsyncLogger.{AsyncLogger}

pub data Logger : Type 0 where
  sync : SyncLogger → Logger
  async : AsyncLogger → Logger

abbrev pub get_name : Logger → Text
get_name (sync l) = l.logger_name
get_name (async l) = l.logger_name

-- The class of a logger: true of `AsyncLogger`.
abbrev pub kind : Logger → Bool
kind (sync l) = false
kind (async l) = true

-- What no method changes.
abbrev pub identity : Logger → Text × Bool
identity l = (get_name l, kind l)

abbrev pub get_log_sinks : Logger → List LogSink
get_log_sinks (sync l) = l.log_sinks
get_log_sinks (async l) = l.log_sinks

abbrev pub get_current_log_level : Logger → LogLevel
get_current_log_level (sync l) = l.current_log_level
get_current_log_level (async l) = l.current_log_level

abbrev pub get_flush_level : Logger → LogLevel
get_flush_level (sync l) = l.flush_level
get_flush_level (async l) = l.flush_level

unfoldable pub add_log_sink : LogSink → Logger → Logger
add_log_sink sink (sync l) = sync (SyncLogger.add_log_sink sink l)
add_log_sink sink (async l) = async (AsyncLogger.add_log_sink sink l)

-- A change of the sinks behind `getLogSinks`, which the pointers in the list allow.
unfoldable pub map_log_sinks : (List LogSink → List LogSink) → Logger → Logger
map_log_sinks f (sync l) = sync (record l { log_sinks = f l.log_sinks })
map_log_sinks f (async l) = async (record l { log_sinks = f l.log_sinks })

unfoldable pub set_current_log_level : LogLevel → Logger → Logger
set_current_log_level level (sync l) = sync (record l { current_log_level = level })
set_current_log_level level (async l) = async (record l { current_log_level = level })

unfoldable pub set_flush_level : LogLevel → Logger → Logger
set_flush_level level (sync l) = sync (record l { flush_level = level })
set_flush_level level (async l) = async (record l { flush_level = level })

unfoldable pub log : Host → ℕ → LogRecord → Logger → M Logger
log h thread r (sync l) = do l' ← SyncLogger.log h thread r l; pure (sync l')
log h thread r (async l) = do l' ← AsyncLogger.log h thread r l; pure (async l')

unfoldable pub flush : Host → ℕ → Logger → M Logger
flush h thread (sync l) = pure (sync (SyncLogger.flush l))
flush h thread (async l) = do l' ← AsyncLogger.flush h thread l; pure (async l')

unfoldable pub clone : Host → Text → Logger → M Logger
clone h logger_name (sync l) = pure (sync (SyncLogger.clone logger_name l))
clone h logger_name (async l) = do l' ← AsyncLogger.clone h logger_name l; pure (async l')
