-- ===== src/SyncLogger.antt =====
-- core/sync_logger.h and sync_logger.cpp. The mutex is held for all that `log` and `flush` do with the
-- sinks, so each is one step.
pub mod Lines
pub mod Fronts
pub mod Delivery
pub mod Settings
pub mod Untimed
use vnelogging.Common.{ℕ, List, [], ◌∷◌, ◌++◌, map, Text, if◌then◌else◌}
use vnelogging.LogLevel.{LogLevel, info, error, at_least}
use vnelogging.Host.{Host, M, pure, ◌>>=◌}
use vnelogging.LogFormatter.{LogRecord}
use vnelogging.LogSink
use vnelogging.LogSink.{LogSink}

pub record SyncLogger : Type 0 where
  pub logger_name : Text
  pub current_log_level : LogLevel
  pub flush_level : LogLevel
  pub log_sinks : List LogSink

-- `SyncLogger(logger_name)`
unfoldable pub new : Text → SyncLogger
new logger_name = record {
  logger_name = logger_name;
  current_log_level = info;
  flush_level = error;
  log_sinks = [];
}

unfoldable pub add_log_sink : LogSink → SyncLogger → SyncLogger
add_log_sink sink l = record l { log_sinks = l.log_sinks ++ sink ∷ [] }

-- `for (auto& sink : log_sinks_) sink->log(…)`
unfoldable pub log_each : Host → ℕ → LogRecord → List LogSink → M (List LogSink)
log_each h thread r [] = pure []
log_each h thread r (sink ∷ sinks) = do
  sink' ← LogSink.log h thread r sink
  sinks' ← log_each h thread r sinks
  pure (sink' ∷ sinks')

-- `for (auto& sink : log_sinks_) sink->flush()`
abbrev pub flush_each : List LogSink → List LogSink
flush_each = map LogSink.flush

unfoldable pub log : Host → ℕ → LogRecord → SyncLogger → M SyncLogger
log h thread r l =
    if at_least r.level l.current_log_level
    then (do
      sinks ← log_each h thread r l.log_sinks
      pure (record l {
        log_sinks = if at_least r.level l.flush_level then flush_each sinks else sinks;
      }))
    else pure l

unfoldable pub flush : SyncLogger → SyncLogger
flush l = record l { log_sinks = flush_each l.log_sinks }

-- `clone` takes the name alone.
unfoldable pub clone : Text → SyncLogger → SyncLogger
unfolding new
clone logger_name l = new logger_name
