-- ===== src/AsyncLogger.antt =====
-- core/async_logger.h and async_logger.cpp.
pub mod Refinement
pub mod Threads
pub mod Delivery
pub mod Actors
pub mod Written
pub mod Untimed
pub mod Crowd
use vnelogging.Common.{ℕ, List, [], ◌∷◌, ◌++◌, Text, if◌then◌else◌}
use vnelogging.LogLevel.{LogLevel, info, error, at_least}
use vnelogging.Host.{Host, M, pure, ◌>>=◌}
use vnelogging.LogFormatter.{LogRecord}
use vnelogging.LogSink
use vnelogging.LogSink.{LogSink}
use vnelogging.LogDispatcher
use vnelogging.LogDispatcher.{LogDispatcher}

pub record AsyncLogger : Type 0 where
  pub logger_name : Text
  pub current_log_level : LogLevel
  pub flush_level : LogLevel
  pub log_sinks : List LogSink
  pub dispatcher : LogDispatcher

-- `AsyncLogger(logger_name)`
unfoldable pub new : Text → AsyncLogger
new logger_name = record {
  logger_name = logger_name;
  current_log_level = info;
  flush_level = error;
  log_sinks = [];
  dispatcher = LogDispatcher.new;
}

unfoldable pub add_log_sink : LogSink → AsyncLogger → AsyncLogger
add_log_sink sink l = record l { log_sinks = l.log_sinks ++ sink ∷ [] }

unfoldable pub flush : Host → ℕ → AsyncLogger → M AsyncLogger
flush h thread l = do
  (d, sinks) ← LogDispatcher.flush h thread l.dispatcher l.log_sinks
  pure (record l { dispatcher = d; log_sinks = sinks })

unfoldable pub log : Host → ℕ → LogRecord → AsyncLogger → M AsyncLogger
unfolding flush
log h thread r l =
    if at_least r.level l.current_log_level
    then (let l' = record l { dispatcher = LogDispatcher.dispatch r l.dispatcher } in
        if at_least r.level l.flush_level then flush h thread l' else pure l')
    else pure l

-- A round of the logger's worker thread.
unfoldable pub worker_round : Host → ℕ → AsyncLogger → M AsyncLogger
worker_round h worker l = do
  (d, sinks) ← LogDispatcher.worker_round h worker l.dispatcher l.log_sinks
  pure (record l { dispatcher = d; log_sinks = sinks })

unfoldable pub clone_each : Host → List LogSink → M (List LogSink)
clone_each h [] = pure []
clone_each h (sink ∷ sinks) = do
  sink' ← LogSink.clone h sink
  sinks' ← clone_each h sinks
  pure (sink' ∷ sinks')

-- `clone` takes the levels and a clone of each sink; the queue is new.
unfoldable pub clone : Host → Text → AsyncLogger → M AsyncLogger
unfolding clone_each new
clone h logger_name l = do
  sinks ← clone_each h l.log_sinks
  pure (record (new logger_name) {
    current_log_level = l.current_log_level;
    flush_level = l.flush_level;
    log_sinks = sinks;
  })
