-- ===== src/Logger/Names.antt =====
-- The name and the class of a logger, which no method changes.
use vnelogging.Common.{ℕ, ◌≡◌, refl, inl, inr, List, Bool-cases}
use vnelogging.LogLevel.{LogLevel, at_least}
use vnelogging.Host.{Host, World}
use vnelogging.LogFormatter.{LogRecord}
use vnelogging.LogSink.{LogSink}
use vnelogging.SyncLogger
use vnelogging.SyncLogger.{SyncLogger}
use vnelogging.AsyncLogger
use vnelogging.AsyncLogger.{AsyncLogger}
use vnelogging.Logger.{
  Logger, sync, async, identity, add_log_sink, map_log_sinks, set_current_log_level,
  set_flush_level, log, flush,
}

pub identity-add_log_sink :
    (sink : LogSink) (l : Logger) → identity (add_log_sink sink l) ≡ identity l
unfolding add_log_sink SyncLogger.add_log_sink AsyncLogger.add_log_sink
identity-add_log_sink sink (sync l) = refl
identity-add_log_sink sink (async l) = refl

pub identity-map_log_sinks :
    (f : List LogSink → List LogSink) (l : Logger) → identity (map_log_sinks f l) ≡ identity l
unfolding map_log_sinks
identity-map_log_sinks f (sync l) = refl
identity-map_log_sinks f (async l) = refl

pub identity-set_current_log_level :
    (level : LogLevel) (l : Logger) → identity (set_current_log_level level l) ≡ identity l
unfolding set_current_log_level
identity-set_current_log_level level (sync l) = refl
identity-set_current_log_level level (async l) = refl

pub identity-set_flush_level :
    (level : LogLevel) (l : Logger) → identity (set_flush_level level l) ≡ identity l
unfolding set_flush_level
identity-set_flush_level level (sync l) = refl
identity-set_flush_level level (async l) = refl

pub identity-flush :
    (h : Host) (thread : ℕ) (l : Logger) (w : World) → identity (flush h thread l w).0 ≡ identity l
unfolding flush SyncLogger.flush AsyncLogger.flush
identity-flush h thread (sync l) w = refl
identity-flush h thread (async l) w = refl

pub identity-log :
    (h : Host) (thread : ℕ) (r : LogRecord) (l : Logger) (w : World)
    → identity (log h thread r l w).0 ≡ identity l
unfolding log SyncLogger.log AsyncLogger.log AsyncLogger.flush
identity-log h thread r (sync l) w = elim (Bool-cases (at_least r.level l.current_log_level)) [
  | inl wanted ↦ rw wanted refl
  | inr dropped ↦ rw dropped refl
]
identity-log h thread r (async l) w = elim (Bool-cases (at_least r.level l.current_log_level)) [
  | inl wanted ↦ elim (Bool-cases (at_least r.level l.flush_level)) [
    | inl urgent ↦ rw (wanted, urgent) refl
    | inr calm ↦ rw (wanted, calm) refl
  ]
  | inr dropped ↦ rw dropped refl
]
