-- ===== src/Logging/Configured.antt =====
-- logging.cpp: the logger that a configuration asks for.
use vnelogging.Common.{
  ◌≡◌, refl, Bool, true, false, not, ◌&&◌, List, [], ◌∷◌, ◌++◌, map, inl, inr, Bool-cases, Text,
  codes, is_empty, if◌then◌else◌,
}
use vnelogging.LogLevel.{LogLevel, info, error}
use vnelogging.Host.{Host, World}
use vnelogging.LogSink.{LogSink, FileLogSink, console, file, new_file, set_pattern}
use vnelogging.SyncLogger
use vnelogging.AsyncLogger
use vnelogging.LogDispatcher
use vnelogging.Logger
use vnelogging.Logger.{Logger, sync, async, add_log_sink, map_log_sinks}
use vnelogging.LogManager.{make_logger, repattern_file}
use vnelogging.Logging.{LoggerConfig, wants_console, wants_file}

-- A logger of either kind by what it has; nothing is queued.
abbrev pub logger_with : Text → Bool → LogLevel → LogLevel → List LogSink → Logger
logger_with name true level flush_level sinks = async (record {
  logger_name = name;
  current_log_level = level;
  flush_level = flush_level;
  log_sinks = sinks;
  dispatcher = LogDispatcher.new;
})
logger_with name false level flush_level sinks = sync (record {
  logger_name = name;
  current_log_level = level;
  flush_level = flush_level;
  log_sinks = sinks;
})

abbrev pub or_default : Text → Text → Text
or_default pattern default = if is_empty pattern then default else pattern

-- The sinks that a configuration asks for: at most one on the console, at most one file.
unfoldable pub console_sinks : LoggerConfig → List LogSink
console_sinks cfg =
    if wants_console cfg.sink
    then console (record { pattern = or_default cfg.console_pattern (codes "%x [%l] %v") }) ∷ []
    else []

abbrev pub opened_sink : Host → LoggerConfig → World → FileLogSink
opened_sink h cfg w = (new_file h cfg.file_path true w).0

-- The pattern of the file.
abbrev pub file_pattern : LoggerConfig → Text
file_pattern cfg = or_default cfg.file_pattern (codes "%x [%l] [%!] %v")

unfoldable pub file_sinks : Host → LoggerConfig → World → List LogSink
file_sinks h cfg w =
    if wants_file h.platform cfg.sink && not (is_empty cfg.file_path)
    then file (record (opened_sink h cfg w) { pattern = file_pattern cfg }) ∷ []
    else []

-- What opening the file does to the process.
unfoldable pub configured_world : Host → LoggerConfig → World → World
configured_world h cfg w =
    if wants_file h.platform cfg.sink && not (is_empty cfg.file_path)
    then (new_file h cfg.file_path true w).1
    else w

-- What a configuration asks for.
abbrev pub configured : Host → LoggerConfig → World → Logger
configured h cfg w =
    logger_with cfg.name cfg.is_async cfg.log_level cfg.flush_level
      (console_sinks cfg ++ file_sinks h cfg w)

pub make_logger-logger_with :
    (name : Text) (b : Bool) → make_logger name b ≡ logger_with name b info error []
unfolding make_logger SyncLogger.new AsyncLogger.new
make_logger-logger_with name true = refl
make_logger-logger_with name false = refl

module _ (name : Text) (level flush_level : LogLevel) (sinks : List LogSink) where
  pub logger_with-add_log_sink :
      (b : Bool) (s : LogSink)
      → add_log_sink s (logger_with name b level flush_level sinks)
        ≡ logger_with name b level flush_level (sinks ++ s ∷ [])
  unfolding add_log_sink SyncLogger.add_log_sink AsyncLogger.add_log_sink
  logger_with-add_log_sink true s = refl
  logger_with-add_log_sink false s = refl

  pub logger_with-map_log_sinks :
      (b : Bool) (f : List LogSink → List LogSink)
      → map_log_sinks f (logger_with name b level flush_level sinks)
        ≡ logger_with name b level flush_level (f sinks)
  unfolding map_log_sinks
  logger_with-map_log_sinks true f = refl
  logger_with-map_log_sinks false f = refl

  pub logger_with-set_levels :
      (b : Bool) (level' flush_level' : LogLevel)
      → Logger.set_flush_level flush_level'
          (Logger.set_current_log_level level' (logger_with name b level flush_level sinks))
        ≡ logger_with name b level' flush_level' sinks
  unfolding Logger.set_flush_level Logger.set_current_log_level
  logger_with-set_levels true level' flush_level' = refl
  logger_with-set_levels false level' flush_level' = refl

-- Console sinks are left alone by a pattern for files.
pub repattern_file-console_sinks :
    (cfg : LoggerConfig) (pattern : Text) (s : FileLogSink)
    → map (repattern_file pattern) (console_sinks cfg ++ file s ∷ [])
      ≡ console_sinks cfg ++ file (record s { pattern = pattern }) ∷ []
unfolding console_sinks repattern_file set_pattern
repattern_file-console_sinks cfg pattern s = elim (Bool-cases (wants_console cfg.sink)) [
  | inl y ↦ rw y refl
  | inr n ↦ rw n refl
]
