-- ===== src/LogManager.antt =====
-- log_manager.h and log_manager.cpp: the loggers of the application, by name.
pub mod Kinds
pub mod Found
pub mod Methods
pub mod Again
pub mod Elsewhere
pub mod Finalize
use vnelogging.Common.{
  ℕ, Bool, true, false, Option, none, some, List, [], ◌∷◌, ◌++◌, map, Text, length,
}
use vnelogging.Common.Dict.{lookup, insert}
use vnelogging.LogLevel.{LogLevel}
use vnelogging.Host.{Host}
use vnelogging.LogSink.{LogSink, console, file, new_console, new_file, set_pattern}
use vnelogging.SyncLogger
use vnelogging.AsyncLogger
use vnelogging.Logger
use vnelogging.Logger.{Logger, sync, async, add_log_sink, map_log_sinks}
use vnelogging.LoggerController
use vnelogging.Process.{Process, modify, modify_in}

pub record LogManager : Type 0 where
  pub loggers : List (Text × ℕ)
  pub logger_async_state : List (Text × Bool)

-- `LogManager()`
abbrev pub new : LogManager
new = record { loggers = []; logger_async_state = [] }

unfoldable pub make_logger : Text → Bool → Logger
make_logger logger_name true = async (AsyncLogger.new logger_name)
make_logger logger_name false = sync (SyncLogger.new logger_name)

pub record Created : Type 0 where
  pub address : ℕ
  pub manager : LogManager
  pub process : Process

created : Text → Bool → LogManager → Process → Option ℕ → Created
created logger_name is_async m s (some p) = record { address = p; manager = m; process = s }
created logger_name is_async m s none = record {
  address = length s.store;
  manager = record {
    loggers = insert logger_name (length s.store) m.loggers;
    logger_async_state = insert logger_name is_async m.logger_async_state;
  };
  process = record s {
    store = s.store ++ make_logger logger_name is_async ∷ [];
    registry = LoggerController.register_logger (some (length s.store)) s.registry;
  };
}

-- `createLogger`: the logger of that name if there is one, whatever its kind.
unfoldable pub create_logger : Text → Bool → LogManager → Process → Created
unfolding created
create_logger logger_name is_async m s =
    created logger_name is_async m s (lookup logger_name m.loggers)

abbrev pub or_sync : Option Bool → Bool
or_sync none = false
or_sync (some is_async) = is_async

unfoldable pub is_logger_async : Text → LogManager → Bool
is_logger_async logger_name m = or_sync (lookup logger_name m.logger_async_state)

unfoldable pub get_logger : Text → LogManager → Option ℕ
get_logger logger_name m = lookup logger_name m.loggers

-- `auto logger = getLogger(logger_name); if (logger) { … }`
unfoldable pub when_found : Option ℕ → (ℕ → Process → Process) → Process → Process
when_found none f s = s
when_found (some p) f s = f p s

unfoldable pub add_console_sink : Text → LogManager → Process → Process
unfolding when_found get_logger
add_console_sink logger_name m =
    when_found (get_logger logger_name m) (λ p. modify p (add_log_sink (console new_console)))

attach_file : Host → Text → ℕ → Process → Process
attach_file h path p s =
    let (sink, w) = new_file h path true s.world in
    modify p (add_log_sink (file sink)) (record s { world = w })

unfoldable pub add_file_sink : Host → Text → Text → LogManager → Process → Process
unfolding when_found get_logger attach_file
add_file_sink h logger_name log_file_path m =
    when_found (get_logger logger_name m) (attach_file h log_file_path)

-- `dynamic_cast<ConsoleLogSink*>` and `dynamic_cast<FileLogSink*>`.
unfoldable pub repattern_console : Text → LogSink → LogSink
repattern_console pattern (console sink) = set_pattern pattern (console sink)
repattern_console pattern (file sink) = file sink

unfoldable pub repattern_file : Text → LogSink → LogSink
repattern_file pattern (console sink) = console sink
repattern_file pattern (file sink) = set_pattern pattern (file sink)

unfoldable pub set_console_pattern : Text → Text → LogManager → Process → Process
unfolding when_found get_logger
set_console_pattern logger_name pattern m =
    when_found (get_logger logger_name m)
      (λ p. modify p (map_log_sinks (map (repattern_console pattern))))

unfoldable pub set_file_pattern : Text → Text → LogManager → Process → Process
unfolding when_found get_logger
set_file_pattern logger_name pattern m =
    when_found (get_logger logger_name m)
      (λ p. modify p (map_log_sinks (map (repattern_file pattern))))

unfoldable pub set_log_level : Text → LogLevel → LogManager → Process → Process
unfolding when_found get_logger
set_log_level logger_name level m =
    when_found (get_logger logger_name m) (λ p. modify p (Logger.set_current_log_level level))

unfoldable pub set_flush_level : Text → LogLevel → LogManager → Process → Process
unfolding when_found get_logger
set_flush_level logger_name level m =
    when_found (get_logger logger_name m) (λ p. modify p (Logger.set_flush_level level))

-- The body of the loop of `finalize`.
unfoldable pub finalize_one : Host → ℕ → Text × ℕ → Process → Process
finalize_one h thread (logger_name, p) s =
    let flushed = modify_in p (Logger.flush h thread) s in
    record flushed {
      registry = LoggerController.unregister_logger flushed.store logger_name flushed.registry;
    }

finalize_all : Host → ℕ → List (Text × ℕ) → Process → Process
unfolding finalize_one
finalize_all h thread [] s = s
finalize_all h thread (entry ∷ rest) s = finalize_all h thread rest (finalize_one h thread entry s)

-- `finalize`, which leaves the manager with no loggers.
unfoldable pub finalize : Host → ℕ → LogManager → Process → LogManager × Process
unfolding finalize_all
finalize h thread m s = (new, finalize_all h thread m.loggers s)
