-- ===== src/Logging.antt =====
-- include/vertexnova/logging/logging.h and src/vertexnova/logging/logging.cpp: the static functions
-- that applications call. `s_log_manager` is null until one of them makes a manager.
pub mod Paths
pub mod Calls
pub mod Agreement
pub mod Kinds
pub mod Still
pub mod Isolation
pub mod Defaults
pub mod Holds
pub mod Configured
pub mod Sinks
pub mod Configure
pub mod Reconfigure
pub mod Macros
pub mod Statement
pub mod Messages
pub mod Session
pub mod EndToEnd
pub mod AsyncSession
use vnelogging.Common.{
  ℕ, Bool, true, false, ◌||◌, Option, none, some, [], Text, codes, is_empty, if◌then◌else◌,
}
use vnelogging.LogLevel.{LogLevel}
use vnelogging.Host.{Host, Platform, web}
use vnelogging.LogManager
use vnelogging.LogManager.{LogManager}
use vnelogging.Process.{Process}

pub data LogSinkType : Type 0 where
  no_sink console_sink file_sink both_sinks : LogSinkType

pub record LoggerConfig : Type 0 where
  pub name : Text
  pub sink : LogSinkType
  pub console_pattern : Text
  pub file_pattern : Text
  pub file_path : Text
  pub log_level : LogLevel
  pub flush_level : LogLevel
  pub is_async : Bool

abbrev pub default_logger_name : Text
default_logger_name = codes "vertexnova"

pub record App : Type 0 where
  pub log_manager : Option LogManager
  pub process : Process

-- `if (!s_log_manager) s_log_manager = std::make_shared<LogManager>()`
abbrev pub or_new : Option LogManager → LogManager
or_new none = LogManager.new
or_new (some m) = m

-- A function that makes the manager if need be, and calls a method that does not change it.
abbrev pub with_manager : (LogManager → Process → Process) → App → App
with_manager f a = record {
  log_manager = some (or_new a.log_manager);
  process = f (or_new a.log_manager) a.process;
}

unfoldable pub initialize : Text → Bool → App → App
initialize name is_async a =
    let made = LogManager.create_logger name is_async (or_new a.log_manager) a.process in
    record { log_manager = some made.manager; process = made.process }

shut : Host → ℕ → App → Option LogManager → App
shut h thread a none = a
shut h thread a (some m) = record {
  log_manager = none;
  process = (LogManager.finalize h thread m a.process).1;
}

unfoldable pub shutdown : Host → ℕ → App → App
unfolding shut
shutdown h thread a = shut h thread a a.log_manager

unfoldable pub is_logger_async : Text → App → Bool
is_logger_async logger_name a = elim a.log_manager [
  | none ↦ false
  | some m ↦ LogManager.is_logger_async logger_name m
]

-- `getLogger` follows `s_log_manager` without a test: the outer `none` is a null dereference, the
-- inner one the null pointer as the result.
unfoldable pub get_logger : Text → App → Option (Option ℕ)
get_logger name a = elim a.log_manager [
  | none ↦ none
  | some m ↦ some (LogManager.get_logger name m)
]

unfoldable pub add_console_sink : Text → App → App
add_console_sink logger_name = with_manager (LogManager.add_console_sink logger_name)

unfoldable pub add_file_sink : Host → Text → Text → App → App
add_file_sink h logger_name path = with_manager (LogManager.add_file_sink h logger_name path)

unfoldable pub set_console_pattern : Text → Text → App → App
set_console_pattern logger_name pattern =
    with_manager (LogManager.set_console_pattern logger_name pattern)

unfoldable pub set_file_pattern : Text → Text → App → App
set_file_pattern logger_name pattern =
    with_manager (LogManager.set_file_pattern logger_name pattern)

unfoldable pub set_log_level : Text → LogLevel → App → App
set_log_level logger_name level = with_manager (LogManager.set_log_level logger_name level)

unfoldable pub set_flush_level : Text → LogLevel → App → App
set_flush_level logger_name level = with_manager (LogManager.set_flush_level logger_name level)

abbrev pub wants_console : LogSinkType → Bool
wants_console console_sink = true
wants_console both_sinks = true
wants_console _ = false

-- On the web no file is ever attached.
abbrev pub wants_file : Platform → LogSinkType → Bool
wants_file web sink = false
wants_file _ file_sink = true
wants_file _ both_sinks = true
wants_file _ _ = false

pub configure_console : LoggerConfig → App → App
configure_console cfg a =
    if wants_console cfg.sink
    then (let a' = add_console_sink cfg.name a in
        if is_empty cfg.console_pattern
        then a'
        else set_console_pattern cfg.name cfg.console_pattern a')
    else a

pub configure_file : Host → LoggerConfig → App → App
configure_file h cfg a =
    if wants_file h.platform cfg.sink
    then (if is_empty cfg.file_path
        then a
        else (let a' = add_file_sink h cfg.name cfg.file_path a in
            if is_empty cfg.file_pattern
            then a'
            else set_file_pattern cfg.name cfg.file_pattern a'))
    else a

unfoldable pub configure_logger : Host → LoggerConfig → App → App
unfolding configure_console configure_file
configure_logger h cfg a = set_flush_level cfg.name cfg.flush_level (
    set_log_level cfg.name cfg.log_level
      (configure_file h cfg (configure_console cfg (initialize cfg.name cfg.is_async a))))
