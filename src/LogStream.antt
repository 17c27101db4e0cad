-- ===== src/LogStream.antt =====
-- core/log_stream.h and log_stream.cpp: one message, collected by `<<` and logged by the destructor.
pub mod Names
pub mod Delivery
use vnelogging.Common.{ℕ, Bool, Option, none, some, [], ◌++◌, Text, get_elem?, if◌then◌else◌}
use vnelogging.LogLevel.{LogLevel, at_least}
use vnelogging.TimeStamp.{TimeStampType}
use vnelogging.Host.{Host}
use vnelogging.LogFormatter.{LogRecord}
use vnelogging.Logger
use vnelogging.Logger.{Logger, get_current_log_level}
use vnelogging.LoggerController
use vnelogging.Process.{Process, modify_in}

pub record LogStream : Type 0 where
  pub logger_name : Text
  pub category : Text
  pub log_level : LogLevel
  pub time_stamp_type : TimeStampType
  pub file : Text
  pub function : Text
  pub line : ℕ
  pub msg_stream : Text

-- `LogStream(…)`
unfoldable pub new : Text → Text → LogLevel → TimeStampType → Text → Text → ℕ → LogStream
new logger_name category level time_stamp_type file function line = record {
  logger_name = logger_name;
  category = category;
  log_level = level;
  time_stamp_type = time_stamp_type;
  file = file;
  function = function;
  line = line;
  msg_stream = [];
}

-- `operator<<`, for a message by its text.
unfoldable pub append : Text → LogStream → LogStream
append msg s = record s { msg_stream = s.msg_stream ++ msg }

abbrev pub to_record : LogStream → LogRecord
to_record s = record {
  name = s.category;
  level = s.log_level;
  time_stamp_type = s.time_stamp_type;
  message = s.msg_stream;
  file = s.file;
  function = s.function;
  line = s.line;
}

passes : LogStream → Option Logger → Bool
passes s none = Bool.false
passes s (some l) = at_least s.log_level (get_current_log_level l)

log_to : Host → ℕ → LogStream → Process → Option ℕ → Process
unfolding passes
log_to h thread s state none = state
log_to h thread s state (some p) =
    if passes s (get_elem? state.store p)
    then modify_in p (Logger.log h thread (to_record s)) state
    else state

-- `~LogStream`
unfoldable pub destroy : Host → ℕ → LogStream → Process → Process
unfolding log_to
destroy h thread s state =
    log_to h thread s state (LoggerController.get_logger state.store s.logger_name state.registry)
