-- ===== src/Logging/Statement.antt =====
-- logging.h: a statement that logs, and the record that it makes.
use vnelogging.Common.{ℕ, ◌≡◌, refl, Text}
use vnelogging.LogLevel.{LogLevel}
use vnelogging.TimeStamp.{local}
use vnelogging.LogFormatter.{LogRecord}
use vnelogging.LogStream
use vnelogging.LogStream.{LogStream, to_record}
use vnelogging.Logging.Calls.{Call, message}
use vnelogging.Logging.Macros.{Site, vne_log_impl}

-- `VNE_LOG_IMPL(logger, category, level) << text` at a place in the source.
pub record Statement : Type 0 where
  pub category : Text
  pub level : LogLevel
  pub site : Site
  pub text : Text

unfoldable pub stream : Text → Statement → LogStream
stream name s = LogStream.append s.text (vne_log_impl name s.category s.level s.site)

-- The record that its sinks get.
unfoldable pub record_of : Statement → LogRecord
record_of s = record {
  name = s.category;
  level = s.level;
  time_stamp_type = local;
  message = s.text;
  file = s.site.file;
  function = s.site.function;
  line = s.site.line;
}

pub record_of-stream : (name : Text) (s : Statement) → to_record (stream name s) ≡ record_of s
unfolding stream record_of LogStream.append LogStream.new vne_log_impl
record_of-stream name s = refl

abbrev pub record_by : ℕ × Statement → ℕ × LogRecord
record_by (thread, s) = (thread, record_of s)

-- A statement on a thread, as a call.
unfoldable pub say : Text → ℕ × Statement → ℕ × Call
say name (thread, s) = (thread, message (stream name s))
