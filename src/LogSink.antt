-- ===== src/LogSink.antt =====
-- core/log_sink.h, console_log_sink.{h,cpp} and file_log_sink.{h,cpp}: the two classes of sinks.
-- An output file stream is what it has accepted and what a flush has handed to the system; what the
-- system does with the bytes of several streams on one file is not modelled.
pub mod Lines
pub mod Opening
use vnelogging.Common.{ℕ, Bool, true, false, [], ◌∷◌, ◌++◌, Text, codes, is_empty, if◌then◌else◌}
use vnelogging.LogLevel.{LogLevel, trace, debug, info, warn, error, fatal}
use vnelogging.TextColor
use vnelogging.TextColor.{
  TextColor, DisplayAttributes, normal, bold, FgColorCode, BgColorCode, get_reset_sequence,
}
use vnelogging.Host.{
  Host, Outcome, returned, thrown, M, pure, ◌>>=◌, ◌>>◌, tick, write_out, write_err,
}
use vnelogging.LogFormatter.{LogRecord, format}

-- `std::ofstream`
pub record FileStream : Type 0 where
  pub is_open : Bool
  pub accepted : Text
  pub flushed : Text

pub record ConsoleLogSink : Type 0 where
  pub pattern : Text

pub record FileLogSink : Type 0 where
  pub pattern : Text
  pub file_stream : FileStream
  pub file_name : Text
  pub is_append : Bool

-- `ILogSink`, by class.
pub data LogSink : Type 0 where
  console : ConsoleLogSink → LogSink
  file : FileLogSink → LogSink

abbrev pub closed : FileStream
closed = record { is_open = false; accepted = []; flushed = [] }

-- `ConsoleLogSink()`
unfoldable pub new_console : ConsoleLogSink
new_console = record { pattern = codes "%x [%l] %v" }

-- What the constructor of `FileLogSink` does in its `try` block: the stream, or the exception.
make_directory : Host → Text → M (Outcome Bool)
make_directory h directory = do k ← tick; pure (h.create_directories k directory)

unless_there : Host → Text → Outcome Bool → M (Outcome Bool)
unfolding make_directory
unless_there h directory (returned true) = pure (returned true)
unless_there h directory (returned false) = make_directory h directory
unless_there h directory (thrown what) = pure (thrown what)

-- `!directory.empty() && !exists(directory)`, then `create_directories`.
ensure_parent : Host → Text → M (Outcome Bool)
unfolding unless_there
ensure_parent h directory =
    if is_empty directory
    then pure (returned true)
    else (do k ← tick; unless_there h directory (h.exists k directory))

open_stream : Host → Text → Bool → M (Outcome FileStream)
open_stream h filename append = do
  k ← tick
  pure (
      if h.open_file k filename append
      then returned (record { is_open = true; accepted = []; flushed = [] })
      else thrown (codes "Couldn't open file " ++ (filename ++ codes " for write.")))

-- After the directory, if it did not throw.
open_after : Host → Text → Bool → Outcome Bool → M (Outcome FileStream)
unfolding open_stream
open_after h filename append (returned _) = open_stream h filename append
open_after h filename append (thrown what) = pure (thrown what)

try_open : Host → Text → Bool → M (Outcome FileStream)
unfolding ensure_parent open_after
try_open h filename append =
    if is_empty filename
    then pure (thrown (codes "No log file specified."))
    else do made ← ensure_parent h (h.parent_path filename); open_after h filename append made

-- The `catch` clause reports on `std::cerr` and leaves the stream closed.
caught : Outcome FileStream → M FileStream
caught (returned stream) = pure stream
caught (thrown what) = do write_err (codes "[ERROR] : " ++ (what ++ b'\n' ∷ [])); pure closed

-- `FileLogSink(filename, append)`
unfoldable pub new_file : Host → Text → Bool → M FileLogSink
unfolding try_open caught
new_file h filename append = do
  opened ← try_open h filename append
  stream ← caught opened
  pure (record {
    pattern = codes "%x [%l] [%!] %v";
    file_stream = stream;
    file_name = filename;
    is_append = append;
  })

-- The colour of a line. The default branch of the `switch` is for a value that is no enumerator.
unfoldable pub line_color : LogLevel → TextColor
line_color trace = record {
  attributes = normal;
  foreground_color = FgColorCode.light_gray;
  background_color = BgColorCode.default_color;
}
line_color debug = record {
  attributes = normal;
  foreground_color = FgColorCode.blue;
  background_color = BgColorCode.default_color;
}
line_color info = record {
  attributes = normal;
  foreground_color = FgColorCode.green;
  background_color = BgColorCode.default_color;
}
line_color warn = record {
  attributes = bold;
  foreground_color = FgColorCode.yellow;
  background_color = BgColorCode.default_color;
}
line_color error = record {
  attributes = bold;
  foreground_color = FgColorCode.red;
  background_color = BgColorCode.default_color;
}
line_color fatal = record {
  attributes = bold;
  foreground_color = FgColorCode.magenta;
  background_color = BgColorCode.default_color;
}

-- `ConsoleLogSink::log`
unfoldable pub log_console : Host → ℕ → LogRecord → ConsoleLogSink → M (Unit {0})
log_console h thread r sink = do
  formatted ← format h thread r sink.pattern
  color ← TextColor.print h (line_color r.level)
  reset ← get_reset_sequence h
  write_out (color ++ (formatted ++ (reset ++ b'\n' ∷ [])))

-- `file_stream_ << text`: a stream that is not open takes nothing.
abbrev pub stream_write : Text → FileStream → FileStream
stream_write text s = if s.is_open then record s { accepted = s.accepted ++ text } else s

abbrev pub stream_flush : FileStream → FileStream
stream_flush s = if s.is_open then record s { flushed = s.accepted } else s

-- `FileLogSink::log`
unfoldable pub log_file : Host → ℕ → LogRecord → FileLogSink → M FileLogSink
log_file h thread r sink = do
  formatted ← format h thread r sink.pattern
  pure (record sink { file_stream = stream_write (formatted ++ b'\n' ∷ []) sink.file_stream })

-- `ILogSink::log`
unfoldable pub log : Host → ℕ → LogRecord → LogSink → M LogSink
unfolding log_console log_file
log h thread r (console sink) = do log_console h thread r sink; pure (console sink)
log h thread r (file sink) = do sink' ← log_file h thread r sink; pure (file sink')

-- `ILogSink::flush`
unfoldable pub flush : LogSink → LogSink
flush (console sink) = console sink
flush (file sink) = file (record sink { file_stream = stream_flush sink.file_stream })

unfoldable pub get_pattern : LogSink → Text
get_pattern (console sink) = sink.pattern
get_pattern (file sink) = sink.pattern

unfoldable pub set_pattern : Text → LogSink → LogSink
set_pattern p (console sink) = console (record sink { pattern = p })
set_pattern p (file sink) = file (record sink { pattern = p })

-- `ILogSink::clone`
unfoldable pub clone : Host → LogSink → M LogSink
unfolding new_console
clone h (console sink) = pure (console new_console)
clone h (file sink) = do sink' ← new_file h sink.file_name sink.is_append; pure (file sink')

-- `~FileLogSink` closes the stream, which writes out what it holds.
unfoldable pub close : LogSink → LogSink
close (console sink) = console sink
close (file sink) =
    file (record sink { file_stream = record (stream_flush sink.file_stream) { is_open = false } })
