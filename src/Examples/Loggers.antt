-- ===== src/Examples/Loggers.antt =====
-- The loggers at work.
use vnelogging.Common.{ℕ, ◌+◌, List, ◌≡◌, refl, true, false, [], ◌∷◌, ◌++◌, codes}
use vnelogging.Host.{Host, initial}
use vnelogging.LogFormatter.Pieces.{pieces, render}
use vnelogging.LogSink.{
  LogSink, console, file, new_console, new_file, line_color, log_console, FileLogSink,
}
use vnelogging.LogSink.Opening.{Result, new_file-Result}
use vnelogging.LogSink.Lines.{line_bytes, log_console-line}
use vnelogging.TextColor.{is_color_enabled}
use vnelogging.LogFormatter.{LogRecord, field_of}
use vnelogging.SyncLogger
use vnelogging.SyncLogger.{SyncLogger, flush_each}
use vnelogging.SyncLogger.Lines.{log_by, lines_by, on_disk}
use vnelogging.SyncLogger.Delivery.{log_by-lines}
use vnelogging.LogQueueWorker.{message}
use vnelogging.AsyncLogger
use vnelogging.AsyncLogger.{AsyncLogger}
use vnelogging.AsyncLogger.Refinement.{log_all_async, log_all_sync}
use vnelogging.AsyncLogger.Untimed.{untimed_refines}
use vnelogging.TimeStamp.{TimeProvider}
use vnelogging.Logger
use vnelogging.Logger.{Logger, async, get_log_sinks}
use vnelogging.Logger.Durable.{IsDelivered, log_records, log-flushed}
use vnelogging.LogQueueWorker.Messages.{messages}
use vnelogging.Examples.Data.{host, clock, started, failed}

abbrev untimed_console : LogSink
untimed_console = console (record { pattern = codes "%t [%l] %v" })

abbrev sync_logger : SyncLogger
sync_logger = SyncLogger.add_log_sink untimed_console (SyncLogger.new (codes "app"))

abbrev async_logger : AsyncLogger
async_logger = AsyncLogger.add_log_sink untimed_console (AsyncLogger.new (codes "app"))

-- A clock that is an hour later at each reading.
abbrev hours_later : TimeProvider
hours_later = record clock { now = λ k. 3600 + k }

untimed_refines_example :
    let later_host = record host { time = hours_later } in
    let (l, w) =
      log_all_async later_host 1 (started ∷ failed ∷ started ∷ []) async_logger initial in
    let (s, v) = log_all_sync host 1 (started ∷ failed ∷ started ∷ []) sync_logger initial in
    (l.log_sinks ≡ s.log_sinks) × (l.dispatcher.log_queue.items ≡ []) × (w ≡ v)
unfolding SyncLogger.new AsyncLogger.new SyncLogger.add_log_sink AsyncLogger.add_log_sink pieces
    field_of
untimed_refines_example =
    untimed_refines host hours_later 1 (started ∷ failed ∷ started ∷ []) async_logger sync_logger
      initial ((tt, (tt, (tt, (tt, (tt, (tt, (tt, tt))))))), tt) refl refl refl refl

abbrev log_file : FileLogSink
log_file = record {
  pattern = codes "%x [%t] %v";
  file_stream = record { is_open = true; accepted = codes "old"; flushed = [] };
  file_name = codes "app.log";
  is_append = true;
}

abbrev file_logger : SyncLogger
file_logger = SyncLogger.add_log_sink (file log_file) (SyncLogger.new (codes "app"))

abbrev two_threads : List (ℕ × LogRecord)
two_threads = (1, started) ∷ (7, failed) ∷ (1, started) ∷ []

log_by-lines_example :
    let (l, w) = log_by host two_threads file_logger initial in
    let (s, v) = lines_by host file_logger.current_log_level log_file.pattern two_threads initial in
    ((SyncLogger.flush l).log_sinks ≡ file (on_disk log_file (codes "old" ++ s)) ∷ []) × (w ≡ v)
unfolding SyncLogger.new SyncLogger.add_log_sink
log_by-lines_example = log_by-lines host two_threads log_file file_logger initial refl refl

log_console-line_example :
    (log_console host 1 failed new_console initial).1.stdout
    ≡ initial.stdout
      ++ line_bytes
          (line_color failed.level)
          (is_color_enabled host initial).0
          (render host 1 failed (pieces new_console.pattern) initial).0
log_console-line_example = log_console-line host 1 failed new_console initial

-- A host whose disk is full.
abbrev full : Host
full = record host { open_file = λ k path append. false }

new_file-Result_example :
    let (sink, v) = new_file full (codes "app.log") true initial in
    (sink.file_name ≡ codes "app.log")
    × (sink.is_append ≡ true)
    × (v.stdout ≡ initial.stdout)
    × Result full (codes "app.log") sink.file_stream initial.stderr v.stderr
new_file-Result_example = new_file-Result full (codes "app.log") true initial

-- An asynchronous logger with the file and a message that waits.
abbrev busy_logger : Logger
busy_logger = async (
    AsyncLogger.add_log_sink (file log_file) (record (AsyncLogger.new (codes "app")) {
      dispatcher = record { log_queue = record { items = message started ∷ [] } };
    }))

log-flushed_example :
    let records = started ∷ failed ∷ [] in
    let (l, w) = Logger.log host 1 failed busy_logger initial in
    IsDelivered host 1 records (file log_file ∷ []) initial l
    × (w ≡ (log_records host 1 records (file log_file ∷ []) initial).1)
unfolding messages AsyncLogger.add_log_sink AsyncLogger.new
log-flushed_example = log-flushed host 1 failed busy_logger initial refl refl
