-- ===== src/Examples/Async.antt =====
-- An asynchronous logger and its threads at work, below the flush level.
use vnelogging.Common.{ℕ, zero, suc, ◌≡◌, refl, true, List, [], ◌∷◌, ◌++◌, All, arith, Text, codes}
use vnelogging.LogLevel.{info, debug, error}
use vnelogging.Host.{initial}
use vnelogging.LogFormatter.{LogRecord}
use vnelogging.LogSink.{FileLogSink}
use vnelogging.SyncLogger.Lines.{lines}
use vnelogging.AsyncLogger.Written.{with_text}
use vnelogging.AsyncLogger.Crowd.{Turn, calls, works, stops}
use vnelogging.AsyncLogger.Crowd.Quiet.{Todo, logged_by, count_works}
use vnelogging.AsyncLogger.Crowd.Simulated.{IsBy}
use vnelogging.AsyncLogger.Crowd.InOrder.{
  after, sinks_of, lines_for, written_in_order, logged_written,
}
use vnelogging.Examples.Data.{host, started}

abbrev log_file : FileLogSink
log_file = record {
  pattern = codes "%v";
  file_stream = record { is_open = true; accepted = codes "old"; flushed = [] };
  file_name = codes "app.log";
  is_append = true;
}

abbrev detail : LogRecord
detail = record started { level = debug }

abbrev crowd : Todo
crowd = (1, started ∷ detail ∷ []) ∷ (2, started ∷ started ∷ []) ∷ []

abbrev mixed : List Turn
mixed = works ∷ calls 0 ∷ works ∷ calls 1 ∷ calls 0 ∷ works ∷ calls 1 ∷ stops ∷ stops ∷ []

written_in_order_example :
    let s = after host info error 9 log_file initial crowd mixed in
    (written : Text) × (unwritten : Text) × (sinks_of host info error 9 log_file initial crowd s
      ≡ with_text host 9 info log_file initial written)
    × (lines_for host info error 9 log_file initial crowd mixed ≡ written ++ unwritten)
    × All (IsBy 9) s.history
written_in_order_example =
    written_in_order host info error 9 log_file initial crowd refl
      ((refl, (refl, tt)), ((refl, (refl, tt)), tt)) mixed

abbrev burst : List Turn
burst = calls 0 ∷ calls 1 ∷ works ∷ calls 0 ∷ []

abbrev worker_only : ℕ → List Turn
worker_only zero = []
worker_only (suc n) = works ∷ worker_only n

logged_written_example :
    (more : Text) × (sinks_of host info error 9 log_file initial crowd
        (after host info error 9 log_file initial crowd (burst ++ worker_only 15))
      ≡ with_text host 9 info log_file initial
          ((lines host 9 info (codes "%v") (started ∷ started ∷ detail ∷ []) initial).0 ++ more))
unfolding logged_by count_works
logged_written_example =
    logged_written host info error 9 log_file initial crowd refl
      ((refl, (refl, tt)), ((refl, (refl, tt)), tt)) burst (worker_only 15) (omega arith)
      (omega arith) (omega arith)

-- What the thread with the number 2 logs beside the one with the number 1.
in_turn : logged_by mixed crowd ≡ started ∷ started ∷ detail ∷ started ∷ []
unfolding logged_by
in_turn = refl
