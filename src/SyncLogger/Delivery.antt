-- ===== src/SyncLogger/Delivery.antt =====
-- sync_logger.cpp and file_log_sink.cpp: what a synchronous logger writes to its file.
use vnelogging.Common.{
  ℕ, ◌≡◌, refl, ap, sym, ◌∙◌, inl, inr, true, List, [], ◌∷◌, ◌++◌, Text, Bool-cases, subst,
}
use vnelogging.LogLevel.{LogLevel, at_least}
use vnelogging.Host.{Host, World}
use vnelogging.LogFormatter.{LogRecord}
use vnelogging.LogSink.{FileLogSink, file}
use vnelogging.SyncLogger.{SyncLogger, flush}
use vnelogging.SyncLogger.Lines.{
  on_disk, log_all, log_by, log_by-one, line, lines, lines_by, lines_by-one, lines_by-above,
  lines_by-below, on_thread,
}
use vnelogging.SyncLogger.Fronts.{
  alone, lines_behind, lines_behind-above, lines_behind-below, log_by-lines_behind,
}

pub lines-alone :
    (h : Host) (level : LogLevel) (pattern : Text) (rs : List (ℕ × LogRecord)) (w : World)
    → lines_behind h (alone h) level pattern rs w ≡ lines_by h level pattern rs w
unfolding lines_by lines_behind
lines-alone h level pattern [] w = refl
lines-alone h level pattern ((thread, r) ∷ rs) w = elim (Bool-cases (at_least r.level level)) [
  | inl above ↦
      let (s, v) = line h thread r pattern w in
      lines_behind-above h (alone h) thread r rs level pattern w above
      ∙ ap (λ (p : Text × World). (s ++ p.0, p.1)) (lines-alone h level pattern rs v)
      ∙ sym (lines_by-above h thread r rs level pattern w above)
  | inr below ↦
      lines_behind-below h (alone h) thread r rs level pattern w below
      ∙ lines-alone h level pattern rs w
      ∙ sym (lines_by-below h thread r rs level pattern w below)
]

-- A synchronous logger with one open file keeps what it is told: after any calls of `log`, on any
-- threads and in any order, and then `flush`, the system has the earlier text of the file and, in
-- that order, one line for each record of the logger's level or above, its pieces, with the number
-- of the thread that logged it, and a newline, and of the others nothing. The rest of the process is
-- as the lines leave it.
pub log_by-lines :
    (h : Host) (rs : List (ℕ × LogRecord)) (sink : FileLogSink) (l : SyncLogger) (w : World)
    → l.log_sinks ≡ file sink ∷ []
    → sink.file_stream.is_open ≡ true
    → let (l', w') = log_by h rs l w in
      let (s, v) = lines_by h l.current_log_level sink.pattern rs w in
      ((flush l').log_sinks ≡ file (on_disk sink (sink.file_stream.accepted ++ s)) ∷ []) × (w' ≡ v)
log_by-lines h rs sink l w e is_open =
    subst
      (λ (p : Text × World).
        let (l', w') = log_by h rs l w in
        ((flush l').log_sinks ≡ file (on_disk sink (sink.file_stream.accepted ++ p.0)) ∷ [])
        × (w' ≡ p.1))
      (lines-alone h l.current_log_level sink.pattern rs w)
      (log_by-lines_behind h (alone h) rs sink l w e is_open)

-- The same on one thread.
pub log_all-lines :
    (h : Host) (thread : ℕ) (rs : List LogRecord) (sink : FileLogSink) (l : SyncLogger) (w : World)
    → l.log_sinks ≡ file sink ∷ []
    → sink.file_stream.is_open ≡ true
    → let (l', w') = log_all h thread rs l w in
      let (s, v) = lines h thread l.current_log_level sink.pattern rs w in
      ((flush l').log_sinks ≡ file (on_disk sink (sink.file_stream.accepted ++ s)) ∷ []) × (w' ≡ v)
log_all-lines h thread rs sink l w e is_open =
    subst
      (λ (q : SyncLogger × World).
        let (s, v) = lines h thread l.current_log_level sink.pattern rs w in
        ((flush q.0).log_sinks ≡ file (on_disk sink (sink.file_stream.accepted ++ s)) ∷ [])
        × (q.1 ≡ v))
      (log_by-one h thread rs l w)
      (subst
        (λ (p : Text × World).
          let (l', w') = log_by h (on_thread thread rs) l w in
          ((flush l').log_sinks ≡ file (on_disk sink (sink.file_stream.accepted ++ p.0)) ∷ [])
          × (w' ≡ p.1))
        (lines_by-one h thread l.current_log_level sink.pattern rs w)
        (log_by-lines h (on_thread thread rs) sink l w e is_open))
