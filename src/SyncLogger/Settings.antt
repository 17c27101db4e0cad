-- ===== src/SyncLogger/Settings.antt =====
-- sync_logger.cpp: what `log` leaves alone.
use vnelogging.Common.{ℕ, ◌≡◌, refl, ap, ◌∙◌, inl, inr, List, [], ◌∷◌, Bool-cases}
use vnelogging.LogLevel.{at_least}
use vnelogging.Host.{Host, World}
use vnelogging.LogFormatter.{LogRecord}
use vnelogging.LogSink.{LogSink}
use vnelogging.SyncLogger.{SyncLogger, log}
use vnelogging.SyncLogger.Lines.{log_by}

-- The same logger with other sinks.
abbrev pub with_sinks : SyncLogger → List LogSink → SyncLogger
with_sinks l sinks = record l { log_sinks = sinks }

log-with_sinks :
    (h : Host) (thread : ℕ) (r : LogRecord) (l : SyncLogger) (w : World)
    → (log h thread r l w).0 ≡ with_sinks l (log h thread r l w).0.log_sinks
unfolding log
log-with_sinks h thread r l w = elim (Bool-cases (at_least r.level l.current_log_level)) [
  | inl wanted ↦ rw wanted refl
  | inr dropped ↦ rw dropped refl
]

pub log_by-with_sinks :
    (h : Host) (rs : List (ℕ × LogRecord)) (l : SyncLogger) (w : World)
    → let l' = (log_by h rs l w).0 in l' ≡ with_sinks l l'.log_sinks
unfolding log_by
log_by-with_sinks h [] l w = refl
log_by-with_sinks h ((thread, r) ∷ rs) l w =
    let (l', w') = log h thread r l w in
    let l'' = (log_by h rs l' w').0 in
    log_by-with_sinks h rs l' w'
    ∙ ap (λ k. with_sinks k l''.log_sinks) (log-with_sinks h thread r l w)
