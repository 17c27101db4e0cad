-- ===== src/Logger/Calls.antt =====
-- core/logger.h: calls of `log` on a logger of either class.
use vnelogging.Common.{ℕ, ◌≡◌, refl, false, List, [], ◌∷◌}
use vnelogging.LogLevel.{at_least}
use vnelogging.Host.{Host, World, M, pure, ◌>>=◌}
use vnelogging.LogFormatter.{LogRecord}
use vnelogging.SyncLogger
use vnelogging.SyncLogger.{SyncLogger}
use vnelogging.SyncLogger.Lines
use vnelogging.AsyncLogger
use vnelogging.AsyncLogger.{AsyncLogger}
use vnelogging.AsyncLogger.Refinement.{async-dropped, log_all_async, log_all_sync}
use vnelogging.Logger.{Logger, sync, async, get_current_log_level, log, flush}

pub log-dropped :
    (h : Host) (thread : ℕ) (r : LogRecord) (l : Logger) (w : World)
    → at_least r.level (get_current_log_level l) ≡ false
    → log h thread r l w ≡ (l, w)
unfolding log
log-dropped h thread r (sync l) w dropped =
    rw (SyncLogger.Lines.log-dropped h thread r l w dropped) refl
log-dropped h thread r (async l) w dropped = rw (async-dropped h thread r l w dropped) refl

-- Calls of `log`, one after the other.
unfoldable pub log_all : Host → ℕ → List LogRecord → Logger → M Logger
log_all h thread [] l = pure l
log_all h thread (r ∷ rs) l = do l' ← log h thread r l; log_all h thread rs l'

-- The same on any threads.
unfoldable pub log_by : Host → List (ℕ × LogRecord) → Logger → M Logger
log_by h [] l = pure l
log_by h ((thread, r) ∷ rs) l = do l' ← log h thread r l; log_by h rs l'

pub log_by-sync :
    (h : Host) (rs : List (ℕ × LogRecord)) (l : SyncLogger) (w : World)
    → log_by h rs (sync l) w ≡ (let (l', w') = SyncLogger.Lines.log_by h rs l w in (sync l', w'))
unfolding log_by log SyncLogger.Lines.log_by
log_by-sync h [] l w = refl
log_by-sync h ((thread, r) ∷ rs) l w =
    let (l', w') = SyncLogger.log h thread r l w in log_by-sync h rs l' w'

-- With a flush behind them.
pub log_all-async :
    (h : Host) (thread : ℕ) (rs : List LogRecord) (l : AsyncLogger) (w : World)
    → (do l' ← log_all h thread rs (async l); flush h thread l') w
      ≡ (let (l', w') = log_all_async h thread rs l w in (async l', w'))
unfolding log_all log flush log_all_async
log_all-async h thread [] l w = refl
log_all-async h thread (r ∷ rs) l w =
    let (l', w') = AsyncLogger.log h thread r l w in log_all-async h thread rs l' w'

-- A synchronous logger after the calls and a flush.
pub log_all_sync-eq :
    (h : Host) (thread : ℕ) (rs : List LogRecord) (l : SyncLogger) (w : World)
    → log_all_sync h thread rs l w
      ≡ (let (l', w') = SyncLogger.Lines.log_all h thread rs l w in (SyncLogger.flush l', w'))
unfolding log_all_sync SyncLogger.Lines.log_all
log_all_sync-eq h thread [] l w = refl
log_all_sync-eq h thread (r ∷ rs) l w =
    let (l', w') = SyncLogger.log h thread r l w in log_all_sync-eq h thread rs l' w'
