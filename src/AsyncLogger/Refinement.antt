-- ===== src/AsyncLogger/Refinement.antt =====
-- The asynchronous logger against the synchronous one.
use vnelogging.Common.{
  ℕ, ◌≡◌, refl, ap, ◌∙◌, Bool, true, false, inl, inr, List, [], ◌∷◌, ◌++◌, Bool-cases,
  if◌then◌else◌,
}
use vnelogging.LogLevel.{LogLevel, at_least}
use vnelogging.Host.{Host, World, M, pure, ◌>>=◌}
use vnelogging.LogFormatter.{LogRecord}
use vnelogging.LogSink.{LogSink}
use vnelogging.SyncLogger
use vnelogging.SyncLogger.{SyncLogger, log_each, flush_each}
use vnelogging.LogQueue
use vnelogging.LogQueueWorker.{Task, message, dummy}
use vnelogging.LogDispatcher
use vnelogging.LogDispatcher.{LogDispatcher, run_tasks}
use vnelogging.AsyncLogger
use vnelogging.AsyncLogger.{AsyncLogger}

module _ (h : Host) (thread : ℕ) where
  run_tasks-snoc :
      (tasks : List (Task LogRecord)) (r : LogRecord) (sinks : List LogSink) (w : World)
      → run_tasks h thread (tasks ++ message r ∷ []) sinks w
        ≡ (do sinks' ← run_tasks h thread tasks sinks; log_each h thread r sinks') w
  unfolding run_tasks
  run_tasks-snoc [] r sinks w = refl
  run_tasks-snoc (dummy ∷ rest) r sinks w = run_tasks-snoc rest r sinks w
  run_tasks-snoc (message q ∷ rest) r sinks w =
      let (sinks', w') = log_each h thread q sinks w in run_tasks-snoc rest r sinks' w'

  -- Calls of `log`, one after the other, and then `flush`.
  unfoldable pub log_all_async : List LogRecord → AsyncLogger → M AsyncLogger
  log_all_async [] l = AsyncLogger.flush h thread l
  log_all_async (r ∷ rs) l = do l' ← AsyncLogger.log h thread r l; log_all_async rs l'

  unfoldable pub log_all_sync : List LogRecord → SyncLogger → M SyncLogger
  log_all_sync [] s = pure (SyncLogger.flush s)
  log_all_sync (r ∷ rs) s = do s' ← SyncLogger.log h thread r s; log_all_sync rs s'

  -- The asynchronous logger is behind by the tasks of its queue, and by nothing else.
  record IsBehind (l : AsyncLogger) (w : World) (s : SyncLogger) (v : World) : Type 0 where
    current : l.current_log_level ≡ s.current_log_level
    flushing : l.flush_level ≡ s.flush_level
    behind : run_tasks h thread l.dispatcher.log_queue.items l.log_sinks w ≡ (s.log_sinks, v)

  dispatched :
      (r : LogRecord) (l : AsyncLogger) (w : World) (s : SyncLogger) (v : World)
      → IsBehind l w s v
      → run_tasks h thread (LogDispatcher.dispatch r l.dispatcher).log_queue.items l.log_sinks w
        ≡ log_each h thread r s.log_sinks v
  unfolding LogDispatcher.dispatch LogQueue.push
  dispatched r l w s v b =
      run_tasks-snoc l.dispatcher.log_queue.items r l.log_sinks w ∙ rw b.behind refl

  -- The three branches of each `log`.
  pub async-dropped :
      (r : LogRecord) (l : AsyncLogger) (w : World)
      → at_least r.level l.current_log_level ≡ false
      → AsyncLogger.log h thread r l w ≡ (l, w)
  unfolding AsyncLogger.log
  async-dropped r l w no_one = rw (no_one, AsyncLogger.log) refl

  pub async-calm :
      (r : LogRecord) (l : AsyncLogger) (w : World)
      → at_least r.level l.current_log_level ≡ true
      → at_least r.level l.flush_level ≡ false
      → AsyncLogger.log h thread r l w
        ≡ (record l { dispatcher = LogDispatcher.dispatch r l.dispatcher }, w)
  unfolding AsyncLogger.log
  async-calm r l w wanted calm = rw (wanted, calm, AsyncLogger.log) refl

  pub async-urgent :
      (r : LogRecord) (l : AsyncLogger) (w : World)
      → at_least r.level l.current_log_level ≡ true
      → at_least r.level l.flush_level ≡ true
      → AsyncLogger.log h thread r l w
        ≡ AsyncLogger.flush h thread
            (record l { dispatcher = LogDispatcher.dispatch r l.dispatcher })
            w
  unfolding AsyncLogger.log
  async-urgent r l w wanted urgent = rw (wanted, urgent, AsyncLogger.log) refl

  sync-dropped :
      (r : LogRecord) (s : SyncLogger) (v : World)
      → at_least r.level s.current_log_level ≡ false
      → SyncLogger.log h thread r s v ≡ (s, v)
  unfolding SyncLogger.log
  sync-dropped r s v no_one = rw (no_one, SyncLogger.log) refl

  sync-wanted :
      (r : LogRecord) (s : SyncLogger) (v : World) (b : Bool)
      → at_least r.level s.current_log_level ≡ true
      → at_least r.level s.flush_level ≡ b
      → SyncLogger.log h thread r s v ≡ (
          let (sinks, v') = log_each h thread r s.log_sinks v in
          (record s { log_sinks = if b then flush_each sinks else sinks }, v'))
  unfolding SyncLogger.log
  sync-wanted r s v b wanted e = rw (wanted, e, SyncLogger.log) refl

  async-flush :
      (l : AsyncLogger) (w v : World) (sinks : List LogSink)
      → run_tasks h thread l.dispatcher.log_queue.items l.log_sinks w ≡ (sinks, v)
      → AsyncLogger.flush h thread l w
        ≡ (record l { dispatcher = LogDispatcher.new; log_sinks = flush_each sinks }, v)
  unfolding AsyncLogger.flush LogDispatcher.flush
  async-flush l w v sinks e = rw e refl

  -- What `log` and `flush` do when the queue is behind.
  log-IsBehind :
      (r : LogRecord) (l : AsyncLogger) (w : World) (s : SyncLogger) (v : World)
      → IsBehind l w s v
      → let (l', w') = AsyncLogger.log h thread r l w in
        let (s', v') = SyncLogger.log h thread r s v in IsBehind l' w' s' v'
  log-IsBehind r l w s v b = elim (Bool-cases (at_least r.level s.current_log_level)) [
    | inl wanted ↦ elim (Bool-cases (at_least r.level s.flush_level)) [
      | inl urgent ↦
          rw
            (
              async-urgent r l w (level l.current_log_level _ b.current ∙ wanted)
                  (level l.flush_level _ b.flushing ∙ urgent),
              sync-wanted r s v true wanted urgent,
              async-flush (record l { dispatcher = LogDispatcher.dispatch r l.dispatcher }) w _ _
                  (dispatched r l w s v b),
            )
            (record { current = b.current; flushing = b.flushing; behind = drained _ _ })
      | inr calm ↦
          rw
            (
              async-calm r l w (level l.current_log_level _ b.current ∙ wanted)
                  (level l.flush_level _ b.flushing ∙ calm),
              sync-wanted r s v false wanted calm,
            )
            (record { current = b.current; flushing = b.flushing; behind = dispatched r l w s v b })
    ]
    | inr dropped ↦
        rw
          (
            async-dropped r l w (level l.current_log_level _ b.current ∙ dropped),
            sync-dropped r s v dropped,
          )
          b
  ]
    where
      level : (a b : LogLevel) → a ≡ b → at_least r.level a ≡ at_least r.level b
      level a b e = ap (at_least r.level) e

      drained : (sinks : List LogSink) (u : World) → run_tasks h thread [] sinks u ≡ (sinks, u)
      drained sinks u = unfold run_tasks in refl

  flush-IsBehind :
      (l : AsyncLogger) (w : World) (s : SyncLogger) (v : World)
      → IsBehind l w s v
      → ((AsyncLogger.flush h thread l w).0.log_sinks ≡ (SyncLogger.flush s).log_sinks)
        × ((AsyncLogger.flush h thread l w).0.dispatcher.log_queue.items ≡ [])
        × ((AsyncLogger.flush h thread l w).1 ≡ v)
  unfolding SyncLogger.flush
  flush-IsBehind l w s v b = rw (async-flush l w v s.log_sinks b.behind) (refl, refl, refl)

  log_all-IsBehind :
      (rs : List LogRecord) (l : AsyncLogger) (w : World) (s : SyncLogger) (v : World)
      → IsBehind l w s v
      → let (l', w') = log_all_async rs l w in
        let (s', v') = log_all_sync rs s v in
        (l'.log_sinks ≡ s'.log_sinks) × (l'.dispatcher.log_queue.items ≡ []) × (w' ≡ v')
  unfolding log_all_async log_all_sync
  log_all-IsBehind [] l w s v b = flush-IsBehind l w s v b
  log_all-IsBehind (r ∷ rs) l w s v b =
      let (l', w') = AsyncLogger.log h thread r l w in
      let (s', v') = SyncLogger.log h thread r s v in
      log_all-IsBehind rs l' w' s' v' (log-IsBehind r l w s v b)

  -- Under one clock, which gives the j-th reading of both runs the same time, an asynchronous logger
  -- with an empty queue does what a synchronous one does: for any calls of `log` followed by `flush`,
  -- on loggers with the same levels and sinks and with no turn of the worker in between, the sinks
  -- and the rest of the process end the same, and the queue is empty.
  pub log_all-eq :
      (rs : List LogRecord) (l : AsyncLogger) (s : SyncLogger) (w : World)
      → l.dispatcher.log_queue.items ≡ []
      → l.current_log_level ≡ s.current_log_level
      → l.flush_level ≡ s.flush_level
      → l.log_sinks ≡ s.log_sinks
      → let (l', w') = log_all_async rs l w in
        let (s', v') = log_all_sync rs s w in
        (l'.log_sinks ≡ s'.log_sinks) × (l'.dispatcher.log_queue.items ≡ []) × (w' ≡ v')
  unfolding run_tasks
  log_all-eq rs l s w idle current flushing sinks =
      log_all-IsBehind rs l w s w
        (record { current = current; flushing = flushing; behind = rw (idle, sinks) refl })
