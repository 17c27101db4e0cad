-- ===== src/AsyncLogger/Untimed.antt =====
-- async_logger.cpp, log_formatter.cpp and the sinks: patterns without %x. The time at which a task is
-- run does not matter to them.
use vnelogging.Common.{ℕ, ◌≡◌, refl, sym, ap, subst, ◌∙◌, inl, inr, List, [], ◌∷◌, All, Bool-cases}
use vnelogging.LogLevel.{at_least}
use vnelogging.TimeStamp.{TimeProvider}
use vnelogging.Host.{Host, World}
use vnelogging.LogFormatter.{LogRecord}
use vnelogging.LogSink.{LogSink}
use vnelogging.SyncLogger.{SyncLogger, log_each}
use vnelogging.LogQueueWorker
use vnelogging.LogQueueWorker.{Task, dummy}
use vnelogging.LogDispatcher
use vnelogging.LogDispatcher.{run_tasks}
use vnelogging.AsyncLogger
use vnelogging.AsyncLogger.{AsyncLogger}
use vnelogging.AsyncLogger.Refinement.{
  log_all_async, log_all_sync, log_all-eq, async-dropped, async-calm, async-urgent,
}
use vnelogging.SyncLogger.Untimed.{IsUntimed, flush-IsUntimed, log_each-later, log_each-IsUntimed}

-- The same surroundings with another clock.
module _ (h : Host) (t : TimeProvider) (thread : ℕ) where
  abbrev pub later : Host
  later = record h { time = t }

  run_tasks-later :
      (tasks : List (Task LogRecord)) (sinks : List LogSink) (w : World)
      → All IsUntimed sinks
      → run_tasks later thread tasks sinks w ≡ run_tasks h thread tasks sinks w
  unfolding run_tasks
  run_tasks-later [] sinks w u = refl
  run_tasks-later (dummy ∷ tasks) sinks w u = run_tasks-later tasks sinks w u
  run_tasks-later (LogQueueWorker.message r ∷ tasks) sinks w u =
      let (sinks', w') = log_each h thread r sinks w in
      rw (log_each-later h t thread r sinks w u)
        (run_tasks-later tasks sinks' w' (log_each-IsUntimed h t thread r sinks w u))

  run_tasks-IsUntimed :
      (tasks : List (Task LogRecord)) (sinks : List LogSink) (w : World)
      → All IsUntimed sinks
      → All IsUntimed (run_tasks h thread tasks sinks w).0
  unfolding run_tasks
  run_tasks-IsUntimed [] sinks w u = u
  run_tasks-IsUntimed (dummy ∷ tasks) sinks w u = run_tasks-IsUntimed tasks sinks w u
  run_tasks-IsUntimed (LogQueueWorker.message r ∷ tasks) sinks w u =
      let (sinks', w') = log_each h thread r sinks w in
      run_tasks-IsUntimed tasks sinks' w' (log_each-IsUntimed h t thread r sinks w u)

  flush-later :
      (l : AsyncLogger) (w : World)
      → All IsUntimed l.log_sinks
      → AsyncLogger.flush later thread l w ≡ AsyncLogger.flush h thread l w
  unfolding AsyncLogger.flush LogDispatcher.flush
  flush-later l w u = rw (run_tasks-later l.dispatcher.log_queue.items l.log_sinks w u) refl

  flush_async-IsUntimed :
      (l : AsyncLogger) (w : World)
      → All IsUntimed l.log_sinks
      → All IsUntimed (AsyncLogger.flush h thread l w).0.log_sinks
  unfolding AsyncLogger.flush LogDispatcher.flush
  flush_async-IsUntimed l w u =
      flush-IsUntimed _ (run_tasks-IsUntimed l.dispatcher.log_queue.items l.log_sinks w u)

  -- `log` at the other times, and the patterns after it.
  record IsAlike (r : LogRecord) (l : AsyncLogger) (w : World) : Type 0 where
    same : AsyncLogger.log later thread r l w ≡ AsyncLogger.log h thread r l w
    untimed : All IsUntimed (AsyncLogger.log h thread r l w).0.log_sinks

  log_async-IsAlike :
      (r : LogRecord) (l : AsyncLogger) (w : World) → All IsUntimed l.log_sinks → IsAlike r l w
  log_async-IsAlike r l w u =
      let pushed = record l { dispatcher = LogDispatcher.dispatch r l.dispatcher } in
      elim (Bool-cases (at_least r.level l.current_log_level)) [
        | inl wanted ↦ elim (Bool-cases (at_least r.level l.flush_level)) [
          | inl urgent ↦
              let e = async-urgent h thread r l w wanted urgent in
              record {
                same =
                    async-urgent later thread r l w wanted urgent ∙ flush-later pushed w u ∙ sym e;
                untimed = rw e (flush_async-IsUntimed pushed w u);
              }
          | inr calm ↦
              let e = async-calm h thread r l w wanted calm in
              record { same = async-calm later thread r l w wanted calm ∙ sym e; untimed = rw e u }
        ]
        | inr dropped ↦
            let e = async-dropped h thread r l w dropped in
            record { same = async-dropped later thread r l w dropped ∙ sym e; untimed = rw e u }
      ]

  untimed_later :
      (rs : List LogRecord) (l : AsyncLogger) (w : World)
      → All IsUntimed l.log_sinks
      → log_all_async later thread rs l w ≡ log_all_async h thread rs l w
  unfolding log_all_async
  untimed_later [] l w u = flush-later l w u
  untimed_later (r ∷ rs) l w u =
      let a = log_async-IsAlike r l w u in
      let (l', w') = AsyncLogger.log h thread r l w in
      ap (λ (q : AsyncLogger × World). log_all_async later thread rs q.0 q.1) a.same
      ∙ untimed_later rs l' w' a.untimed

  -- An asynchronous logger whose patterns have no %x ends as a synchronous one, whatever the times at
  -- which its tasks are run: for any calls of `log` on one thread followed by `flush`, on loggers with
  -- the same levels and sinks, with an empty queue at first and no turn of the worker, and with another
  -- clock for the asynchronous logger than for the synchronous one, the sinks and the rest of the
  -- process end the same, and the queue is empty.
  pub untimed_refines :
      (rs : List LogRecord) (l : AsyncLogger) (s : SyncLogger) (w : World)
      → All IsUntimed s.log_sinks
      → l.dispatcher.log_queue.items ≡ []
      → l.current_log_level ≡ s.current_log_level
      → l.flush_level ≡ s.flush_level
      → l.log_sinks ≡ s.log_sinks
      → let (l', w') = log_all_async later thread rs l w in
        let (s', v') = log_all_sync h thread rs s w in
        (l'.log_sinks ≡ s'.log_sinks) × (l'.dispatcher.log_queue.items ≡ []) × (w' ≡ v')
  untimed_refines rs l s w untimed idle current flushing sinks =
      let e = untimed_later rs l w (subst (All IsUntimed) (sym sinks) untimed) in
      let (same, empty, rest) = log_all-eq h thread rs l s w idle current flushing sinks in
      (
        ap (λ (q : AsyncLogger × World). q.0.log_sinks) e ∙ same,
        ap (λ (q : AsyncLogger × World). q.0.dispatcher.log_queue.items) e ∙ empty,
        ap (λ (q : AsyncLogger × World). q.1) e ∙ rest,
      )
