-- ===== src/AsyncLogger/Threads.antt =====
-- A simpler machine for AsyncLogger.Crowd where every record is below the flush level, so that no call
-- of `log` flushes and the worker alone uses the sinks: a turn is a whole call of `log`, a turn of the
-- worker with what it does to the sinks, or a turn of `stop`. AsyncLogger.Crowd.Simulated compares it
-- with the crowd.
use vnelogging.Common.{ℕ, ◌≡◌, refl, ◌∙◌, inl, inr, List, [], ◌∷◌, ◌++◌, Bool-cases, if◌then◌else◌}
use vnelogging.LogLevel.{LogLevel, at_least}
use vnelogging.Host.{Host, World, ◌>>=◌}
use vnelogging.LogFormatter.{LogRecord}
use vnelogging.LogSink.{LogSink}
use vnelogging.SyncLogger.{log_each}
use vnelogging.LogQueueWorker.{
  Task, message, dummy, State, created, start, Actor, submits, worker, stopper, turn, run_schedule,
}
use vnelogging.LogQueueWorker.Effects.{due, executed-worker, executed-stopper, executed-submits}
use vnelogging.LogDispatcher.{run_tasks}

pub data Turn : Type 0 where
  logs : LogRecord → Turn
  works stops : Turn

-- The queue and its threads, the sinks, and the rest of the process.
pub record Running : Type 0 where
  pub queue : State LogRecord
  pub sinks : List LogSink
  pub world : World

abbrev pub started : List LogSink → World → Running
started sinks w = record { queue = start created; sinks = sinks; world = w }

module _ (h : Host) (thread : ℕ) (level : LogLevel) where
  -- `log` of a record below the flush level, a turn of the worker with its effect on the sinks, a
  -- turn of `stop`.
  unfoldable pub perform : Turn → Running → Running
  perform (logs r) s =
      if at_least r.level level then record s { queue = turn s.queue (submits r) } else s
  perform works s =
      let (sinks, w) = run_tasks h thread (due s.queue.run_pc) s.sinks s.world in
      record { queue = turn s.queue worker; sinks = sinks; world = w }
  perform stops s = record s { queue = turn s.queue stopper }

  unfoldable pub perform_all : List Turn → Running → Running
  unfolding perform
  perform_all [] s = s
  perform_all (t ∷ ts) s = perform_all ts (perform t s)

-- The turns of the queue's threads.
unfoldable pub actors : LogLevel → List Turn → List (Actor LogRecord)
actors level [] = []
actors level (logs r ∷ ts) =
    let rest = actors level ts in if at_least r.level level then submits r ∷ rest else rest
actors level (works ∷ ts) = worker ∷ actors level ts
actors level (stops ∷ ts) = stopper ∷ actors level ts

module _ (h : Host) (thread : ℕ) (level : LogLevel) where
  queue-logs :
      (r : LogRecord) (ts : List Turn) (s : Running)
      → run_schedule (perform h thread level (logs r) s).queue (actors level ts)
        ≡ run_schedule s.queue (actors level (logs r ∷ ts))
  unfolding perform actors run_schedule
  queue-logs r ts s = elim (Bool-cases (at_least r.level level)) [
    | inl wanted ↦ rw wanted refl
    | inr dropped ↦ rw dropped refl
  ]

  -- The queue does what its own threads do.
  pub queue-perform_all :
      (ts : List Turn) (s : Running)
      → (perform_all h thread level ts s).queue ≡ run_schedule s.queue (actors level ts)
  unfolding perform_all perform actors run_schedule
  queue-perform_all [] s = refl
  queue-perform_all (logs r ∷ ts) s =
      queue-perform_all ts (perform h thread level (logs r) s) ∙ queue-logs r ts s
  queue-perform_all (works ∷ ts) s = queue-perform_all ts (perform h thread level works s)
  queue-perform_all (stops ∷ ts) s = queue-perform_all ts (perform h thread level stops s)

  run_tasks-append :
      (xs ys : List (Task LogRecord)) (sinks : List LogSink) (w : World)
      → run_tasks h thread (xs ++ ys) sinks w
        ≡ (do sinks' ← run_tasks h thread xs sinks; run_tasks h thread ys sinks') w
  unfolding run_tasks
  run_tasks-append [] ys sinks w = refl
  run_tasks-append (dummy ∷ xs) ys sinks w = run_tasks-append xs ys sinks w
  run_tasks-append (message r ∷ xs) ys sinks w =
      let (sinks', w') = log_each h thread r sinks w in run_tasks-append xs ys sinks' w'

  -- The sinks and the process are as after all that was run, one after the other.
  module _ (sinks : List LogSink) (w : World) where
    unfoldable pub IsRun : Running → Type 0
    IsRun s = run_tasks h thread s.queue.executed sinks w ≡ (s.sinks, s.world)

    perform-IsRun : (t : Turn) (s : Running) → IsRun s → IsRun (perform h thread level t s)
    unfolding IsRun perform
    perform-IsRun (logs r) s v = elim (Bool-cases (at_least r.level level)) [
      | inl wanted ↦ rw wanted (rw (executed-submits s.queue r) v)
      | inr dropped ↦ rw dropped v
    ]
    perform-IsRun works s v =
        rw
          (
            executed-worker s.queue,
            run_tasks-append s.queue.executed (due s.queue.run_pc) sinks w,
            v,
          )
          refl
    perform-IsRun stops s v = rw (executed-stopper s.queue) v

    pub perform_all-IsRun :
        (ts : List Turn) (s : Running) → IsRun s → IsRun (perform_all h thread level ts s)
    unfolding perform_all
    perform_all-IsRun [] s v = v
    perform_all-IsRun (t ∷ ts) s v =
        perform_all-IsRun ts (perform h thread level t s) (perform-IsRun t s v)
