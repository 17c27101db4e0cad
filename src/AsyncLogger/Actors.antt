-- ===== src/AsyncLogger/Actors.antt =====
-- async_logger.cpp: the calls of `log` and the turns of the queue's threads that they are.
use vnelogging.Common.{
  ℕ, suc, ◌+◌, ◌≤◌, ◌≡◌, refl, ap, inl, inr, List, [], ◌∷◌, ◌++◌, arith, All, Bool-cases, length,
  length-append,
}
use vnelogging.LogLevel.{LogLevel, at_least}
use vnelogging.LogFormatter.{LogRecord}
use vnelogging.LogQueueWorker.{Task, message, State, submits, worker, stopper, turn, run_schedule}
use vnelogging.LogQueueWorker.Stop.{worker_turns}
use vnelogging.LogQueueWorker.Progress.{IsRunner}
use vnelogging.LogQueueWorker.Effects.{submitted-submits, submitted-worker}
use vnelogging.AsyncLogger.Threads.{Turn, logs, works, stops, actors}
use vnelogging.AsyncLogger.Delivery.{logged}

abbrev pub NotStops : Turn → Type 0
NotStops (logs r) = Unit
NotStops works = Unit
NotStops stops = ⊥

unfoldable pub count_works : List Turn → ℕ
count_works [] = 0
count_works (logs r ∷ ts) = count_works ts
count_works (works ∷ ts) = suc (count_works ts)
count_works (stops ∷ ts) = count_works ts

module _ (level : LogLevel) where
  pub IsRunner-actors : (ts : List Turn) → All NotStops ts → All IsRunner (actors level ts)
  unfolding actors
  IsRunner-actors [] n = tt
  IsRunner-actors (logs r ∷ ts) n = elim (Bool-cases (at_least r.level level)) [
    | inl wanted ↦ rw wanted (tt, IsRunner-actors ts n.1)
    | inr dropped ↦ rw dropped (IsRunner-actors ts n.1)
  ]
  IsRunner-actors (works ∷ ts) n = (tt, IsRunner-actors ts n.1)
  IsRunner-actors (stops ∷ ts) n = absurd (n.0)

  pub worker_turns-actors : (ts : List Turn) → worker_turns (actors level ts) ≡ count_works ts
  unfolding actors worker_turns count_works
  worker_turns-actors [] = refl
  worker_turns-actors (logs r ∷ ts) = elim (Bool-cases (at_least r.level level)) [
    | inl wanted ↦ rw wanted (worker_turns-actors ts)
    | inr dropped ↦ rw dropped (worker_turns-actors ts)
  ]
  worker_turns-actors (works ∷ ts) = omega (arith, worker_turns-actors ts)
  worker_turns-actors (stops ∷ ts) = worker_turns-actors ts

  pub actors-append :
      (xs ys : List Turn) → actors level (xs ++ ys) ≡ actors level xs ++ actors level ys
  unfolding actors
  actors-append [] ys = refl
  actors-append (logs r ∷ xs) ys = elim (Bool-cases (at_least r.level level)) [
    | inl wanted ↦ rw wanted (ap (◌∷◌ (submits r)) (actors-append xs ys))
    | inr dropped ↦ rw dropped (actors-append xs ys)
  ]
  actors-append (works ∷ xs) ys = ap (◌∷◌ worker) (actors-append xs ys)
  actors-append (stops ∷ xs) ys = ap (◌∷◌ stopper) (actors-append xs ys)

  -- As many tasks are pushed as records logged, at most.
  pub length-submitted :
      (ts : List Turn) (s : State LogRecord)
      → All NotStops ts
      → length (run_schedule s (actors level ts)).submitted
        ≤ length s.submitted + length (logged ts)
  unfolding actors run_schedule logged
  length-submitted [] s n = omega arith
  length-submitted (logs r ∷ ts) s n = elim (Bool-cases (at_least r.level level)) [
    | inl wanted ↦ rw wanted (
        omega (
          arith,
          length-submitted ts (turn s (submits r)) n.1,
          ap (λ (l : List (Task LogRecord)). length l) (submitted-submits s r),
          length-append s.submitted (message r ∷ []),
        ))
    | inr dropped ↦ rw dropped (omega (arith, length-submitted ts s n.1))
  ]
  length-submitted (works ∷ ts) s n = omega (
    arith,
    length-submitted ts (turn s worker) n.1,
    ap (λ (l : List (Task LogRecord)). length l) (submitted-worker s),
  )
  length-submitted (stops ∷ ts) s n = absurd (n.0)
