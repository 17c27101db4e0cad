-- ===== src/AsyncLogger/Crowd/Records.antt =====
-- async_logger.cpp and log_queue_worker.cpp: the records and tasks that the parts of a crowd have.
use vnelogging.Common.{
  ℕ, ◌≡◌, refl, ap, ◌∙◌, Bool, true, false, List, [], ◌∷◌, ◌++◌, append-nil, map, if◌then◌else◌,
}
use vnelogging.LogLevel.{LogLevel, at_least}
use vnelogging.LogFormatter.{LogRecord}
use vnelogging.LogQueueWorker.{Task}
use vnelogging.AsyncLogger.Crowd.{
  CallerPc, ready, flush_testing, flush_popping, flushing_sinks, flush_holding, Caller, caller_for,
  SinkCall, runs, flushes,
}
use vnelogging.AsyncLogger.Crowd.Split.{all_of}

-- The task that a thread has popped and not yet run.
abbrev pub held_by : CallerPc → List (Task LogRecord)
held_by (flush_holding task) = task ∷ []
held_by _ = []

abbrev pub holds : Caller → List (Task LogRecord)
holds c = held_by c.pc

-- The records that pass the level.
unfoldable pub passing : LogLevel → List LogRecord → List LogRecord
passing level [] = []
passing level (r ∷ rs) =
    let rest = passing level rs in if at_least r.level level then r ∷ rest else rest

abbrev pub to_log : LogLevel → Caller → List LogRecord
to_log level c = passing level c.todo

-- The tasks in the order in which they were run.
unfoldable pub tasks_of : List (ℕ × SinkCall) → List (Task LogRecord)
tasks_of [] = []
tasks_of ((_, runs task) ∷ history) = task ∷ tasks_of history
tasks_of ((_, flushes) ∷ history) = tasks_of history

tasks_of-append : (xs ys : List (ℕ × SinkCall)) → tasks_of (xs ++ ys) ≡ tasks_of xs ++ tasks_of ys
unfolding tasks_of
tasks_of-append [] ys = refl
tasks_of-append ((_, runs task) ∷ xs) ys = ap (◌∷◌ task) (tasks_of-append xs ys)
tasks_of-append ((_, flushes) ∷ xs) ys = tasks_of-append xs ys

tasks_of-runs :
    (thread : ℕ) (tasks : List (Task LogRecord))
    → tasks_of (map (λ task. (thread, runs task)) tasks) ≡ tasks
unfolding tasks_of
tasks_of-runs thread [] = refl
tasks_of-runs thread (task ∷ tasks) = ap (◌∷◌ task) (tasks_of-runs thread tasks)

-- A thread has run tasks, or has flushed the sinks.
pub tasks_of-more :
    (history : List (ℕ × SinkCall)) (thread : ℕ) (tasks : List (Task LogRecord))
    → tasks_of (history ++ map (λ task. (thread, runs task)) tasks) ≡ tasks_of history ++ tasks
tasks_of-more history thread tasks =
    tasks_of-append history (map (λ task. (thread, runs task)) tasks)
    ∙ ap (λ ts. tasks_of history ++ ts) (tasks_of-runs thread tasks)

pub tasks_of-flush :
    (history : List (ℕ × SinkCall)) (thread : ℕ)
    → tasks_of (history ++ (thread, flushes) ∷ []) ≡ tasks_of history
unfolding tasks_of
tasks_of-flush history thread =
    tasks_of-append history ((thread, flushes) ∷ []) ∙ append-nil (tasks_of history)

module _ (level : LogLevel) where
  pub passing-above :
      (r : LogRecord) (rs : List LogRecord)
      → at_least r.level level ≡ true
      → passing level (r ∷ rs) ≡ r ∷ passing level rs
  unfolding passing
  passing-above r rs wanted = rw wanted refl

  pub passing-below :
      (r : LogRecord) (rs : List LogRecord)
      → at_least r.level level ≡ false
      → passing level (r ∷ rs) ≡ passing level rs
  unfolding passing
  passing-below r rs dropped = rw dropped refl

pub held-after_log : (b : Bool) → held_by (if b then flush_testing else ready) ≡ []
held-after_log true = refl
held-after_log false = refl

pub held-after_test : (b : Bool) → held_by (if b then flushing_sinks else flush_popping) ≡ []
held-after_test true = refl
held-after_test false = refl

-- Before a thread's first call.
pub holds-begun : (threads : List (ℕ × List LogRecord)) → all_of holds (map caller_for threads) ≡ []
unfolding all_of
holds-begun [] = refl
holds-begun (_ ∷ threads) = holds-begun threads

pub to_log-begun :
    (level : LogLevel) (threads : List (ℕ × List LogRecord))
    → all_of (to_log level) (map caller_for threads) ≡ all_of (λ t. passing level t.1) threads
unfolding all_of
to_log-begun level [] = refl
to_log-begun level ((_, records) ∷ threads) =
    ap (λ rs. passing level records ++ rs) (to_log-begun level threads)
