-- ===== src/AsyncLogger/Crowd/Simulated.antt =====
-- async_logger.cpp, log_dispatcher.cpp and log_queue_worker.cpp: a crowd of threads whose records are
-- below the flush level does what AsyncLogger.Threads does.
use mathlib.Core.Option
use vnelogging.Common.{
  ℕ, zero, suc, ◌≡◌, refl, sym, ap, subst, ◌∙◌, inl, inr, Option, none, some, List, [], ◌∷◌, ◌++◌,
  map, set, get_elem?, All, All-append, Bool-cases,
}
use vnelogging.LogLevel.{LogLevel, at_least}
use vnelogging.Host.{Host, World}
use vnelogging.LogFormatter.{LogRecord}
use vnelogging.LogSink.{LogSink}
use vnelogging.LogQueueWorker
use vnelogging.LogQueueWorker.{Task, State}
use vnelogging.LogQueueWorker.Effects.{due}
use vnelogging.LogDispatcher.{run_tasks}
use vnelogging.AsyncLogger.Threads
use vnelogging.AsyncLogger.Threads.{Running, started}
use vnelogging.AsyncLogger.Crowd.{
  SinkCall, runs, caller_for, Crowd, begun, run_task, log_next, caller_at, caller_turn, Turn, calls,
  works, stops, perform, perform_all,
}
use vnelogging.AsyncLogger.Crowd.Quiet.{
  Todo, AllBelow, first_of, without, left_after, left_after_all, turns_at, turns_of, replay,
  replay-append, replay-runs,
}

get_elem?-callers :
    (threads : Todo) (i : ℕ)
    → get_elem? (map caller_for threads) i ≡ Option.map caller_for (get_elem? threads i)
get_elem?-callers [] i = refl
get_elem?-callers (t ∷ threads) zero = refl
get_elem?-callers (t ∷ threads) (suc i) = get_elem?-callers threads i

set-callers :
    (threads : Todo) (i : ℕ) (t : ℕ × List LogRecord)
    → set (map caller_for threads) i (caller_for t) ≡ map caller_for (set threads i t)
set-callers [] i t = refl
set-callers (u ∷ threads) zero t = refl
set-callers (u ∷ threads) (suc i) t = ap (◌∷◌ (caller_for u)) (set-callers threads i t)

same_entry {ℓ} : {A : Type ℓ} (x y : A) → some x ≡ some y → x ≡ y
same_entry x y e = cc

module _ {ℓ κ} {A : Type ℓ} (P : A → Type κ) where
  All-get : (xs : List A) (i : ℕ) (x : A) → get_elem? xs i ≡ some x → All P xs → P x
  All-get [] i x e a = cc
  All-get (y ∷ xs) zero x e a = subst P (same_entry y x e) (a.0)
  All-get (y ∷ xs) (suc i) x e a = All-get xs i x e a.1

  All-set : (xs : List A) (i : ℕ) (x : A) → P x → All P xs → All P (set xs i x)
  All-set [] i x b a = a
  All-set (y ∷ xs) zero x b a = (b, a.1)
  All-set (y ∷ xs) (suc i) x b a = (a.0, All-set xs i x b a.1)

-- A call on the sinks that is the thread's.
abbrev pub IsBy : ℕ → ℕ × SinkCall → Type 0
IsBy thread e = e.0 ≡ thread

module _ (h : Host) (level flush_level : LogLevel) (worker_thread : ℕ) (sinks : List LogSink)
    (w : World) where
  -- The crowd's threads stand between their calls, its queue is that of the run of AsyncLogger.Threads,
  -- the worker alone has called the sinks, and its calls leave the sinks of that run.
  pub record IsQuiet (threads : Todo) (s : Crowd) (k : Running) : Type 0 where
    pub below : AllBelow flush_level threads
    pub callers : s.callers ≡ map caller_for threads
    pub queue : s.queue ≡ k.queue
    pub by_worker : All (IsBy worker_thread) s.history
    pub replayed : replay h s.history sinks w ≡ (k.sinks, k.world)

  Threads-append :
      (xs ys : List Threads.Turn) (k : Running)
      → Threads.perform_all h worker_thread level (xs ++ ys) k
        ≡ Threads.perform_all h worker_thread level ys
            (Threads.perform_all h worker_thread level xs k)
  unfolding Threads.perform_all
  Threads-append [] ys k = refl
  Threads-append (t ∷ xs) ys k = Threads-append xs ys (Threads.perform h worker_thread level t k)

  calls-IsQuiet :
      (i : ℕ) (o : Option (ℕ × List LogRecord)) (threads : Todo) (s : Crowd) (k : Running)
      → get_elem? threads i ≡ o
      → IsQuiet threads s k
      → IsQuiet
          (without i o threads)
          (caller_turn level flush_level worker_thread i (Option.map caller_for o) s)
          (Threads.perform_all h worker_thread level (map Threads.logs (first_of o)) k)
  unfolding caller_turn caller_at log_next Threads.perform_all Threads.perform
  calls-IsQuiet i none threads s k e v = v
  calls-IsQuiet i (some (n, [])) threads s k e v = v
  calls-IsQuiet i (some (n, r ∷ rest)) threads s k e v =
      let todo = All-get _ threads i (n, r ∷ rest) e v.below in
      let below' = All-set _ threads i (n, rest) todo.1 v.below in
      let callers' =
        ap (λ cs. set cs i (caller_for (n, rest))) v.callers ∙ set-callers threads i (n, rest) in
      elim (Bool-cases (at_least r.level level)) [
        | inl wanted ↦
            rw (wanted, todo.0)
              record {
                below = below';
                callers = callers';
                queue = ap (λ q. LogQueueWorker.turn q (LogQueueWorker.submits r)) v.queue;
                by_worker = v.by_worker;
                replayed = v.replayed;
              }
        | inr dropped ↦ rw dropped record {
          below = below';
          callers = callers';
          queue = v.queue;
          by_worker = v.by_worker;
          replayed = v.replayed;
        }
      ]

  IsBy-runs :
      (tasks : List (Task LogRecord))
      → All (IsBy worker_thread) (map (λ task. (worker_thread, runs task)) tasks)
  IsBy-runs [] = tt
  IsBy-runs (task ∷ tasks) = (refl, IsBy-runs tasks)

  works-IsQuiet :
      (threads : Todo) (s : Crowd) (k : Running)
      → IsQuiet threads s k
      → IsQuiet threads
          (perform level flush_level worker_thread works s)
          (Threads.perform h worker_thread level Threads.works k)
  unfolding perform run_task Threads.perform
  works-IsQuiet threads s k v = record {
    below = v.below;
    callers = v.callers;
    queue = ap (λ q. LogQueueWorker.turn q LogQueueWorker.worker) v.queue;
    by_worker =
        All-append (IsBy worker_thread) s.history _ v.by_worker (IsBy-runs (due s.queue.run_pc));
    replayed =
        replay-append h s.history _ sinks w
        ∙ ap
            (λ (p : List LogSink × World).
              replay h (map (λ task. (worker_thread, runs task)) (due s.queue.run_pc)) p.0 p.1)
            v.replayed
        ∙ replay-runs h worker_thread (due s.queue.run_pc) k.sinks k.world
        ∙ ap (λ (q : State LogRecord). run_tasks h worker_thread (due q.run_pc) k.sinks k.world)
            v.queue;
  }

  perform-IsQuiet :
      (t : Turn) (threads : Todo) (s : Crowd) (k : Running)
      → IsQuiet threads s k
      → IsQuiet
          (left_after t threads)
          (perform level flush_level worker_thread t s)
          (Threads.perform_all h worker_thread level (turns_at t threads) k)
  unfolding perform Threads.perform_all Threads.perform
  perform-IsQuiet (calls i) threads s k v =
      subst
        (λ o.
          IsQuiet (left_after (calls i) threads) (caller_turn level flush_level worker_thread i o s)
            (Threads.perform_all h worker_thread level (turns_at (calls i) threads) k))
        (sym (ap (λ cs. get_elem? cs i) v.callers ∙ get_elem?-callers threads i))
        (calls-IsQuiet i (get_elem? threads i) threads s k refl v)
  perform-IsQuiet works threads s k v = works-IsQuiet threads s k v
  perform-IsQuiet stops threads s k v = record {
    below = v.below;
    callers = v.callers;
    queue = ap (λ q. LogQueueWorker.turn q LogQueueWorker.stopper) v.queue;
    by_worker = v.by_worker;
    replayed = v.replayed;
  }

  perform_all-IsQuiet :
      (ts : List Turn) (threads : Todo) (s : Crowd) (k : Running)
      → IsQuiet threads s k
      → IsQuiet
          (left_after_all ts threads)
          (perform_all level flush_level worker_thread ts s)
          (Threads.perform_all h worker_thread level (turns_of ts threads) k)
  unfolding perform_all left_after_all turns_of Threads.perform_all
  perform_all-IsQuiet [] threads s k v = v
  perform_all-IsQuiet (t ∷ ts) threads s k v =
      rw (Threads-append (turns_at t threads) (turns_of ts (left_after t threads)) k) (
        perform_all-IsQuiet ts (left_after t threads) (perform level flush_level worker_thread t s)
          (Threads.perform_all h worker_thread level (turns_at t threads) k)
          (perform-IsQuiet t threads s k v))

  -- From the beginning.
  pub run-IsQuiet :
      (ts : List Turn) (threads : Todo)
      → AllBelow flush_level threads
      → IsQuiet
          (left_after_all ts threads)
          (perform_all level flush_level worker_thread ts (begun threads))
          (Threads.perform_all h worker_thread level (turns_of ts threads) (started sinks w))
  unfolding replay
  run-IsQuiet ts threads below =
      perform_all-IsQuiet ts threads (begun threads) (started sinks w)
        record { below = below; callers = refl; queue = refl; by_worker = tt; replayed = refl }
