-- ===== src/AsyncLogger/Crowd/Quiet.antt =====
-- async_logger.cpp: threads whose records are all below the flush level. None of them flushes, and
-- what the crowd does is what the calls of `log` and the worker do by themselves.
use vnelogging.Common.{
  ℕ, suc, ◌≡◌, refl, ap, ◌∙◌, false, Option, none, some, List, [], ◌∷◌, ◌++◌, map, set, get_elem?,
  append_assoc, All,
}
use vnelogging.LogLevel.{LogLevel, at_least}
use vnelogging.Host.{Host, World, M, pure, ◌>>=◌}
use vnelogging.LogFormatter.{LogRecord}
use vnelogging.LogSink.{LogSink}
use vnelogging.SyncLogger.{log_each, flush_each}
use vnelogging.LogQueueWorker.{Task, message, dummy}
use vnelogging.LogDispatcher.{run_tasks}
use vnelogging.AsyncLogger.Threads
use vnelogging.AsyncLogger.Delivery.{logged}
use vnelogging.AsyncLogger.Actors
use vnelogging.AsyncLogger.Crowd.{SinkCall, runs, flushes, Turn, calls, works, stops}

-- The threads with their numbers and the records that they are still to log.
abbrev pub Todo : Type 0
Todo = List (ℕ × List LogRecord)

abbrev pub AllBelow : LogLevel → Todo → Type 0
AllBelow flush_level threads =
    All (λ t. All (λ (r : LogRecord). at_least r.level flush_level ≡ false) t.1) threads

-- The record that a thread logs next, if there is one.
abbrev pub first_of : Option (ℕ × List LogRecord) → List LogRecord
first_of none = []
first_of (some (_, [])) = []
first_of (some (_, r ∷ _)) = r ∷ []

-- The threads after that call.
abbrev pub without : ℕ → Option (ℕ × List LogRecord) → Todo → Todo
without i none threads = threads
without i (some (_, [])) threads = threads
without i (some (n, _ ∷ rest)) threads = set threads i (n, rest)

abbrev pub left_after : Turn → Todo → Todo
left_after (calls i) threads = without i (get_elem? threads i) threads
left_after works threads = threads
left_after stops threads = threads

unfoldable pub left_after_all : List Turn → Todo → Todo
left_after_all [] threads = threads
left_after_all (t ∷ ts) threads = left_after_all ts (left_after t threads)

-- The records that threads which never wait log in these turns, in the order of the calls.
unfoldable pub logged_by : List Turn → Todo → List LogRecord
logged_by [] threads = []
logged_by (calls i ∷ ts) threads =
    first_of (get_elem? threads i) ++ logged_by ts (left_after (calls i) threads)
logged_by (works ∷ ts) threads = logged_by ts threads
logged_by (stops ∷ ts) threads = logged_by ts threads

abbrev pub NotStops : Turn → Type 0
NotStops (calls i) = Unit
NotStops works = Unit
NotStops stops = ⊥

unfoldable pub count_works : List Turn → ℕ
count_works [] = 0
count_works (calls i ∷ ts) = count_works ts
count_works (works ∷ ts) = suc (count_works ts)
count_works (stops ∷ ts) = count_works ts

-- The same turns as calls of `log` with their records.
abbrev pub turns_at : Turn → Todo → List Threads.Turn
turns_at (calls i) threads = map Threads.logs (first_of (get_elem? threads i))
turns_at works threads = Threads.works ∷ []
turns_at stops threads = Threads.stops ∷ []

unfoldable pub turns_of : List Turn → Todo → List Threads.Turn
turns_of [] threads = []
turns_of (t ∷ ts) threads = turns_at t threads ++ turns_of ts (left_after t threads)

pub turns_of-append :
    (xs ys : List Turn) (threads : Todo)
    → turns_of (xs ++ ys) threads ≡ turns_of xs threads ++ turns_of ys (left_after_all xs threads)
unfolding turns_of left_after_all
turns_of-append [] ys threads = refl
turns_of-append (t ∷ xs) ys threads =
    rw (turns_of-append xs ys (left_after t threads)) (simp append_assoc)

logged-first :
    (o : Option (ℕ × List LogRecord)) (ts : List Threads.Turn)
    → logged (map Threads.logs (first_of o) ++ ts) ≡ first_of o ++ logged ts
unfolding logged
logged-first none ts = refl
logged-first (some (_, [])) ts = refl
logged-first (some (_, r ∷ _)) ts = refl

pub logged-turns_of :
    (ts : List Turn) (threads : Todo) → logged (turns_of ts threads) ≡ logged_by ts threads
unfolding logged turns_of logged_by
logged-turns_of [] threads = refl
logged-turns_of (calls i ∷ ts) threads =
    logged-first (get_elem? threads i) _
    ∙ ap (λ rs. first_of (get_elem? threads i) ++ rs)
        (logged-turns_of ts (left_after (calls i) threads))
logged-turns_of (works ∷ ts) threads = logged-turns_of ts threads
logged-turns_of (stops ∷ ts) threads = logged-turns_of ts threads

NotStops-first :
    (o : Option (ℕ × List LogRecord)) (ts : List Threads.Turn)
    → All Actors.NotStops ts
    → All Actors.NotStops (map Threads.logs (first_of o) ++ ts)
NotStops-first none ts n = n
NotStops-first (some (_, [])) ts n = n
NotStops-first (some (_, r ∷ _)) ts n = (tt, n)

pub NotStops-turns_of :
    (ts : List Turn) (threads : Todo) → All NotStops ts → All Actors.NotStops (turns_of ts threads)
unfolding turns_of
NotStops-turns_of [] threads n = tt
NotStops-turns_of (calls i ∷ ts) threads n =
    NotStops-first (get_elem? threads i) _ (NotStops-turns_of ts (left_after (calls i) threads) n.1)
NotStops-turns_of (works ∷ ts) threads n = (tt, NotStops-turns_of ts threads n.1)
NotStops-turns_of (stops ∷ ts) threads n = absurd (n.0)

works-first :
    (o : Option (ℕ × List LogRecord)) (ts : List Threads.Turn)
    → Actors.count_works (map Threads.logs (first_of o) ++ ts) ≡ Actors.count_works ts
unfolding Actors.count_works
works-first none ts = refl
works-first (some (_, [])) ts = refl
works-first (some (_, r ∷ _)) ts = refl

pub works-turns_of :
    (ts : List Turn) (threads : Todo) → Actors.count_works (turns_of ts threads) ≡ count_works ts
unfolding turns_of count_works Actors.count_works
works-turns_of [] threads = refl
works-turns_of (calls i ∷ ts) threads =
    works-first (get_elem? threads i) _ ∙ works-turns_of ts (left_after (calls i) threads)
works-turns_of (works ∷ ts) threads = ap suc (works-turns_of ts threads)
works-turns_of (stops ∷ ts) threads = works-turns_of ts threads

-- The calls on the sinks, one after the other.
unfoldable pub replay : Host → List (ℕ × SinkCall) → List LogSink → M (List LogSink)
replay h [] sinks = pure sinks
replay h ((thread, runs task) ∷ rest) sinks = do
  sinks' ← run_tasks h thread (task ∷ []) sinks
  replay h rest sinks'
replay h ((_, flushes) ∷ rest) sinks = replay h rest (flush_each sinks)

module _ (h : Host) where
  pub replay-append :
      (xs ys : List (ℕ × SinkCall)) (sinks : List LogSink) (w : World)
      → replay h (xs ++ ys) sinks w ≡ (do sinks' ← replay h xs sinks; replay h ys sinks') w
  unfolding replay
  replay-append [] ys sinks w = refl
  replay-append ((thread, runs task) ∷ xs) ys sinks w =
      let (sinks', w') = run_tasks h thread (task ∷ []) sinks w in replay-append xs ys sinks' w'
  replay-append ((_, flushes) ∷ xs) ys sinks w = replay-append xs ys (flush_each sinks) w

  pub replay-runs :
      (thread : ℕ) (tasks : List (Task LogRecord)) (sinks : List LogSink) (w : World)
      → replay h (map (λ task. (thread, runs task)) tasks) sinks w
        ≡ run_tasks h thread tasks sinks w
  unfolding replay run_tasks
  replay-runs thread [] sinks w = refl
  replay-runs thread (dummy ∷ tasks) sinks w = replay-runs thread tasks sinks w
  replay-runs thread (message r ∷ tasks) sinks w =
      let (sinks', w') = log_each h thread r sinks w in replay-runs thread tasks sinks' w'
