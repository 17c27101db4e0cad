-- ===== src/Examples/Threads.antt =====
-- The queue and its threads at work.
use mathlib.Core.List.{Perm}
use vnelogging.Common.{ℕ, zero, suc, ◌≡◌, refl, length, ◌≤◌, take, List, [], ◌∷◌, ◌++◌, arith}
use vnelogging.LogQueue.{push, pop, empty, drain}
use vnelogging.LogQueueWorker.{
  Task, message, dummy, RunPc, executing, joined, FlushPc, popping, holding, done, created, start,
  batch_size, Actor, submits, worker, stopper, flusher, turn, run_schedule,
}
use vnelogging.LogQueueWorker.Order.{in_hand, run_schedule-fifo}
use vnelogging.LogQueueWorker.Conserve.{run_schedule-perm}
use vnelogging.LogQueueWorker.Order.{held}
use vnelogging.LogQueueWorker.Stop.{worker_turns}
use vnelogging.LogQueueWorker.StopReturns.{stop_returns}
use vnelogging.LogQueueWorker.Progress.{submitted_runs}
use vnelogging.LogQueueWorker.Loss.{stopped_early, stop_drops}
use vnelogging.LogQueueWorker.Flush.{
  flush_turns, flush_alone, overtaken, flush_hangs, drained_first, flush_early,
}
use vnelogging.LogQueueWorker.Overtakes.{overtaking, flush_overtakes}
use vnelogging.LogQueueWorker.Messages.{messages}
use vnelogging.LogQueueWorker.Shutdown.{flush_then_stop}
use vnelogging.LogQueueWorker.Bounded.{run_schedule-bounded}

abbrev schedule : List (Actor ℕ)
schedule = worker ∷ submits 1 ∷ submits 2 ∷ worker ∷ worker ∷ submits 3 ∷ stopper ∷ stopper ∷ []

-- The worker has run 1, holds 2, and 3 and the dummy are in the queue.
schedule_result :
    let s = run_schedule (start created) schedule in
    (s.executed ≡ message 1 ∷ [])
    × (in_hand s.run_pc ≡ message 2 ∷ [])
    × (s.log_queue.items ≡ message 3 ∷ dummy ∷ [])
unfolding run_schedule start drain push
schedule_result = (refl, refl, refl)

run_schedule-fifo_example :
    let s = run_schedule (start created) schedule in
    s.submitted ≡ s.executed ++ (in_hand s.run_pc ++ s.log_queue.items)
run_schedule-fifo_example = run_schedule-fifo schedule (omega arith)

-- The same with a flush that pops the dummy and runs it after 1.
abbrev busy : List (Actor ℕ)
busy = submits 1 ∷ submits 2 ∷ flusher ∷ flusher ∷ flusher ∷ worker ∷ worker ∷ flusher ∷ worker ∷ []

run_schedule-perm_example :
    let s = run_schedule (start created) busy in
    Perm s.submitted (s.executed ++ (in_hand s.run_pc ++ (held s.flush_pc ++ s.log_queue.items)))
run_schedule-perm_example = run_schedule-perm busy

busy_result : (run_schedule (start created) busy).executed ≡ message 1 ∷ message 2 ∷ []
unfolding run_schedule start drain push pop empty
busy_result = refl

abbrev turns : ℕ → List (Actor ℕ)
turns zero = []
turns (suc n) = worker ∷ submits n ∷ turns n

stop_returns_example :
    let s = run_schedule (run_schedule (start created) schedule) (turns 35) in
    (s.run_pc ≡ RunPc.returned) × ((turn s stopper).stop_pc ≡ joined)
unfolding run_schedule start drain push worker_turns
stop_returns_example =
    stop_returns schedule (turns 35) (omega arith) (omega arith) refl (omega arith)

abbrev one_two : List ℕ
one_two = 1 ∷ 2 ∷ []

abbrev tasks : List (Task ℕ)
tasks = message 1 ∷ message 2 ∷ []

stop_drops_example :
    let s = run_schedule (start created) (stopped_early one_two) in
    (s.stop_pc ≡ joined)
    × (s.log_queue.items ≡ message 1 ∷ message 2 ∷ dummy ∷ [])
    × ((run_schedule s (submits 3 ∷ worker ∷ [])).executed ≡ [])
stop_drops_example = stop_drops one_two (submits 3 ∷ worker ∷ []) (omega arith)

flush_alone_example :
    run_schedule
      (record (start created) { log_queue = record { items = tasks }; flush_pc = FlushPc.testing })
      (flush_turns tasks)
    ≡ record (start created) {
      log_queue = record { items = [] };
      flush_pc = done;
      executed = (start created).executed ++ tasks;
    }
flush_alone_example = flush_alone (start created) tasks

flush_hangs_example :
    let s =
      run_schedule
        (run_schedule (start created) (overtaken one_two))
        (worker ∷ flusher ∷ worker ∷ flusher ∷ []) in
    (s.flush_pc ≡ popping) × (s.log_queue.items ≡ [])
flush_hangs_example =
    flush_hangs 1 (2 ∷ []) (worker ∷ flusher ∷ worker ∷ flusher ∷ []) (omega arith) (omega arith)

flush_early_example :
    let s = run_schedule (start created) (drained_first one_two) in
    (s.flush_pc ≡ done) × (s.executed ≡ []) × (s.run_pc ≡ executing tasks)
flush_early_example = flush_early 1 (2 ∷ []) (omega arith)

abbrev two_pushed : List (Actor ℕ)
two_pushed = submits 1 ∷ submits 2 ∷ worker ∷ []

submitted_runs_example :
    let s = run_schedule (start created) two_pushed in
    take (length s.submitted) (run_schedule s (turns 11)).executed ≡ s.submitted
unfolding worker_turns run_schedule start
submitted_runs_example =
    submitted_runs two_pushed (turns 11) (omega arith) (omega arith) (omega arith)

flush_overtakes_example :
    let s = run_schedule (start created) (overtaking one_two (3 ∷ 4 ∷ [])) in
    (s.submitted ≡ message 1 ∷ message 2 ∷ message 3 ∷ message 4 ∷ [])
    × (s.executed ≡ message 3 ∷ message 4 ∷ message 1 ∷ message 2 ∷ [])
    × (s.flush_pc ≡ done)
    × (s.run_pc ≡ executing [])
flush_overtakes_example = flush_overtakes 1 (2 ∷ []) (3 ∷ 4 ∷ []) (omega arith)

run_schedule-bounded_example :
    length (in_hand (run_schedule (start created) busy).run_pc) ≤ batch_size
run_schedule-bounded_example = run_schedule-bounded busy

-- The worker and a flush both have a task to run, on the same sinks.
abbrev until_held : List (Actor ℕ)
until_held = submits 1 ∷ submits 2 ∷ worker ∷ worker ∷ submits 3 ∷ flusher ∷ flusher ∷ flusher ∷ []

both_hold :
    let s = run_schedule (start created) until_held in
    (s.run_pc ≡ executing tasks) × (s.flush_pc ≡ holding (message 3))
unfolding run_schedule start drain push pop empty
both_hold = (refl, refl)

-- A flush runs 3 while the worker has 1 and 2 to run, and returns; then `stop` is called.
abbrev flushed : List (Actor ℕ)
flushed = until_held ++ flusher ∷ []

abbrev stopping : List (Actor ℕ)
stopping = stopper ∷ stopper ∷ stopper ∷ worker ∷ worker ∷ worker ∷ worker ∷ stopper ∷ []

flush_then_stop_example :
    let s = run_schedule (start created) (flushed ++ flusher ∷ stopping) in
    Perm (messages s.submitted) (messages s.executed) × (messages s.log_queue.items ≡ [])
unfolding run_schedule start drain push pop empty turn
flush_then_stop_example = flush_then_stop flushed stopping refl refl (omega arith) refl

shutdown_result :
    let s = run_schedule (start created) (flushed ++ flusher ∷ stopping) in
    messages s.executed ≡ 3 ∷ 1 ∷ 2 ∷ []
unfolding run_schedule start drain push pop empty messages
shutdown_result = refl
