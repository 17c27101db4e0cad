-- ===== src/LogQueueWorker/Loss.antt =====
-- What `stop` leaves unrun: the worker tests its flag before it drains, and returns with whatever is
-- in the queue.
use vnelogging.Common.{◌≡◌, refl, sym, ◌∙◌, List, [], ◌∷◌, ◌++◌, map, append-nil, append_assoc, All}
use vnelogging.LogQueue
use vnelogging.LogQueue.{LogQueue}
use vnelogging.LogQueueWorker.{
  Task, message, dummy, RunPc, draining, executing, StopPc, not_called, cleared, pushed, joined,
  State, created, start, submit, run_at, run_turn, join_at, stop_at, stop_turn, Actor, submits,
  worker, stopper, flusher, or_wait, turn, run_schedule,
}
use vnelogging.LogQueueWorker.Order.{NotFlusher}

module _ {ℓ} {A : Type ℓ} where
  -- The state after more messages.
  abbrev pub with_messages : State A → List A → State A
  with_messages s ms = record s {
    log_queue = record { items = s.log_queue.items ++ map message ms };
    submitted = s.submitted ++ map message ms;
  }

  pub run_schedule-submits :
      (s : State A) (ms : List A) (rest : List (Actor A))
      → run_schedule s (map submits ms ++ rest) ≡ run_schedule (with_messages s ms) rest
  unfolding run_schedule turn submit LogQueue.push
  run_schedule-submits s [] rest =
      sym (rw (append-nil s.log_queue.items, append-nil s.submitted) refl)
  run_schedule-submits s (m ∷ ms) rest =
      run_schedule-submits (submit (message m) s) ms rest
      ∙ rw (append_assoc s.log_queue.items, append_assoc s.submitted) refl

  -- A worker that has returned runs nothing more.
  IsHome : State A → List (Task A) → Type ℓ
  IsHome s tasks = (s.run_pc ≡ RunPc.returned) × (s.executed ≡ tasks)

  stop_at-IsHome :
      (s : State A) (pc : StopPc A) (tasks : List (Task A))
      → IsHome s tasks
      → IsHome (or_wait s (stop_at s pc)) tasks
  unfolding IsHome stop_at join_at submit
  stop_at-IsHome s not_called tasks h = h
  stop_at-IsHome s cleared tasks h = h
  stop_at-IsHome s pushed tasks h = rw (h.0, join_at) h
  stop_at-IsHome s joined tasks h = h

  run_at-IsHome :
      (s : State A) (pc : RunPc A) (tasks : List (Task A))
      → s.run_pc ≡ pc
      → IsHome s tasks
      → IsHome (or_wait s (run_at s pc)) tasks
  unfolding IsHome run_at
  run_at-IsHome s RunPc.testing tasks e h = cc (e, h.0)
  run_at-IsHome s draining tasks e h = cc (e, h.0)
  run_at-IsHome s (executing batch) tasks e h = cc (e, h.0)
  run_at-IsHome s RunPc.returned tasks e h = h

  turn-IsHome :
      (s : State A) (actor : Actor A) (tasks : List (Task A))
      → NotFlusher actor
      → IsHome s tasks
      → IsHome (turn s actor) tasks
  unfolding IsHome turn run_turn stop_turn submit
  turn-IsHome s (submits a) tasks n h = h
  turn-IsHome s worker tasks n h = run_at-IsHome s s.run_pc tasks refl h
  turn-IsHome s stopper tasks n h = stop_at-IsHome s s.stop_pc tasks h
  turn-IsHome s flusher tasks n h = absurd n

  pub run_schedule-IsHome :
      (s : State A) (schedule : List (Actor A)) (tasks : List (Task A))
      → All NotFlusher schedule
      → (s.run_pc ≡ RunPc.returned) × (s.executed ≡ tasks)
      → (run_schedule s schedule).executed ≡ tasks
  unfolding IsHome run_schedule
  run_schedule-IsHome s [] tasks n h = h.1
  run_schedule-IsHome s (actor ∷ rest) tasks n h =
      run_schedule-IsHome (turn s actor) rest tasks n.1 (turn-IsHome s actor tasks n.0 h)

  -- Messages, then `stop` before the worker's first test of its flag.
  abbrev pub stopped_early : List A → List (Actor A)
  stopped_early ms = map submits ms ++ stopper ∷ worker ∷ stopper ∷ stopper ∷ []

  -- `stop` does not wait for the queue: for any messages there is a schedule under which `stop` has
  -- returned with all of them still in the queue, and under no continuation without a flush is any of
  -- them run.
  pub stop_drops :
      (ms : List A) (after : List (Actor A))
      → All NotFlusher after
      → let s = run_schedule (start created) (stopped_early ms) in
        (s.stop_pc ≡ joined)
        × (s.log_queue.items ≡ map message ms ++ dummy ∷ [])
        × ((run_schedule s after).executed ≡ [])
  unfolding run_schedule turn run_turn stop_turn submit start LogQueue.push
  stop_drops ms after n =
      rw (run_schedule-submits (start created) ms (stopper ∷ worker ∷ stopper ∷ stopper ∷ []))
        (refl, refl, run_schedule-IsHome _ after [] n (refl, refl))
