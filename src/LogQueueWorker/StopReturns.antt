-- ===== src/LogQueueWorker/StopReturns.antt =====
-- `stop` returns, under every schedule that gives the worker turns enough.
use vnelogging.Common.{
  ◌-◌, ◌≤◌, Bool, true, false, ◌≡◌, refl, ◌≢◌, Option, none, some, List, [], ◌∷◌, arith, All,
  if◌then◌else◌,
}
use vnelogging.LogQueue
use vnelogging.LogQueue.{LogQueue, drain-parts, items-push}
use vnelogging.LogQueueWorker.{
  Task, message, dummy, RunPc, draining, executing, StopPc, not_called, cleared, pushed, joined,
  State, created, start, submit, taken, execute, run_at, run_turn, join_at, stop_at, stop_turn,
  Actor, submits, worker, stopper, flusher, or_wait, turn, run_schedule, batch_size,
}
use vnelogging.LogQueueWorker.Order.{NotFlusher}
use vnelogging.LogQueueWorker.Stop.{
  remaining, Woken, IsWoken, worker_turns, append-ne-nil, run_schedule-IsWoken, remaining-zero,
}

module _ {ℓ} {A : Type ℓ} where
  -- `stop` has cleared the flag.
  abbrev Down : StopPc A → Type 0
  Down not_called = ⊥
  Down _ = Unit

  -- What holds from the start on, whether `stop` has been called or not.
  record Inv (s : State A) : Type ℓ where
    near : remaining s.run_pc ≤ 35
    down : Down s.stop_pc → s.running ≡ false
    wakes : Woken s.stop_pc → s.run_pc ≡ draining → s.log_queue.items ≢ []

  Woken-Down : (pc : StopPc A) → Woken pc → Down pc
  Woken-Down pushed w = tt
  Woken-Down joined w = tt
  Woken-Down not_called w = absurd w
  Woken-Down cleared w = absurd w

  submit-Inv : (task : Task A) (s : State A) → Inv s → Inv (submit task s)
  unfolding submit
  submit-Inv task s v = record {
    near = v.near;
    down = v.down;
    wakes = λ _ _. rw (items-push task s.log_queue) (append-ne-nil s.log_queue.items task);
  }

  taken-Inv :
      (s : State A) (o : Option (List (Task A) × LogQueue (Task A)))
      → LogQueue.drain batch_size s.log_queue ≡ o
      → Inv s
      → Inv (or_wait s (taken s o))
  unfolding taken
  taken-Inv s none d v = v
  taken-Inv s (some (batch, left)) d v =
      let parts = drain-parts batch_size s.log_queue left batch d in
      record { near = omega (arith, parts.1); down = v.down; wakes = λ _ y. cc }

  tested-near :
      (b : Bool) (pc : RunPc A) → pc ≡ (if b then draining else RunPc.returned) → remaining pc ≤ 35
  tested-near true pc e = rw e (omega arith)
  tested-near false pc e = rw e (omega arith)

  run_at-Inv : (s : State A) (pc : RunPc A) → s.run_pc ≡ pc → Inv s → Inv (or_wait s (run_at s pc))
  unfolding run_at execute
  run_at-Inv s RunPc.testing e v = record {
    near = tested-near s.running _ refl;
    down = v.down;
    wakes = λ w y. cc (v.down (Woken-Down s.stop_pc w), y);
  }
  run_at-Inv s draining e v = taken-Inv s _ refl v
  run_at-Inv s (executing []) e v = record { near = omega arith; down = v.down; wakes = λ _ y. cc }
  run_at-Inv s (executing (task ∷ rest)) e v = record {
    near = omega (arith, rw e at v.near);
    down = v.down;
    wakes = λ _ y. cc;
  }
  run_at-Inv s RunPc.returned e v = v

  join_at-Inv :
      (s : State A) (pc : RunPc A) → Woken s.stop_pc → Inv s → Inv (or_wait s (join_at s pc))
  unfolding join_at
  join_at-Inv s RunPc.returned w v = record {
    near = v.near;
    down = λ _. v.down (Woken-Down s.stop_pc w);
    wakes = λ _. v.wakes w;
  }
  join_at-Inv s _ w v = v

  stop_at-Inv :
      (s : State A) (pc : StopPc A) → s.stop_pc ≡ pc → Inv s → Inv (or_wait s (stop_at s pc))
  unfolding stop_at
  stop_at-Inv s not_called e v = record { near = v.near; down = λ _. refl; wakes = λ w. absurd w }
  stop_at-Inv s cleared e v =
      let down = v.down (rw e tt) in
      let u = submit-Inv dummy s v in
      record {
        near = u.near;
        down = λ _. submit-running dummy s down;
        wakes = λ _ _. submit-items dummy s;
      }
    where
      submit-running :
          (task : Task A) (s : State A) → s.running ≡ false → (submit task s).running ≡ false
      submit-running task s d = unfold submit in d

      submit-items : (task : Task A) (s : State A) → (submit task s).log_queue.items ≢ []
      submit-items task s =
          unfold submit in rw (items-push task s.log_queue) (append-ne-nil s.log_queue.items task)
  stop_at-Inv s pushed e v = join_at-Inv s s.run_pc (rw e tt) v
  stop_at-Inv s joined e v = v

  turn-Inv : (s : State A) (actor : Actor A) → NotFlusher actor → Inv s → Inv (turn s actor)
  unfolding turn run_turn stop_turn
  turn-Inv s (submits a) n v = submit-Inv (message a) s v
  turn-Inv s worker n v = run_at-Inv s s.run_pc refl v
  turn-Inv s stopper n v = stop_at-Inv s s.stop_pc refl v
  turn-Inv s flusher n v = absurd n

  run_schedule-Inv :
      (s : State A) (schedule : List (Actor A))
      → All NotFlusher schedule
      → Inv s
      → Inv (run_schedule s schedule)
  unfolding run_schedule
  run_schedule-Inv s [] n v = v
  run_schedule-Inv s (actor ∷ rest) n v =
      run_schedule-Inv (turn s actor) rest n.1 (turn-Inv s actor n.0 v)

  start-Inv : Inv (start (created {A = A}))
  unfolding start
  start-Inv = record { near = omega arith; down = λ d. absurd d; wakes = λ w. absurd w }

  join_turn :
      (s : State A)
      → Woken s.stop_pc
      → s.run_pc ≡ RunPc.returned
      → (turn s stopper).stop_pc ≡ joined
  unfolding turn stop_turn
  join_turn s w e = at s.stop_pc refl w
    where
      at : (pc : StopPc A) → s.stop_pc ≡ pc → Woken pc → (or_wait s (stop_at s pc)).stop_pc ≡ joined
      at not_called y u = absurd u
      at cleared y u = absurd u
      at pushed y u = rw (e, stop_at, join_at) refl
      at joined y u = y

  -- `stop` always returns: once it has pushed the dummy, in any state that pushes, the worker and
  -- `stop` lead to from the start, the worker returns within 35 of its turns, whatever is pushed in
  -- between, and the next turn of `stop` is past `join`. No flush may be under way.
  pub stop_returns :
      (before after : List (Actor A))
      → All NotFlusher before
      → All NotFlusher after
      → (run_schedule (start created) before).stop_pc ≡ pushed
      → 35 ≤ worker_turns after
      → let s = run_schedule (run_schedule (start created) before) after in
        (s.run_pc ≡ RunPc.returned) × ((turn s stopper).stop_pc ≡ joined)
  stop_returns before after quiet quiet' reached turns = (home, join_turn _ end.0.woken home)
    where
      s : State A
      s = run_schedule (start created) before

      v : Inv s
      v = run_schedule-Inv (start created) before quiet start-Inv

      w : IsWoken s
      w = record {
        stopping = record {
          flag_down = v.down (rw reached tt);
          not_stuck = v.wakes (rw reached tt);
        };
        woken = rw reached tt;
      }

      end :
          IsWoken (run_schedule s after)
          × (remaining (run_schedule s after).run_pc ≤ remaining s.run_pc - worker_turns after)
      end = run_schedule-IsWoken s after quiet' w

      home : (run_schedule s after).run_pc ≡ RunPc.returned
      home = remaining-zero _ (omega (arith, end.1, v.near))
