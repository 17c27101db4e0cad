-- ===== src/LogQueueWorker/Progress.antt =====
-- The worker gets to every message while it is not stopped.
use vnelogging.Common.{
  ℕ, ◌+◌, ◌-◌, ◌*◌, ◌≤◌, Bool, true, false, ◌≡◌, refl, sym, ap, ◌∙◌, ◌≢◌, Option, none, some, List,
  [], ◌∷◌, ◌++◌, append-nil, append_assoc, arith, All, length, length-append, take, take_all,
  take-append, if◌then◌else◌,
}
use vnelogging.LogQueue
use vnelogging.LogQueue.{LogQueue, drain-take}
use vnelogging.LogQueueWorker.{
  Task, message, RunPc, draining, executing, State, created, start, submit, taken, execute, run_at,
  run_turn, Actor, submits, worker, stopper, flusher, or_wait, turn, run_schedule, batch_size,
}
use vnelogging.LogQueueWorker.Order.{IsFifo, pending, fifo_at, turn-IsFifo, start-IsFifo}
use vnelogging.LogQueueWorker.Cost.{phase, cost, cost_bound, cost-zero, cost-next, cost-executed}
use vnelogging.LogQueueWorker.Stop.{worker_turns}

module _ {ℓ} {A : Type ℓ} where
  -- Neither `flush` nor `stop`.
  abbrev pub IsRunner : Actor A → Type 0
  IsRunner (submits a) = Unit
  IsRunner worker = Unit
  IsRunner stopper = ⊥
  IsRunner flusher = ⊥

  -- What holds while the old tasks `olds` are being run.
  record IsLive (olds : List (Task A)) (s : State A) : Type ℓ where
    ordered : IsFifo s
    running : s.running ≡ true
    home : s.run_pc ≢ RunPc.returned
    later : List (Task A)
    ahead : s.submitted ≡ olds ++ later

  abbrev left : List (Task A) → State A → ℕ
  left olds s = length olds - length s.executed

  drained_none :
      (items : List (Task A))
      → LogQueue.drain batch_size (record { items = items }) ≡ none
      → items ≡ []
  drained_none [] e = refl
  drained_none (task ∷ rest) e = cc (sym e ∙ drain-take batch_size (record { items = task ∷ rest }))

  drained_phase :
      (items batch : List (Task A)) (rest : LogQueue (Task A))
      → LogQueue.drain batch_size (record { items = items }) ≡ some (batch, rest)
      → phase (executing batch) ≡ 0
  unfolding phase
  drained_phase [] batch rest e = cc (sym e ∙ drain-take batch_size (record { items = [] }))
  drained_phase (task ∷ items) [] rest e =
      cc (sym e ∙ drain-take batch_size (record { items = task ∷ items }))
  drained_phase (task ∷ items) (b ∷ batch) rest e = refl

  -- With nothing in hand and nothing in the queue all the old tasks have been run.
  left_none :
      (olds : List (Task A)) (s : State A)
      → IsLive olds s
      → s.run_pc ≡ draining
      → s.log_queue.items ≡ []
      → left olds s ≡ 0
  left_none olds s v e empty =
      let same : olds ++ v.later ≡ s.executed ++ [] =
        sym v.ahead ∙ (fifo_at s draining e v.ordered ∙ ap (◌++◌ s.executed) empty) in
      omega (
        arith,
        length-append olds v.later,
        length-append s.executed [],
        ap (λ (l : List (Task A)). length l) same,
      )

  -- The live state and its cost after a turn.
  Step : List (Task A) → State A → State A → Type ℓ
  Step olds s t = IsLive olds t × (cost (left olds t) t.run_pc ≤ cost (left olds s) s.run_pc - 1)

  worker-IsFifo :
      (s : State A) (pc : RunPc A) → s.run_pc ≡ pc → IsFifo s → IsFifo (or_wait s (run_at s pc))
  unfolding turn run_turn
  worker-IsFifo s pc e v = rw (← e) (turn-IsFifo s worker tt v)

  IsLive-kept :
      (olds : List (Task A)) (s t : State A)
      → IsLive olds s
      → IsFifo t
      → t.running ≡ s.running
      → t.submitted ≡ s.submitted
      → t.run_pc ≢ RunPc.returned
      → IsLive olds t
  IsLive-kept olds s t v f running submitted home = record {
    ordered = f;
    running = running ∙ v.running;
    home = home;
    later = v.later;
    ahead = submitted ∙ v.ahead;
  }

  taken-Step :
      (olds : List (Task A)) (s : State A) (o : Option (List (Task A) × LogQueue (Task A)))
      → s.run_pc ≡ draining
      → LogQueue.drain batch_size s.log_queue ≡ o
      → IsLive olds s
      → IsFifo (or_wait s (taken s o))
      → Step olds s (or_wait s (taken s o))
  unfolding Step taken phase cost
  taken-Step olds s none e d v f =
      (v, rw (left_none olds s v e (drained_none s.log_queue.items d)) (omega arith))
  taken-Step olds s (some (batch, rest)) e d v f = (
    IsLive-kept olds s _ v f refl refl (λ y. cc),
    rw e (
        cost-next (left olds s) draining (executing batch)
          (omega (arith, drained_phase s.log_queue.items batch rest d))),
  )

  abbrev tested : Bool → RunPc A
  tested b = if b then draining else RunPc.returned

  tested-on : (b : Bool) → b ≡ true → tested b ≡ draining
  tested-on true e = refl
  tested-on false e = cc

  run_at-Step :
      (olds : List (Task A)) (s : State A) (pc : RunPc A)
      → s.run_pc ≡ pc
      → IsLive olds s
      → IsFifo (or_wait s (run_at s pc))
      → Step olds s (or_wait s (run_at s pc))
  unfolding Step run_at execute phase
  run_at-Step olds s RunPc.testing e v f =
      let goes : tested s.running ≡ draining = tested-on s.running v.running in
      (
        IsLive-kept olds s _ v f refl refl (λ y. cc),
        rw (e, goes) (cost-next (left olds s) RunPc.testing draining (omega arith)),
      )
  run_at-Step olds s draining e v f = taken-Step olds s _ e refl v f
  run_at-Step olds s (executing []) e v f = (
    IsLive-kept olds s _ v f refl refl (λ y. cc),
    rw e (cost-next (left olds s) (executing []) RunPc.testing (omega arith)),
  )
  run_at-Step olds s (executing (task ∷ rest)) e v f = (
    IsLive-kept olds s _ v f refl refl (λ y. cc),
    rw e (
        cost-executed (left olds s) _ task rest
          (omega (arith, length-append s.executed (task ∷ [])))),
  )
  run_at-Step olds s RunPc.returned e v f = absurd (v.home e)

  submit-Step :
      (olds : List (Task A)) (s : State A) (a : A)
      → IsLive olds s
      → let t = turn s (submits a) in
        IsLive olds t × (cost (left olds t) t.run_pc ≤ cost (left olds s) s.run_pc)
  unfolding turn submit
  submit-Step olds s a v = (
    record {
      ordered = turn-IsFifo s (submits a) tt v.ordered;
      running = v.running;
      home = v.home;
      later = v.later ++ message a ∷ [];
      ahead = ap (λ l. l ++ message a ∷ []) v.ahead ∙ append_assoc olds v.later (message a ∷ []);
    },
    omega arith,
  )

  run_schedule-IsLive :
      (olds : List (Task A)) (s : State A) (schedule : List (Actor A))
      → All IsRunner schedule
      → IsLive olds s
      → let t = run_schedule s schedule in
        IsLive olds t
        × (cost (left olds t) t.run_pc ≤ cost (left olds s) s.run_pc - worker_turns schedule)
  unfolding run_schedule worker_turns turn run_turn Step
  run_schedule-IsLive olds s [] r v = (v, omega arith)
  run_schedule-IsLive olds s (submits a ∷ rest) r v =
      let (u, le) = submit-Step olds s a v in
      let (w, le') = run_schedule-IsLive olds (turn s (submits a)) rest r.1 u in (w, omega arith)
  run_schedule-IsLive olds s (worker ∷ rest) r v =
      let (u, le) = run_at-Step olds s s.run_pc refl v (worker-IsFifo s s.run_pc refl v.ordered) in
      let (w, le') = run_schedule-IsLive olds (turn s worker) rest r.1 u in (w, omega arith)
  run_schedule-IsLive olds s (stopper ∷ rest) r v = absurd (r.0)
  run_schedule-IsLive olds s (flusher ∷ rest) r v = absurd (r.0)

  start-IsLive : IsLive [] (start (created {A = A}))
  unfolding start
  start-IsLive = record {
    ordered = start-IsFifo;
    running = refl;
    home = λ y. cc;
    later = [];
    ahead = refl;
  }

  -- What is pushed is run: after any pushes and turns of the worker from the start on, once the
  -- worker has had four more turns for each task pushed so far, and three, those tasks are the first
  -- that it has run, in the order in which they were pushed, whatever else is pushed in between.
  -- Neither `stop` nor `flush` may be called.
  pub submitted_runs :
      (before after : List (Actor A))
      → All IsRunner before
      → All IsRunner after
      → 4 * length (run_schedule (start created) before).submitted + 3 ≤ worker_turns after
      → let s = run_schedule (start created) before in
        take (length s.submitted) (run_schedule s after).executed ≡ s.submitted
  submitted_runs before after r r' turns = first
    where
      s : State A
      s = run_schedule (start created) before

      t : State A
      t = run_schedule s after

      reached : IsLive [] s
      reached = (run_schedule-IsLive [] (start created) before r start-IsLive).0

      live : IsLive s.submitted s
      live = record {
        ordered = reached.ordered;
        running = reached.running;
        home = reached.home;
        later = [];
        ahead = sym (append-nil s.submitted);
      }

      end :
          IsLive s.submitted t
          × (cost (left s.submitted t) t.run_pc
              ≤ cost (left s.submitted s) s.run_pc - worker_turns after)
      end = run_schedule-IsLive s.submitted s after r' live

      all_run : left s.submitted t ≡ 0
      all_run =
          cost-zero _ t.run_pc (omega (arith, end.1, cost_bound (left s.submitted s) s.run_pc))

      first : take (length s.submitted) t.executed ≡ s.submitted
      first =
          sym (take-append (length s.submitted) t.executed (pending t) (omega (arith, all_run)))
          ∙ (ap (take (length s.submitted)) (sym (end.0.ordered.fifo) ∙ end.0.ahead)
              ∙ (take-append (length s.submitted) s.submitted end.0.later (omega arith)
                  ∙ take_all (length s.submitted) s.submitted (omega arith)))
