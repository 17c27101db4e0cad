-- ===== src/AsyncLogger/Crowd/Places.antt =====
-- Each record that a crowd of threads is to log is in one place, whatever the schedule.
use mathlib.Core.List.{Perm, perm_middle}
use mathlib.Core.List.Perm
use vnelogging.Common.{
  ℕ, ◌≡◌, refl, sym, ap, subst, ◌∙◌, inl, inr, Option, none, some, List, [], ◌∷◌, ◌++◌,
  append_assoc, Bool-cases, set, get_elem?,
}
use vnelogging.LogLevel.{LogLevel, at_least}
use vnelogging.LogFormatter.{LogRecord}
use vnelogging.LogQueue
use vnelogging.LogQueue.{LogQueue, pop-parts}
use vnelogging.LogQueueWorker
use vnelogging.LogQueueWorker.{Task, message, dummy, State, submits, worker, stopper}
use vnelogging.LogQueueWorker.Effects.{
  due, executed-worker, executed-stopper, executed-submits, submitted-worker, submitted-submits,
}
use vnelogging.LogQueueWorker.Shared.{
  IsShared, submits-IsShared, worker-IsShared, stopper-IsShared, pop-IsShared, run-IsShared,
}
use vnelogging.AsyncLogger.Crowd.{
  CallerPc, ready, flush_testing, flush_popping, flushing_sinks, flush_holding, Caller, at_pc,
  Crowd, run_task, log_next, pop_next, caller_at, caller_turn, Turn, calls, works, stops, perform,
  perform_all,
}
use vnelogging.LogQueueWorker.Messages.{messages, messages-append, messages-stopper}
use vnelogging.AsyncLogger.Crowd.Records.{
  held_by, holds, passing, to_log, tasks_of, tasks_of-more, tasks_of-flush, passing-above,
  passing-below, held-after_log, held-after_test,
}
use vnelogging.AsyncLogger.Crowd.Split.{around, all_of, all_of-whole, all_of-written, all_of-same}

module _ (level flush_level : LogLevel) (worker_thread : ℕ) (everything : List LogRecord) where
  -- The tasks pushed are those run and those pending, the records of the beginning are those pushed
  -- and those still to log, up to order; and the history is what was run.
  pub record IsPlaced (s : Crowd) : Type 0 where
    pub tasks : IsShared (all_of holds s.callers) s.queue
    pub records : Perm everything (messages s.queue.submitted ++ all_of (to_log level) s.callers)
    pub ran : tasks_of s.history ≡ s.queue.executed

  -- A thread that moves on with the same task in hand and the same records to log.
  moved :
      (s : Crowd) (i : ℕ) (c c' : Caller)
      → get_elem? s.callers i ≡ some c
      → holds c' ≡ holds c
      → to_log level c' ≡ to_log level c
      → IsPlaced s
      → IsPlaced (record s { callers = set s.callers i c' })
  moved s i c c' e same same' v = record {
    tasks = rw (all_of-same holds s.callers i c e c' same) v.tasks;
    records = rw (all_of-same (to_log level) s.callers i c e c' same') v.records;
    ran = v.ran;
  }

  -- A record that is pushed.
  pushed_record :
      (before after rest : List LogRecord) (r : LogRecord) (q : State LogRecord)
      → Perm everything (messages q.submitted ++ (before ++ ((r ∷ rest) ++ after)))
      → Perm everything
          (messages (LogQueueWorker.turn q (submits r)).submitted ++ (before ++ (rest ++ after)))
  unfolding messages
  pushed_record before after rest r q p =
      rw (submitted-submits q r, messages-append q.submitted (message r ∷ []), append_assoc)
        (Perm.trans p
          (Perm.append_left (messages q.submitted) (perm_middle before (rest ++ after))))

  -- `log` of a record that passes the level, whether it is to be flushed or not.
  pushes-IsPlaced :
      (s : Crowd) (i : ℕ) (c : Caller) (r : LogRecord) (rest : List LogRecord) (pc : CallerPc)
      → get_elem? s.callers i ≡ some c
      → holds c ≡ []
      → held_by pc ≡ []
      → to_log level c ≡ r ∷ passing level rest
      → IsPlaced s
      → IsPlaced (record s {
        callers = set s.callers i (record c { todo = rest; pc = pc });
        queue = LogQueueWorker.turn s.queue (submits r);
      })
  pushes-IsPlaced s i c r rest pc e idle idle' passes v =
      let c' = record c { todo = rest; pc = pc } in
      let a = around s.callers i c e in
      let others = all_of (to_log level) in
      record {
        tasks =
            rw (all_of-same holds s.callers i c e c' (idle' ∙ sym idle))
              (submits-IsShared _ r s.queue v.tasks);
        records = rw (all_of-written (to_log level) s.callers i c e c') (
            pushed_record (others a.before) (others a.after) (passing level rest) r s.queue (
              subst (λ rs. Perm everything (messages s.queue.submitted ++ rs))
                (all_of-whole (to_log level) s.callers i c e
                  ∙ ap (λ rs. others a.before ++ (rs ++ others a.after)) passes)
                v.records));
        ran = v.ran ∙ sym (executed-submits s.queue r);
      }

  log_next-IsPlaced :
      (s : Crowd) (i : ℕ) (c : Caller) (rs : List LogRecord)
      → get_elem? s.callers i ≡ some c
      → c.pc ≡ ready
      → c.todo ≡ rs
      → IsPlaced s
      → IsPlaced (log_next level flush_level worker_thread i c rs s)
  unfolding log_next
  log_next-IsPlaced s i c [] e at rs v = v
  log_next-IsPlaced s i c (r ∷ rest) e at rs v = elim (Bool-cases (at_least r.level level)) [
    | inl wanted ↦ rw wanted (
        pushes-IsPlaced s i c r rest _ e (ap held_by at)
          (held-after_log (at_least r.level flush_level))
          (ap (passing level) rs ∙ passing-above level r rest wanted) v)
    | inr dropped ↦ rw dropped (
        moved s i c (record c { todo = rest; pc = ready }) e (sym (ap held_by at))
          (sym (ap (passing level) rs ∙ passing-below level r rest dropped)) v)
  ]

  pop_next-IsPlaced :
      (s : Crowd) (i : ℕ) (c : Caller) (o : Option (Task LogRecord × LogQueue (Task LogRecord)))
      → get_elem? s.callers i ≡ some c
      → c.pc ≡ flush_popping
      → LogQueue.pop s.queue.log_queue ≡ o
      → IsPlaced s
      → IsPlaced (pop_next level flush_level worker_thread i c o s)
  unfolding pop_next
  pop_next-IsPlaced s i c none e at p v = v
  pop_next-IsPlaced s i c (some (task, left)) e at p v =
      let c' = at_pc c (flush_holding task) in
      let a = around s.callers i c e in
      record {
        tasks = rw (all_of-written holds s.callers i c e c') (
            pop-IsShared (all_of holds a.before) (all_of holds a.after) task s.queue left
              (pop-parts s.queue.log_queue left task p)
              (subst (λ held. IsShared held s.queue)
                (all_of-whole holds s.callers i c e
                  ∙ ap (λ ts. all_of holds a.before ++ (ts ++ all_of holds a.after))
                      (ap held_by at))
                v.tasks));
        records = rw (all_of-same (to_log level) s.callers i c e c' refl) v.records;
        ran = v.ran;
      }

  -- A task in hand that is run.
  runs-IsPlaced :
      (s : Crowd) (i : ℕ) (c : Caller) (task : Task LogRecord)
      → get_elem? s.callers i ≡ some c
      → c.pc ≡ flush_holding task
      → IsPlaced s
      → IsPlaced (caller_at level flush_level worker_thread i c (flush_holding task) s)
  unfolding caller_at run_task
  runs-IsPlaced s i c task e at v =
      let c' = at_pc c flush_testing in
      let a = around s.callers i c e in
      record {
        tasks = rw (all_of-written holds s.callers i c e c') (
            run-IsShared (all_of holds a.before) (all_of holds a.after) task s.queue (
              subst (λ held. IsShared held s.queue)
                (all_of-whole holds s.callers i c e
                  ∙ ap (λ ts. all_of holds a.before ++ (ts ++ all_of holds a.after))
                      (ap held_by at))
                v.tasks));
        records = rw (all_of-same (to_log level) s.callers i c e c' refl) v.records;
        ran = tasks_of-more s.history c.thread (task ∷ []) ∙ ap (λ ts. ts ++ task ∷ []) v.ran;
      }

  caller_at-IsPlaced :
      (s : Crowd) (i : ℕ) (c : Caller) (pc : CallerPc)
      → get_elem? s.callers i ≡ some c
      → c.pc ≡ pc
      → IsPlaced s
      → IsPlaced (caller_at level flush_level worker_thread i c pc s)
  unfolding caller_at
  caller_at-IsPlaced s i c ready e at v = log_next-IsPlaced s i c c.todo e at refl v
  caller_at-IsPlaced s i c flush_testing e at v =
      moved s i c _ e (held-after_test (LogQueue.empty s.queue.log_queue) ∙ sym (ap held_by at))
        refl v
  caller_at-IsPlaced s i c flush_popping e at v = pop_next-IsPlaced s i c _ e at refl v
  caller_at-IsPlaced s i c (flush_holding task) e at v = runs-IsPlaced s i c task e at v
  caller_at-IsPlaced s i c flushing_sinks e at v =
      let same = moved s i c (at_pc c ready) e (sym (ap held_by at)) refl v in
      record {
        tasks = same.tasks;
        records = same.records;
        ran = tasks_of-flush s.history c.thread ∙ v.ran;
      }

  caller_turn-IsPlaced :
      (s : Crowd) (i : ℕ) (o : Option Caller)
      → get_elem? s.callers i ≡ o
      → IsPlaced s
      → IsPlaced (caller_turn level flush_level worker_thread i o s)
  unfolding caller_turn
  caller_turn-IsPlaced s i none e v = v
  caller_turn-IsPlaced s i (some c) e v = caller_at-IsPlaced s i c c.pc e refl v

  perform-IsPlaced :
      (t : Turn) (s : Crowd) → IsPlaced s → IsPlaced (perform level flush_level worker_thread t s)
  unfolding perform run_task
  perform-IsPlaced (calls i) s v = caller_turn-IsPlaced s i _ refl v
  perform-IsPlaced works s v = record {
    tasks = worker-IsShared _ s.queue v.tasks;
    records = rw (submitted-worker s.queue) v.records;
    ran =
        tasks_of-more s.history worker_thread (due s.queue.run_pc)
        ∙ ap (λ ts. ts ++ due s.queue.run_pc) v.ran
        ∙ sym (executed-worker s.queue);
  }
  perform-IsPlaced stops s v = record {
    tasks = stopper-IsShared _ s.queue v.tasks;
    records = rw (messages-stopper s.queue) v.records;
    ran = v.ran ∙ sym (executed-stopper s.queue);
  }

  pub perform_all-IsPlaced :
      (ts : List Turn) (s : Crowd)
      → IsPlaced s
      → IsPlaced (perform_all level flush_level worker_thread ts s)
  unfolding perform_all
  perform_all-IsPlaced [] s v = v
  perform_all-IsPlaced (t ∷ ts) s v =
      perform_all-IsPlaced ts (perform level flush_level worker_thread t s) (perform-IsPlaced t s v)
