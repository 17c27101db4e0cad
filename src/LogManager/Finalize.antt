-- ===== src/LogManager/Finalize.antt =====
-- log_manager.cpp, `finalize`: every logger of the manager is flushed.
use vnelogging.Common.{
  ℕ, ◌≡◌, ◌≢◌, ◌⊎◌, subst, refl, ap, ◌∙◌, some, List, [], ◌∷◌, inl, inr, arith, Bool-cases, Text,
  ◌==◌, ==_iff, str_eq, get_elem?,
}
use vnelogging.Common.Dict.{lookup}
use vnelogging.Host.{Host, World}
use vnelogging.Logger
use vnelogging.Logger.{Logger, sync, async, get_log_sinks}
use vnelogging.Logger.Durable.{waiting, IsDelivered, flush-IsDelivered, flush-again}
use vnelogging.LogQueueWorker.Messages.{messages}
use vnelogging.Process.{Process, modify_in}
use vnelogging.Process.Stored.{stored_here, stored_elsewhere}
use vnelogging.LogManager.{LogManager, finalize_one, finalize_all, finalize}

module _ (h : Host) (thread : ℕ) (Before After : Logger → Type 0) where
  -- `flush` turns what holds before into what holds after, and what holds after stays.
  pub record IsSettling : Type 0 where
    pub settles : (l : Logger) (w : World) → Before l → After (Logger.flush h thread l w).0
    pub weaker : (l : Logger) → After l → Before l

  module _ (settling : IsSettling) (p : ℕ) where
    -- The logger at the address, and what holds of it.
    abbrev pub Stored : (Logger → Type 0) → Process → Type 0
    Stored P s = (l : Logger) × (get_elem? s.store p ≡ some l) × P l

    flushed_here :
        (s : Process) → Stored Before s → Stored After (modify_in p (Logger.flush h thread) s)
    flushed_here s (l, e, b) = (
      (Logger.flush h thread l s.world).0,
      stored_here p (Logger.flush h thread) s l e,
      settling.settles l s.world b,
    )

    flushed_elsewhere :
        (P : Logger → Type 0) (q : ℕ) (s : Process)
        → q ≢ p
        → Stored P s
        → Stored P (modify_in q (Logger.flush h thread) s)
    flushed_elsewhere P q s ne (l, e, b) =
        (l, stored_elsewhere p q (Logger.flush h thread) s ne ∙ e, b)

    weakened : (s : Process) → Stored After s → Stored Before s
    weakened s (l, e, b) = (l, e, settling.weaker l b)

    After-finalize_one :
        (k : Text) (q : ℕ) (s : Process)
        → Stored After s
        → Stored After (finalize_one h thread (k, q) s)
    unfolding finalize_one
    After-finalize_one k q s v = elim (Bool-cases (q == p)) [
      | inl y ↦ rw ((==_iff q p).0 y) (flushed_here s (weakened s v))
      | inr n ↦ flushed_elsewhere After q s (ground arith) v
    ]

    After-finalize_all :
        (entries : List (Text × ℕ)) (s : Process)
        → Stored After s
        → Stored After (finalize_all h thread entries s)
    unfolding finalize_all
    After-finalize_all [] s v = v
    After-finalize_all ((k, q) ∷ rest) s v =
        After-finalize_all rest (finalize_one h thread (k, q) s) (After-finalize_one k q s v)

    -- The logger under the name is reached.
    finalize_all-settles :
        (name : Text) (entries : List (Text × ℕ)) (s : Process)
        → lookup name entries ≡ some p
        → Stored Before s
        → Stored After (finalize_all h thread entries s)
    unfolding finalize_all finalize_one lookup
    finalize_all-settles name [] s e v = cc
    finalize_all-settles name ((k, q) ∷ rest) s e v = elim (Bool-cases (q == p)) [
      | inl y ↦
          After-finalize_all rest (finalize_one h thread (k, q) s)
            (rw ((==_iff q p).0 y) (flushed_here s v))
      | inr n ↦ elim (Bool-cases (str_eq k name)) [
        | inl same ↦ absurd (ground arith)
        | inr other ↦
            finalize_all-settles name rest (finalize_one h thread (k, q) s) (rw other at e)
              (flushed_elsewhere Before q s (ground arith) v)
      ]
    ]

    pub finalize-settles :
        (name : Text) (m : LogManager) (s : Process)
        → lookup name m.loggers ≡ some p
        → Stored Before s
        → Stored After (finalize h thread m s).1
    unfolding finalize
    finalize-settles name m s e v = finalize_all-settles name m.loggers s e v

-- What holds of a logger that was `l` before the flushes, and after one or more of them.
module _ (h : Host) (thread : ℕ) (l : Logger) where
  abbrev pub After : Logger → Type 0
  After k = (w : World) × IsDelivered h thread (messages (waiting l)) (get_log_sinks l) w k

  abbrev pub Before : Logger → Type 0
  Before k = (k ≡ l) ⊎ After k

  first_flush : (k : Logger) (w : World) → k ≡ l → After (Logger.flush h thread k w).0
  first_flush k w same = (
    w,
    subst
        (λ j.
          IsDelivered h thread (messages (waiting j)) (get_log_sinks j) w
            (Logger.flush h thread k w).0)
        same (flush-IsDelivered h thread k w),
  )

  later_flush : (k : Logger) (w : World) → After k → After (Logger.flush h thread k w).0
  later_flush k w (v, d) = (
    v,
    record {
      no_task = (flush-IsDelivered h thread k w).no_task;
      logged = flush-again h thread k w d.no_task d.no_text ∙ d.logged;
      no_text = (flush-IsDelivered h thread k w).no_text;
    },
  )

  flush-settling : IsSettling h thread Before After
  flush-settling = record {
    settles = λ k w b. elim b [ inl same ↦ first_flush k w same | inr d ↦ later_flush k w d ];
    weaker = λ k d. inr d;
  }

-- With no other thread at work `finalize` delivers all that waits: every logger that the manager has
-- under a name, of either kind, ends with no task waiting; its sinks are as after the
-- records that waited in its queue are logged to them, in order and from some state of the process,
-- and as after a flush, so that a further flush changes none of them; and the manager has no loggers.
pub finalize-IsDelivered :
    (h : Host) (thread : ℕ) (m : LogManager) (s : Process) (name : Text) (p : ℕ) (l : Logger)
    → lookup name m.loggers ≡ some p
    → get_elem? s.store p ≡ some l
    → let (m', s') = finalize h thread m s in
      ((l' : Logger) × (get_elem? s'.store p ≡ some l')
        × (w : World) × IsDelivered h thread (messages (waiting l)) (get_log_sinks l) w l')
      × (m'.loggers ≡ [])
unfolding finalize
finalize-IsDelivered h thread m s name p l e stored =
    let (l', stored', (w, delivered)) =
      finalize-settles h thread (Before h thread l) (After h thread l) (flush-settling h thread l) p
        name m s e (l, stored, inl refl) in
    ((l', stored', w, delivered), refl)

-- Where a logger is the manager's only one, `finalize` is its `flush`.
pub finalize_alone :
    (h : Host) (thread : ℕ) (m : LogManager) (s : Process) (name : Text) (p : ℕ) (l : Logger)
    → m.loggers ≡ (name, p) ∷ []
    → get_elem? s.store p ≡ some l
    → get_elem? (finalize h thread m s).1.store p ≡ some (Logger.flush h thread l s.world).0
unfolding finalize finalize_all finalize_one
finalize_alone h thread m s name p l only stored =
    ap (λ entries. get_elem? (finalize_all h thread entries s).store p) only
    ∙ stored_here p (Logger.flush h thread) s l stored
