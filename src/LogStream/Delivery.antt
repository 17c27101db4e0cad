-- ===== src/LogStream/Delivery.antt =====
-- log_stream.cpp: a message and the logger that it finds.
use vnelogging.Common.{
  ℕ, ◌≡◌, ◌≢◌, refl, true, Option, none, false, some, inl, inr, Bool-cases, get_elem?,
}
use vnelogging.LogLevel.{at_least}
use vnelogging.Host.{Host, World}
use vnelogging.Logger
use vnelogging.Logger.{Logger, sync, get_current_log_level}
use vnelogging.LoggerController
use vnelogging.Process.{Process, modify_in}
use vnelogging.Process.Stored.{stored_here, world_here, stored_elsewhere}
use vnelogging.Logger.Calls.{log-dropped}
use vnelogging.LogStream.{LogStream, to_record, log_to, passes, destroy}

module _ (h : Host) (thread : ℕ) (s : LogStream) (state : Process) (p : ℕ) (l : Logger)
    (found : LoggerController.get_logger state.store s.logger_name state.registry ≡ some p)
    (stored : get_elem? state.store p ≡ some l) where
  destroy-passed :
      at_least s.log_level (get_current_log_level l) ≡ true
      → destroy h thread s state ≡ modify_in p (Logger.log h thread (to_record s)) state
  unfolding destroy log_to passes
  destroy-passed wanted = rw (found, destroy, stored, wanted) refl

  destroy-dropped :
      at_least s.log_level (get_current_log_level l) ≡ false → destroy h thread s state ≡ state
  unfolding destroy log_to passes
  destroy-dropped dropped = rw (found, destroy, stored, dropped) refl

-- A message for a logger is the logger's `log`, whether it passes its level or not.
module _ (h : Host) (thread : ℕ) (s : LogStream) (state : Process) (p : ℕ) (l : Logger)
    (found : LoggerController.get_logger state.store s.logger_name state.registry ≡ some p)
    (stored : get_elem? state.store p ≡ some l) where
  abbrev logged : Logger × World
  logged = Logger.log h thread (to_record s) l state.world

  pub destroy-stored :
      let t = destroy h thread s state in
      (get_elem? t.store p ≡ some (logged.0)) × (t.world ≡ logged.1)
  destroy-stored = elim (Bool-cases (at_least s.log_level (get_current_log_level l))) [
    | inl wanted ↦ rw (destroy-passed h thread s state p l found stored wanted) (
      stored_here p (Logger.log h thread (to_record s)) state l stored,
      world_here p (Logger.log h thread (to_record s)) state l stored,
    )
    | inr dropped ↦
        rw
          (
            destroy-dropped h thread s state p l found stored dropped,
            log-dropped h thread (to_record s) l state.world dropped,
          )
          (stored, refl)
  ]

-- A message for a logger elsewhere.
pub destroy-elsewhere :
    (h : Host) (thread : ℕ) (s : LogStream) (state : Process) (p : ℕ)
    → ((q : ℕ)
        → LoggerController.get_logger state.store s.logger_name state.registry ≡ some q
        → q ≢ p)
    → get_elem? (destroy h thread s state).store p ≡ get_elem? state.store p
unfolding destroy log_to
destroy-elsewhere h thread s state p apart =
    at (LoggerController.get_logger state.store s.logger_name state.registry) apart
  where
    at :
        (o : Option ℕ)
        → ((q : ℕ) → o ≡ some q → q ≢ p)
        → get_elem? (log_to h thread s state o).store p ≡ get_elem? state.store p
    at none apart = refl
    at (some q) apart = elim (Bool-cases (passes s (get_elem? state.store q))) [
      | inl wanted ↦
          rw (wanted, log_to)
            (stored_elsewhere p q (Logger.log h thread (to_record s)) state (apart q refl))
      | inr dropped ↦ rw (dropped, log_to) refl
    ]
