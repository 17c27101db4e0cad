-- ===== src/LogStream/Names.antt =====
-- log_stream.cpp: a message leaves the names and classes of the loggers and the list of them alone.
use vnelogging.Common.{ℕ, Option, none, some, inl, inr, Bool-cases, get_elem?}
use vnelogging.Host.{Host}
use vnelogging.Logger
use vnelogging.Logger.Names.{identity-log}
use vnelogging.LoggerController
use vnelogging.Process.{Process}
use vnelogging.Process.Names.{SameNames, SameNames-refl, SameNames-modify_in}
use vnelogging.LogStream.{LogStream, to_record, passes, log_to, destroy}

pub SameNames-destroy :
    (h : Host) (thread : ℕ) (s : LogStream) (p : Process) → SameNames (destroy h thread s p) p
unfolding destroy log_to
SameNames-destroy h thread s p = at (LoggerController.get_logger p.store s.logger_name p.registry)
  where
    at : (o : Option ℕ) → SameNames (log_to h thread s p o) p
    at none = SameNames-refl p
    at (some q) = elim (Bool-cases (passes s (get_elem? p.store q))) [
      | inl wanted ↦
          rw (wanted, log_to)
            (SameNames-modify_in q (Logger.log h thread (to_record s)) p
              (identity-log h thread (to_record s)))
      | inr dropped ↦ rw (dropped, log_to) (SameNames-refl p)
    ]
