-- ===== src/LogManager/Again.antt =====
-- log_manager.cpp and logging.cpp: a logger that is asked for again.
use vnelogging.Common.{
  ℕ, ◌≡◌, refl, ◌∙◌, Bool, Option, none, some, List, inl, inr, Option-cases, Text, str_eq_refl,
  length,
}
use vnelogging.Common.Dict.{lookup, insert, lookup-insert}
use vnelogging.Process.{Process}
use vnelogging.LogManager.{LogManager, created, create_logger, is_logger_async}

lookup-insert_same :
    (k : Text) {V : Type 0} (v : V) (m : List (Text × V)) → lookup k (insert k v m) ≡ some v
lookup-insert_same k v m = lookup-insert k k v m ∙ rw (str_eq_refl k) refl

-- The kind of a logger: that of the call if the name was new, else as it was.
abbrev pub kind_after : Option ℕ → Bool → Bool → Bool
kind_after none asked before = asked
kind_after (some p) asked before = before

-- The kind that the first call asks for stays: a second call for the same name, of whatever kind,
-- answers the first call's logger and changes nothing. After the first call `isLoggerAsync` answers
-- the kind that it asked for if the name was new, and else what it answered before.
pub create_logger-again :
    (name : Text) (first second : Bool) (m : LogManager) (s : Process)
    → let made = create_logger name first m s in
      (create_logger name second made.manager made.process ≡ made)
      × (is_logger_async name made.manager
          ≡ kind_after (lookup name m.loggers) first (is_logger_async name m))
unfolding create_logger created is_logger_async
create_logger-again name first second m s = elim (Option-cases (lookup name m.loggers)) [
  | inl fresh ↦ rw fresh (
    rw (lookup-insert_same name (length s.store) m.loggers) refl,
    rw (lookup-insert_same name first m.logger_async_state) refl,
  )
  | inr (p, there) ↦ rw there (rw there refl, refl)
]
