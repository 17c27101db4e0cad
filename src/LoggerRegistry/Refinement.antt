-- ===== src/LoggerRegistry/Refinement.antt =====
-- logger_registry.cpp against a plain map from names to loggers.
use vnelogging.Common.{
  ℕ, ◌≡◌, refl, ◌∙◌, Option, none, some, List, [], ◌∷◌, Text, str_eq, if◌then◌else◌,
}
use vnelogging.Common.Dict.{lookup, lookup-insert, lookup-erase}
use vnelogging.LoggerRegistry
use vnelogging.LoggerRegistry.{LoggerRegistry, with_current, empty}

-- Calls, those that concern a current logger on a thread.
pub data Call : Type 0 where
  register : ℕ → Text → Option ℕ → Call
  unregister : Text → Call
  unregister_all : ℕ → Call
  make_current : ℕ → Text → Call

unfoldable pub perform : Call → LoggerRegistry → LoggerRegistry
perform (register thread name p) r = LoggerRegistry.register_logger thread name p r
perform (unregister name) r = LoggerRegistry.unregister_logger name r
perform (unregister_all thread) r = LoggerRegistry.unregister_all thread r
perform (make_current thread name) r = LoggerRegistry.set_current_logger thread name r

unfoldable pub perform_all : List Call → LoggerRegistry → LoggerRegistry
unfolding perform
perform_all [] r = r
perform_all (call ∷ rest) r = perform_all rest (perform call r)

-- What the registry promises, as two functions.
pub record Promise : Type 0 where
  pub logger : Text → Option ℕ
  pub current : ℕ → Option ℕ

abbrev pub promise_empty : Promise
promise_empty = record { logger = λ name. none; current = λ thread. none }

abbrev at_name : (Text → Option ℕ) → Text → Option ℕ → Text → Option ℕ
at_name f name o j = if str_eq name j then o else f j

-- A null pointer is not registered; a registered logger becomes the thread's current one; a current
-- logger stays so when its name goes.
pub promised : Call → Promise → Promise
promised (register thread name none) m = m
promised (register thread name (some p)) m = record {
  logger = at_name m.logger name (some p);
  current = with_current m.current thread (some p);
}
promised (unregister name) m = record m { logger = at_name m.logger name none }
promised (unregister_all thread) m = record {
  logger = λ name. none;
  current = with_current m.current thread none;
}
promised (make_current thread name) m = record m {
  current = with_current m.current thread (m.logger name);
}

pub promised_all : List Call → Promise → Promise
promised_all [] m = m
promised_all (call ∷ rest) m = promised_all rest (promised call m)

record IsKept (r : LoggerRegistry) (m : Promise) : Type 0 where
  loggers : (name : Text) → LoggerRegistry.get_logger name r ≡ m.logger name
  currents : (thread : ℕ) → LoggerRegistry.get_current_logger thread r ≡ m.current thread

perform-IsKept :
    (call : Call) (r : LoggerRegistry) (m : Promise)
    → IsKept r m
    → IsKept (perform call r) (promised call m)
unfolding perform promised LoggerRegistry.register_logger LoggerRegistry.unregister_logger
    LoggerRegistry.unregister_all LoggerRegistry.set_current_logger LoggerRegistry.get_logger
    LoggerRegistry.get_current_logger lookup
perform-IsKept (register thread name none) r m k = k
perform-IsKept (register thread name (some p)) r m k = record {
  loggers = λ j. lookup-insert name j p r.registry ∙ rw (k.loggers j) refl;
  currents = λ t. rw (k.currents t) refl;
}
perform-IsKept (unregister name) r m k = record {
  loggers = λ j. lookup-erase name j r.registry ∙ rw (k.loggers j) refl;
  currents = k.currents;
}
perform-IsKept (unregister_all thread) r m k = record {
  loggers = λ j. refl;
  currents = λ t. rw (k.currents t) refl;
}
perform-IsKept (make_current thread name) r m k = record {
  loggers = k.loggers;
  currents = λ t. rw (k.loggers name, k.currents t) refl;
}

perform_all-IsKept :
    (calls : List Call) (r : LoggerRegistry) (m : Promise)
    → IsKept r m
    → IsKept (perform_all calls r) (promised_all calls m)
unfolding perform_all promised_all
perform_all-IsKept [] r m k = k
perform_all-IsKept (call ∷ rest) r m k =
    perform_all-IsKept rest (perform call r) (promised call m) (perform-IsKept call r m k)

-- The registry keeps its promise: after any calls, on any threads, `getLogger` and each thread's
-- `getCurrentLogger` answer what the two functions of the promise say.
pub registry-keeps :
    (calls : List Call) (name : Text) (thread : ℕ)
    → let r = perform_all calls empty in
      let m = promised_all calls promise_empty in
      (LoggerRegistry.get_logger name r ≡ m.logger name)
      × (LoggerRegistry.get_current_logger thread r ≡ m.current thread)
unfolding LoggerRegistry.get_logger LoggerRegistry.get_current_logger lookup
registry-keeps calls name thread =
    let k =
      perform_all-IsKept calls empty promise_empty
        (record { loggers = λ j. refl; currents = λ t. refl }) in
    (k.loggers name, k.currents thread)
