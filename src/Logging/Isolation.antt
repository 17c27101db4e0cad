-- ===== src/Logging/Isolation.antt =====
-- logging.cpp, log_manager.cpp, logger_controller.cpp and log_stream.cpp together: what calls for other
-- names leave of a logger.
use mathlib.Core.Option.{some-injective}
use vnelogging.Common.{
  ℕ, ◌≡◌, ◌≢◌, ◌↔◌, ap, Option, none, some, List, [], ◌∷◌, All, Text, get_elem?,
}
use vnelogging.Common.Dict.{lookup}
use vnelogging.Host.{Host}
use vnelogging.Logger.{Logger}
use vnelogging.LogManager
use vnelogging.LogManager.{LogManager, make_logger, create_logger, get_logger, when_found}
use vnelogging.Logging
use vnelogging.Logging.{App, LoggerConfig, or_new, with_manager, wants_console, wants_file}
use vnelogging.Logging.Calls.{
  Call, initialize, shutdown, add_console_sink, add_file_sink, set_console_pattern,
  set_file_pattern, set_log_level, set_flush_level, configure_logger, message, perform, perform_all,
  fresh,
}
use vnelogging.Logging.Agreement.{perform_all-IsAgreed, fresh-IsAgreed}
use vnelogging.Logging.Still.{
  IsStill, initialize-IsStill, add_console_sink-IsStill, add_file_sink-IsStill,
  set_console_pattern-IsStill, set_file_pattern-IsStill, set_log_level-IsStill,
  set_flush_level-IsStill, configure_logger-IsStill, message-IsStill,
}

-- The name that a call is about; a shutdown is about all.
abbrev pub subject : Call → Option Text
subject (initialize name is_async) = some name
subject shutdown = none
subject (add_console_sink name) = some name
subject (add_file_sink name path) = some name
subject (set_console_pattern name pattern) = some name
subject (set_file_pattern name pattern) = some name
subject (set_log_level name level) = some name
subject (set_flush_level name level) = some name
subject (configure_logger cfg) = some (cfg.name)
subject (message s) = some (s.logger_name)

-- A call about another name.
IsOther : Text → Option Text → Type 0
IsOther name none = ⊥
IsOther name (some k) = k ≢ name

unfoldable pub IsApart : Text → ℕ × Call → Type 0
unfolding IsOther
IsApart name (thread, call) = IsOther name (subject call)

module _ (name : Text) (p : ℕ) (l : Logger) where
  perform-IsStill :
      (h : Host) (thread : ℕ) (call : Call) (a : App)
      → IsApart name (thread, call)
      → IsStill name p l a
      → IsStill name p l (perform h thread call a)
  unfolding perform IsApart IsOther
  perform-IsStill h thread (initialize k is_async) a ne v =
      initialize-IsStill name p l h k ne is_async a v
  perform-IsStill h thread shutdown a ne v = elim ne [ ]
  perform-IsStill h thread (add_console_sink k) a ne v =
      add_console_sink-IsStill name p l h k ne a v
  perform-IsStill h thread (add_file_sink k path) a ne v =
      add_file_sink-IsStill name p l h k ne path a v
  perform-IsStill h thread (set_console_pattern k pattern) a ne v =
      set_console_pattern-IsStill name p l h k ne pattern a v
  perform-IsStill h thread (set_file_pattern k pattern) a ne v =
      set_file_pattern-IsStill name p l h k ne pattern a v
  perform-IsStill h thread (set_log_level k level) a ne v =
      set_log_level-IsStill name p l h k ne level a v
  perform-IsStill h thread (set_flush_level k level) a ne v =
      set_flush_level-IsStill name p l h k ne level a v
  perform-IsStill h thread (configure_logger cfg) a ne v =
      configure_logger-IsStill name p l h cfg ne a v
  perform-IsStill h thread (message s) a ne v = message-IsStill name p l h thread s a ne v

  perform_all-IsStill :
      (h : Host) (calls : List (ℕ × Call)) (a : App)
      → All (IsApart name) calls
      → IsStill name p l a
      → IsStill name p l (perform_all h calls a)
  unfolding perform_all
  perform_all-IsStill h [] a apart v = v
  perform_all-IsStill h ((thread, call) ∷ rest) a (ne, more) v =
      perform_all-IsStill h rest (perform h thread call a) more
        (perform-IsStill h thread call a ne v)

-- What `getLogger` answers, by the manager's list.
get_logger-known :
    (name : Text) (p : ℕ) (a : App)
    → (Logging.get_logger name a ≡ some (some p))
      ↔ (lookup name (or_new a.log_manager).loggers ≡ some p)
unfolding Logging.get_logger LogManager.get_logger lookup
get_logger-known name p a = at a.log_manager
  where
    at :
        (o : Option LogManager)
        → (Logging.get_logger name (record a { log_manager = o }) ≡ some (some p))
          ↔ (lookup name (or_new o).loggers ≡ some p)
    at none = (λ e. cc, λ e. cc)
    at (some m) = (λ e. some-injective _ _ e, λ e. ap some e)

-- Loggers do not disturb one another: after any use of the library, let `getLogger` answer a logger
-- for a name. Then any calls that are about other names, on any threads (`initialize`,
-- `configureLogger`, new sinks, patterns and levels, and messages, but no shutdown), leave that
-- answer and that logger as they are: its kind, levels and sinks, the text of its files and its queue.
pub others-keep :
    (h : Host) (before calls : List (ℕ × Call)) (name : Text) (p : ℕ) (l : Logger)
    → let a = perform_all h before fresh in
      Logging.get_logger name a ≡ some (some p)
      → get_elem? a.process.store p ≡ some l
      → All (IsApart name) calls
      → let a' = perform_all h calls a in
        (Logging.get_logger name a' ≡ some (some p)) × (get_elem? a'.process.store p ≡ some l)
others-keep h before calls name p l known stored apart =
    let a = perform_all h before fresh in
    let v = perform_all-IsStill name p l h calls a apart (record {
      agreed = perform_all-IsAgreed h before fresh fresh-IsAgreed;
      known = (get_logger-known name p a).0 known;
      stored = stored;
    }) in
    ((get_logger-known name p (perform_all h calls a)).1 v.known, v.stored)
