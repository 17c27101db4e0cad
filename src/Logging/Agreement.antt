-- ===== src/Logging/Agreement.antt =====
-- logging.cpp, log_manager.cpp, logger_controller.cpp and log_stream.cpp together: the loggers by
-- name, after any calls.
use vnelogging.Common.{
  ℕ, ◌≡◌, refl, sym, ap, ◌⊎◌, inl, inr, Bool, true, false, Option, none, some, List, [], ◌∷◌, Text,
  is_empty, if◌then◌else◌,
}
use vnelogging.Common.Dict.{lookup}
use vnelogging.LogLevel.{LogLevel}
use vnelogging.Host.{Host}
use vnelogging.Process.{Process}
use vnelogging.LoggerController
use vnelogging.LogManager
use vnelogging.LogManager.{LogManager}
use vnelogging.LogManager.Found.{
  IsFound, IsFound-SameNames, IsFound-create_logger, IsFound-finalize,
}
use vnelogging.LogManager.Methods.{
  IsFound-add_console_sink, IsFound-add_file_sink, IsFound-set_console_pattern,
  IsFound-set_file_pattern, IsFound-set_log_level, IsFound-set_flush_level,
}
use vnelogging.LogStream
use vnelogging.LogStream.{LogStream}
use vnelogging.LogStream.Names.{SameNames-destroy}
use vnelogging.Logging
use vnelogging.Logging.{App, LoggerConfig, or_new}
use vnelogging.Logging.Calls.{
  Call, initialize, shutdown, add_console_sink, add_file_sink, set_console_pattern,
  set_file_pattern, set_log_level, set_flush_level, configure_logger, message, perform, perform_all,
  fresh,
}

unfoldable pub IsAgreed : App → Type 0
IsAgreed a = IsFound (or_new a.log_manager) a.process

pub initialize-IsAgreed :
    (name : Text) (is_async : Bool) (a : App)
    → IsAgreed a
    → IsAgreed (Logging.initialize name is_async a)
unfolding IsAgreed Logging.initialize
initialize-IsAgreed name is_async a f =
    IsFound-create_logger name is_async (or_new a.log_manager) a.process f

shutdown-IsAgreed :
    (h : Host) (thread : ℕ) (a : App) → IsAgreed a → IsAgreed (Logging.shutdown h thread a)
unfolding IsAgreed Logging.shutdown
shutdown-IsAgreed h thread a f = at a.log_manager f
  where
    at :
        (o : Option LogManager)
        → IsFound (or_new o) a.process
        → IsAgreed (Logging.shut h thread (record a { log_manager = o }) o)
    at none f = f
    at (some m) f = IsFound-finalize h thread m a.process f

pub add_console_sink-IsAgreed :
    (name : Text) (a : App) → IsAgreed a → IsAgreed (Logging.add_console_sink name a)
unfolding IsAgreed Logging.add_console_sink
add_console_sink-IsAgreed name a f =
    IsFound-add_console_sink (or_new a.log_manager) a.process f name

pub add_file_sink-IsAgreed :
    (h : Host) (name path : Text) (a : App)
    → IsAgreed a
    → IsAgreed (Logging.add_file_sink h name path a)
unfolding IsAgreed Logging.add_file_sink
add_file_sink-IsAgreed h name path a f =
    IsFound-add_file_sink (or_new a.log_manager) a.process f h name path

pub set_console_pattern-IsAgreed :
    (name pattern : Text) (a : App)
    → IsAgreed a
    → IsAgreed (Logging.set_console_pattern name pattern a)
unfolding IsAgreed Logging.set_console_pattern
set_console_pattern-IsAgreed name pattern a f =
    IsFound-set_console_pattern (or_new a.log_manager) a.process f name pattern

pub set_file_pattern-IsAgreed :
    (name pattern : Text) (a : App)
    → IsAgreed a
    → IsAgreed (Logging.set_file_pattern name pattern a)
unfolding IsAgreed Logging.set_file_pattern
set_file_pattern-IsAgreed name pattern a f =
    IsFound-set_file_pattern (or_new a.log_manager) a.process f name pattern

pub set_log_level-IsAgreed :
    (name : Text) (level : LogLevel) (a : App)
    → IsAgreed a
    → IsAgreed (Logging.set_log_level name level a)
unfolding IsAgreed Logging.set_log_level
set_log_level-IsAgreed name level a f =
    IsFound-set_log_level (or_new a.log_manager) a.process f name level

pub set_flush_level-IsAgreed :
    (name : Text) (level : LogLevel) (a : App)
    → IsAgreed a
    → IsAgreed (Logging.set_flush_level name level a)
unfolding IsAgreed Logging.set_flush_level
set_flush_level-IsAgreed name level a f =
    IsFound-set_flush_level (or_new a.log_manager) a.process f name level

-- What holds of both branches of a test.
pub holds_either : (P : App → Type 0) (b : Bool) (a a' : App) → P a → P a' → P (if b then a' else a)
holds_either P true a a' f f' = f'
holds_either P false a a' f f' = f

configure_console-IsAgreed :
    (cfg : LoggerConfig) (a : App) → IsAgreed a → IsAgreed (Logging.configure_console cfg a)
unfolding Logging.configure_console
configure_console-IsAgreed cfg a f =
    let a' = Logging.add_console_sink cfg.name a in
    let f' = add_console_sink-IsAgreed cfg.name a f in
    let a'' = Logging.set_console_pattern cfg.name cfg.console_pattern a' in
    let f'' = set_console_pattern-IsAgreed cfg.name cfg.console_pattern a' f' in
    holds_either IsAgreed (Logging.wants_console cfg.sink) a
      (if is_empty cfg.console_pattern then a' else a'') f
      (holds_either IsAgreed (is_empty cfg.console_pattern) a'' a' f'' f')

configure_file-IsAgreed :
    (h : Host) (cfg : LoggerConfig) (a : App)
    → IsAgreed a
    → IsAgreed (Logging.configure_file h cfg a)
unfolding Logging.configure_file
configure_file-IsAgreed h cfg a f =
    let a' = Logging.add_file_sink h cfg.name cfg.file_path a in
    let f' = add_file_sink-IsAgreed h cfg.name cfg.file_path a f in
    let a'' = Logging.set_file_pattern cfg.name cfg.file_pattern a' in
    let f'' = set_file_pattern-IsAgreed cfg.name cfg.file_pattern a' f' in
    let b = if is_empty cfg.file_pattern then a' else a'' in
    holds_either IsAgreed (Logging.wants_file h.platform cfg.sink) a
      (if is_empty cfg.file_path then a else b) f
      (holds_either IsAgreed (is_empty cfg.file_path) b a
        (holds_either IsAgreed (is_empty cfg.file_pattern) a'' a' f'' f') f)

pub configure_logger-IsAgreed :
    (h : Host) (cfg : LoggerConfig) (a : App)
    → IsAgreed a
    → IsAgreed (Logging.configure_logger h cfg a)
unfolding Logging.configure_logger
configure_logger-IsAgreed h cfg a f = set_flush_level-IsAgreed cfg.name cfg.flush_level _ (
    set_log_level-IsAgreed cfg.name cfg.log_level _ (
      configure_file-IsAgreed h cfg _
        (configure_console-IsAgreed cfg _ (initialize-IsAgreed cfg.name cfg.is_async a f))))

pub message-IsAgreed :
    (h : Host) (thread : ℕ) (s : LogStream) (a : App)
    → IsAgreed a
    → IsAgreed (record a { process = LogStream.destroy h thread s a.process })
unfolding IsAgreed
message-IsAgreed h thread s a f =
    IsFound-SameNames (or_new a.log_manager) (LogStream.destroy h thread s a.process) a.process
      (SameNames-destroy h thread s a.process) f

perform-IsAgreed :
    (h : Host) (thread : ℕ) (call : Call) (a : App)
    → IsAgreed a
    → IsAgreed (perform h thread call a)
unfolding perform
perform-IsAgreed h thread (initialize name is_async) a f = initialize-IsAgreed name is_async a f
perform-IsAgreed h thread shutdown a f = shutdown-IsAgreed h thread a f
perform-IsAgreed h thread (add_console_sink name) a f = add_console_sink-IsAgreed name a f
perform-IsAgreed h thread (add_file_sink name path) a f = add_file_sink-IsAgreed h name path a f
perform-IsAgreed h thread (set_console_pattern name pattern) a f =
    set_console_pattern-IsAgreed name pattern a f
perform-IsAgreed h thread (set_file_pattern name pattern) a f =
    set_file_pattern-IsAgreed name pattern a f
perform-IsAgreed h thread (set_log_level name level) a f = set_log_level-IsAgreed name level a f
perform-IsAgreed h thread (set_flush_level name level) a f = set_flush_level-IsAgreed name level a f
perform-IsAgreed h thread (configure_logger cfg) a f = configure_logger-IsAgreed h cfg a f
perform-IsAgreed h thread (message s) a f = message-IsAgreed h thread s a f

pub perform_all-IsAgreed :
    (h : Host) (calls : List (ℕ × Call)) (a : App) → IsAgreed a → IsAgreed (perform_all h calls a)
unfolding perform_all
perform_all-IsAgreed h [] a f = f
perform_all-IsAgreed h ((thread, call) ∷ rest) a f =
    perform_all-IsAgreed h rest (perform h thread call a) (perform-IsAgreed h thread call a f)

pub fresh-IsAgreed : IsAgreed fresh
unfolding IsAgreed lookup LoggerController.get_logger
fresh-IsAgreed = record { found = λ j. refl; kinds = λ j p e. cc; within = tt }

-- The pointer that `getLogger` answers; no manager has no loggers.
abbrev pub pointer : Option (Option ℕ) → Option ℕ
pointer none = none
pointer (some p) = p

pub get_logger-pointer :
    (name : Text) (a : App) (o : Option LogManager)
    → pointer (Logging.get_logger name (record a { log_manager = o }))
      ≡ lookup name (or_new o).loggers
unfolding Logging.get_logger LogManager.get_logger lookup
get_logger-pointer name a none = refl
get_logger-pointer name a (some m) = refl

-- Where a message and `getLogger` look for the logger of a name in the manager `o` there may be.
abbrev pub SameLogger : Text → App → Option LogManager → Type 0
SameLogger name a o =
    let found = LoggerController.get_logger a.process.store name a.process.registry in
    ((o ≡ none) × (found ≡ none) × (Logging.get_logger name a ≡ none))
    ⊎ ((m : LogManager) × (o ≡ some m) × (Logging.get_logger name a ≡ some found))

agrees :
    (name : Text) (p : Process) (o : Option LogManager)
    → LoggerController.get_logger p.store name p.registry ≡ lookup name (or_new o).loggers
    → SameLogger name (record { process = p; log_manager = o }) o
unfolding Logging.get_logger LogManager.get_logger lookup
agrees name p none e = inl (refl, e, refl)
agrees name p (some m) e = inr (m, refl, ap some (sym e))

-- The facade and the messages agree on the loggers, after any calls of the library, shutdowns and
-- repeated initialisations among them. Either there is no manager, and then a message of any name
-- finds no logger and `getLogger` dereferences the null manager; or there is one, and `getLogger`
-- answers the logger that a message with the name goes to, and null where it finds none.
pub get_logger-agrees :
    (h : Host) (calls : List (ℕ × Call)) (name : Text)
    → let a = perform_all h calls fresh in SameLogger name a a.log_manager
unfolding IsAgreed
get_logger-agrees h calls name =
    let a = perform_all h calls fresh in
    agrees name a.process a.log_manager
      ((perform_all-IsAgreed h calls fresh fresh-IsAgreed).found name)
