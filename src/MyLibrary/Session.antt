-- ===== src/MyLibrary/Session.antt =====
-- my_library.cpp over the whole of the library: what a MyLibrary leaves in its file.
use vnelogging.Common.{
  ℕ, ◌≡◌, refl, sym, subst, ap, Bool, true, false, none, some, List, [], ◌∷◌, ◌++◌, map, Text,
  codes, length, get_elem?, is_empty, if◌then◌else◌,
}
use vnelogging.Common.Decimal.{to_string}
use vnelogging.Common.Dict.{lookup}
use vnelogging.LogLevel.{LogLevel, debug, info, warn}
use vnelogging.Host.{Host}
use vnelogging.LogSink.{ConsoleLogSink, console}
use vnelogging.LogSink.Opening.{opened}
use vnelogging.SyncLogger.Lines.{on_disk, on_thread}
use vnelogging.SyncLogger.Fronts.{beside_console, lines_behind}
use vnelogging.Logger.{sync}
use vnelogging.LogStream
use vnelogging.Logging
use vnelogging.Logging.{App, or_new, default_logger_name, both_sinks, wants_file}
use vnelogging.Logging.Calls.{Call, perform, perform_all, fresh}
use vnelogging.Logging.Configured.{console_sinks}
use vnelogging.Logging.Macros.{vne_log_impl, vne_log_info, vne_log_debug, vne_log_warn}
use vnelogging.Logging.Statement.{Statement, record_by, say, stream}
use vnelogging.Logging.Session.{
  session, logger_behind, configured_sink, opened_world, session-no_manager, session-behind,
}
use vnelogging.MyLibrary.{
  MyLibrary, new, config, k_logger_category, k_console_pattern, k_file_pattern, Compiler, site,
  initialize, shutdown, destroy, do_work, process_data,
}

-- What an application does with the object while it is initialized.
pub data Use : Type 0 where
  initializes : Use
  works processes : Text → Use

module _ (compiler : Compiler) where
  abbrev pub said : LogLevel → Text → ℕ → Text → Statement
  said level method line text = record {
    category = k_logger_category;
    level = level;
    site = site compiler method line;
    text = text;
  }

  -- The statements of a use, in order.
  abbrev pub statements_of : Use → List Statement
  statements_of initializes = []
  statements_of (works operation_name) =
      said debug (codes "doWork") 78 (codes "Starting operation: " ++ operation_name)
      ∷ said info (codes "doWork") 83
          ((codes "Operation '" ++ operation_name) ++ codes "' completed successfully")
      ∷ []
  statements_of (processes input) =
      said debug (codes "processData") 87
        ((codes "Processing data: " ++ to_string (length input)) ++ codes " bytes")
      ∷ (if is_empty input
          then said warn (codes "processData") 90 (codes "Received empty data")
          else said info (codes "processData") 97 (codes "Data processed successfully: " ++ input))
      ∷ []

  unfoldable pub all_statements : List Use → List Statement
  all_statements [] = said info (codes "shutdown") 72 (codes "MyLibrary shutting down") ∷ []
  all_statements (u ∷ us) = statements_of u ++ all_statements us

  -- From `initialize` to the end.
  unfoldable pub whole : List Use → List Statement
  whole uses =
      said info (codes "initialize") 62 (codes "MyLibrary initialized successfully")
      ∷ all_statements uses

module _ (h : Host) (thread : ℕ) (compiler : Compiler) where
  unfoldable pub use_one : Use → MyLibrary × App → MyLibrary × App
  use_one initializes (lib, a) =
      let (ok, lib', a') = initialize h thread compiler lib a in (lib', a')
  use_one (works operation_name) (lib, a) = (lib, do_work h thread compiler operation_name a)
  use_one (processes input) (lib, a) = (lib, process_data h thread compiler input a)

  unfoldable pub use_all : List Use → MyLibrary × App → MyLibrary × App
  unfolding use_one
  use_all [] s = s
  use_all (u ∷ us) s = use_all us (use_one u s)

  -- The object is destroyed, with or without a call of `shutdown` before.
  unfoldable pub finish : Bool → MyLibrary × App → App
  finish true (lib, a) =
      let (lib', a') = shutdown h thread compiler lib a in destroy h thread compiler lib' a'
  finish false (lib, a) = destroy h thread compiler lib a

  abbrev pub in_use : MyLibrary
  in_use = record { is_initialized = true }

  uses-statements :
      (shuts_down : Bool) (uses : List Use) (a : App)
      → finish shuts_down (use_all uses (in_use, a))
        ≡ Logging.shutdown h thread (
            perform_all h
              (map (say default_logger_name) (on_thread thread (all_statements compiler uses)))
              a)
  unfolding finish use_all use_one initialize shutdown destroy do_work process_data all_statements
      perform_all perform say stream vne_log_impl LogStream.append LogStream.new vne_log_info
      vne_log_debug vne_log_warn
  uses-statements true [] a = refl
  uses-statements false [] a = refl
  uses-statements b (initializes ∷ us) a = uses-statements b us a
  uses-statements b (works name ∷ us) a = uses-statements b us _
  uses-statements b (processes [] ∷ us) a = uses-statements b us _
  uses-statements b (processes (c ∷ cs) ∷ us) a = uses-statements b us _

wanted_consoles : console_sinks config ≡ console (record { pattern = k_console_pattern }) ∷ []
unfolding console_sinks
wanted_consoles = refl

module _ (h : Host) (thread : ℕ) (compiler : Compiler) (before : List (ℕ × Call)) (uses : List Use)
    (shuts_down : Bool) where
  abbrev pub a : App
  a = perform_all h before fresh

  abbrev pub console_sink : ConsoleLogSink
  console_sink = record { pattern = k_console_pattern }

  -- The life of an object, from its construction to its destruction.
  unfoldable pub life : Bool × App
  unfolding use_all finish initialize
  life =
      let (ok, lib, a') = initialize h thread compiler new a in
      (ok, finish h thread compiler shuts_down (use_all h thread compiler uses (lib, a')))

  life-session : life ≡ (true, session h thread config (on_thread thread (whole compiler uses)) a)
  unfolding life initialize session whole perform_all perform say stream vne_log_impl
      LogStream.append LogStream.new vne_log_info vne_log_debug vne_log_warn
  life-session = ap (λ b. (true, b)) (uses-statements h thread compiler shuts_down uses _)

  -- From an object's construction to its destruction: after any use of the logging library that left
  -- the default logger's name unused, let files be attached on the platform and "combined.log" open.
  -- Then `initialize`, any calls of `doWork`, `processData` and `initialize` again on one thread, and
  -- the destructor, with or without `shutdown` before it: `initialize` answers true, no log manager is
  -- left, and the file has, handed to the system, a line for each statement of those methods, in order,
  -- the empty-data branch among them, from "initialized successfully" to "shutting down", each written
  -- after the console's line for it.
  pub life-on_disk :
      lookup default_logger_name (or_new a.log_manager).loggers ≡ none
      → wants_file h.platform both_sinks ≡ true
      → (configured_sink h config a.process.world).file_stream ≡ opened
      → let (text, v) =
          lines_behind h
            (beside_console h console_sink)
            debug
            k_file_pattern
            (map record_by (on_thread thread (whole compiler uses)))
            (opened_world h config a.process.world) in
        (life.0 ≡ true)
        × (life.1.log_manager ≡ none)
        × (get_elem? life.1.process.store (length a.process.store)
            ≡ some (
                sync (
                  logger_behind
                    (console console_sink ∷ [])
                    config
                    (on_disk (configured_sink h config a.process.world) text))))
  unfolding beside_console
  life-on_disk new_name wanted opens =
      subst
        (λ (r : Bool × App).
          (r.0 ≡ true)
          × (r.1.log_manager ≡ none)
          × (get_elem? r.1.process.store (length a.process.store)
              ≡ some (
                  sync (
                    logger_behind (console console_sink ∷ []) config (
                      on_disk (configured_sink h config a.process.world)
                        (lines_behind h (beside_console h console_sink) debug k_file_pattern
                          (map record_by (on_thread thread (whole compiler uses)))
                          (opened_world h config a.process.world)).0)))))
        (sym life-session)
        (
          refl,
          session-no_manager h thread config (on_thread thread (whole compiler uses)) a,
          session-behind h thread (beside_console h console_sink) before config
              (on_thread thread (whole compiler uses)) new_name refl wanted_consoles wanted refl
              opens,
        )
