-- ===== src/Examples/Libraries.antt =====
-- A library that logs, as an application uses it.
use vnelogging.Common.{ℕ, ◌≡◌, refl, true, none, some, List, [], ◌∷◌, map, codes, str_eq, get_elem?}
use vnelogging.Common.Dict.{lookup, insert}
use vnelogging.LogLevel.{debug}
use vnelogging.LogManager
use vnelogging.LogSink.{console, new_file}
use vnelogging.SyncLogger.Lines.{on_disk, on_thread}
use vnelogging.SyncLogger.Fronts.{beside_console, lines_behind}
use vnelogging.Logger.{sync}
use vnelogging.Logging
use vnelogging.Logging.Calls.{Call, initialize, perform_all, fresh}
use vnelogging.Logging.Messages.{shutdown-no_manager}
use vnelogging.Logging.Statement.{record_by}
use vnelogging.Logging.Session.{logger_behind, configured_sink, opened_world}
use vnelogging.MyLibrary
use vnelogging.MyLibrary.{Compiler, new, moved, config, k_file_pattern, destroy}
use vnelogging.MyLibrary.Session.{Use, initializes, works, processes, whole, life, life-on_disk}
use vnelogging.Examples.Data.{host}

abbrev compiler : Compiler
compiler = record { file = codes "my_library.cpp"; function_name = λ name. name }

abbrev earlier : List (ℕ × Call)
earlier = (1, initialize (codes "net") true) ∷ []

abbrev uses : List Use
uses =
    works (codes "operation1") ∷ processes (codes "sample data") ∷ initializes ∷ processes [] ∷ []

life-on_disk_example :
    let a = perform_all host earlier fresh in
    let r = life host 1 compiler earlier uses true in
    let (text, v) =
      lines_behind host
        (beside_console host (record { pattern = codes "[VNE-LIB] %x [%l] [%!] %v" }))
        debug
        k_file_pattern
        (map record_by (on_thread 1 (whole compiler uses)))
        (opened_world host config a.process.world) in
    (r.0 ≡ true)
    × (r.1.log_manager ≡ none)
    × (get_elem? r.1.process.store 1
        ≡ some (
            sync (
              logger_behind
                (console (record { pattern = codes "[VNE-LIB] %x [%l] [%!] %v" }) ∷ [])
                config
                (on_disk (configured_sink host config a.process.world) text))))
unfolding perform_all Logging.initialize LogManager.create_logger lookup insert str_eq new_file
life-on_disk_example = life-on_disk host 1 compiler earlier uses true refl refl refl

-- The object that was moved from keeps its flag: its destructor shuts logging down under the other.
moved_from_shuts_down :
    let (ok, lib, a) = MyLibrary.initialize host 1 compiler new fresh in
    let (old, kept) = moved lib in
    (kept.is_initialized ≡ true) × ((destroy host 1 compiler old a).log_manager ≡ none)
unfolding MyLibrary.initialize destroy MyLibrary.shutdown
moved_from_shuts_down = (refl, shutdown-no_manager host 1 _)
