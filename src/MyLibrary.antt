-- ===== src/MyLibrary.antt =====
-- examples/03_spdlog_integration/mylib/my_library.h and my_library.cpp: a library that logs through
-- the facade, as a client of it. The pauses that stand for work have no effect.
pub mod Session
use vnelogging.Common.{
  ℕ, Bool, true, false, not, List, [], ◌∷◌, Text, codes, is_empty, length, if◌then◌else◌,
}
use vnelogging.Common.Decimal.{to_string}
use vnelogging.LogLevel.{debug}
use vnelogging.Host.{Host}
use vnelogging.LogStream.{LogStream, append}
use vnelogging.Logging
use vnelogging.Logging.{App, LoggerConfig, both_sinks, default_logger_name, configure_logger}
use vnelogging.Logging.Calls.{Call, message, perform}
use vnelogging.Logging.Macros.{Site, vne_log_debug, vne_log_info, vne_log_warn}

pub record MyLibrary : Type 0 where
  pub is_initialized : Bool

-- `MyLibrary() = default`
abbrev pub new : MyLibrary
new = record { is_initialized = false }

-- `MyLibrary(MyLibrary&&) = default`: the object moved from, and the new one.
abbrev pub moved : MyLibrary → MyLibrary × MyLibrary
moved lib = (lib, lib)

abbrev pub k_logger_category : Text
k_logger_category = codes "mylib"

abbrev pub k_console_pattern : Text
k_console_pattern = codes "[VNE-LIB] %x [%l] [%!] %v"

abbrev pub k_file_pattern : Text
k_file_pattern = codes "[VNE-LIB] %x [%n] [%l] [%!] %v"

abbrev pub k_log_file_path : Text
k_log_file_path = codes "combined.log"

-- The configuration in `initialize`.
abbrev pub config : LoggerConfig
config = record {
  name = default_logger_name;
  sink = both_sinks;
  console_pattern = k_console_pattern;
  file_pattern = k_file_pattern;
  file_path = k_log_file_path;
  log_level = debug;
  flush_level = debug;
  is_async = false;
}

-- What the compiler makes of `__FILE__` and of `VNE_FUNCTION_NAME` in a method.
pub record Compiler : Type 0 where
  pub file : Text
  pub function_name : Text → Text

abbrev pub site : Compiler → Text → ℕ → Site
site compiler method line = record {
  file = compiler.file;
  function = compiler.function_name method;
  line = line;
}

module _ (h : Host) (thread : ℕ) (compiler : Compiler) where
  -- A statement: the stream is destroyed at its end.
  abbrev pub statement : LogStream → App → App
  statement s a = perform h thread (message s) a

  -- The result, the object and the process.
  unfoldable pub initialize : MyLibrary → App → Bool × MyLibrary × App
  initialize lib a = if lib.is_initialized then (true, lib, a) else (
    true,
    record { is_initialized = true },
    statement
        (append (codes "MyLibrary initialized successfully")
          (vne_log_info k_logger_category (site compiler (codes "initialize") 62)))
        (configure_logger h config a),
  )

  unfoldable pub shutdown : MyLibrary → App → MyLibrary × App
  shutdown lib a = if not lib.is_initialized then (lib, a) else (
    record { is_initialized = false },
    Logging.shutdown h thread (
        statement
          (append (codes "MyLibrary shutting down")
            (vne_log_info k_logger_category (site compiler (codes "shutdown") 72)))
          a),
  )

  -- `~MyLibrary`
  unfoldable pub destroy : MyLibrary → App → App
  unfolding shutdown
  destroy lib a = if lib.is_initialized then (shutdown lib a).1 else a

  unfoldable pub do_work : Text → App → App
  do_work operation_name a =
      let a' =
        statement
          (append operation_name (
            append (codes "Starting operation: ")
              (vne_log_debug k_logger_category (site compiler (codes "doWork") 78))))
          a in
      statement
        (append (codes "' completed successfully") (
          append operation_name (
            append (codes "Operation '")
              (vne_log_info k_logger_category (site compiler (codes "doWork") 83)))))
        a'

  unfoldable pub process_data : Text → App → App
  process_data input a =
      let a' =
        statement
          (append (codes " bytes") (
            append (to_string (length input)) (
              append (codes "Processing data: ")
                (vne_log_debug k_logger_category (site compiler (codes "processData") 87)))))
          a in
      if is_empty input
      then statement
          (append (codes "Received empty data")
            (vne_log_warn k_logger_category (site compiler (codes "processData") 90)))
          a'
      else statement
          (append input (
            append (codes "Data processed successfully: ")
              (vne_log_info k_logger_category (site compiler (codes "processData") 97))))
          a'
