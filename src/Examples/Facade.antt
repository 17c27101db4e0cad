-- ===== src/Examples/Facade.antt =====
-- The facade at work.
use vnelogging.Common.{some, none, ℕ, ◌≡◌, refl, true, false, [], ◌∷◌, List, Text, codes, str_eq}
use vnelogging.LogLevel.{info, warn, error}
use vnelogging.TimeStamp.{local}
use vnelogging.LogStream.{LogStream}
use vnelogging.Logging
use vnelogging.Logging.{LoggerConfig, both_sinks}
use vnelogging.Logging.Calls.{
  Call, initialize, shutdown, set_log_level, configure_logger, message, perform_all, fresh,
}
use vnelogging.Process.Names.{kind_at}
use vnelogging.Logging.Kinds.{is_logger_async-agrees}
use vnelogging.Logging.Agreement.{SameLogger, get_logger-agrees}
use vnelogging.Common.Dict.{lookup, insert}
use vnelogging.Process.{Process}
use vnelogging.Host.{initial}
use vnelogging.LogManager
use vnelogging.LogManager.{create_logger, is_logger_async}
use vnelogging.LogManager.Again.{kind_after, create_logger-again}
use vnelogging.LoggerRegistry
use vnelogging.LoggerRegistry.{empty}
use vnelogging.LoggerRegistry.Refinement.{
  register, unregister, make_current, promise_empty, promised_all, registry-keeps,
}
use vnelogging.LoggerRegistry.Refinement
use vnelogging.Examples.Data.{host}

abbrev app : Text
app = codes "app"

abbrev config : LoggerConfig
config = record {
  name = app;
  sink = both_sinks;
  console_pattern = codes "%v";
  file_pattern = codes "%x %v";
  file_path = codes "app.log";
  log_level = info;
  flush_level = error;
  is_async = false;
}

abbrev hello : LogStream
hello = record {
  logger_name = app;
  category = codes "main";
  log_level = warn;
  time_stamp_type = local;
  file = codes "main.cpp";
  function = codes "main";
  line = 7;
  msg_stream = codes "hello";
}

abbrev session : List (ℕ × Call)
session =
    (1, configure_logger config)
    ∷ (2, message hello)
    ∷ (1, shutdown)
    ∷ (1, initialize (codes "net") true)
    ∷ (2, initialize app true)
    ∷ (3, initialize app false)
    ∷ (1, set_log_level app warn)
    ∷ []

get_logger-agrees_example : let a = perform_all host session fresh in SameLogger app a a.log_manager
get_logger-agrees_example = get_logger-agrees host session app

abbrev registrations : List Refinement.Call
registrations =
    register 1 app (some 4)
    ∷ register 2 (codes "net") (some 5)
    ∷ register 2 app none
    ∷ unregister app
    ∷ make_current 2 (codes "net")
    ∷ []

registry-keeps_example :
    let r = Refinement.perform_all registrations empty in
    let m = promised_all registrations promise_empty in
    (LoggerRegistry.get_logger app r ≡ m.logger app)
    × (LoggerRegistry.get_current_logger 1 r ≡ m.current 1)
registry-keeps_example = registry-keeps registrations app 1

abbrev untouched : Process
untouched = record { store = []; registry = []; world = initial }

create_logger-again_example :
    let made = create_logger app true LogManager.new untouched in
    (create_logger app false made.manager made.process ≡ made)
    × (is_logger_async app made.manager
        ≡ kind_after (lookup app LogManager.new.loggers) true (is_logger_async app LogManager.new))
create_logger-again_example = create_logger-again app true false LogManager.new untouched

-- The kind that the first call asks for stays.
abbrev two_kinds : List (ℕ × Call)
two_kinds = (1, initialize app true) ∷ (2, initialize app false) ∷ []

is_logger_async-agrees_example :
    kind_at (perform_all host two_kinds fresh).process.store 0
    ≡ some (Logging.is_logger_async app (perform_all host two_kinds fresh))
unfolding perform_all Logging.initialize Logging.get_logger LogManager.get_logger create_logger
    lookup insert str_eq
is_logger_async-agrees_example = is_logger_async-agrees host two_kinds app 0 refl

is_logger_async_result : Logging.is_logger_async app (perform_all host two_kinds fresh) ≡ true
unfolding perform_all Logging.initialize Logging.is_logger_async is_logger_async create_logger
    lookup insert str_eq
is_logger_async_result = refl
