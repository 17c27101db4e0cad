-- ===== src/Examples/Subsystems.antt =====
-- Several loggers, as the subsystems of an application have them.
use vnelogging.Common.{
  ℕ, ◌≡◌, ◌≢◌, refl, true, false, some, List, [], ◌∷◌, All, Text, codes, str_eq, get_elem?, arith,
}
use vnelogging.Common.Dict.{lookup, insert}
use vnelogging.LogLevel.{warn, error, fatal, debug}
use vnelogging.TimeStamp.{local}
use vnelogging.LogManager
use vnelogging.LogManager.{make_logger}
use vnelogging.LogStream.{LogStream}
use vnelogging.Logging
use vnelogging.Logging.{LoggerConfig, both_sinks}
use vnelogging.Logging.Calls.{
  Call, initialize, configure_logger, set_log_level, add_console_sink, message, perform_all, fresh,
}
use vnelogging.Logging.Isolation.{IsApart, others-keep}
use vnelogging.Examples.Data.{host}

abbrev physics : Text
physics = codes "physics"

abbrev before : List (ℕ × Call)
before = (1, initialize (codes "app") false) ∷ (1, initialize physics true) ∷ []

abbrev for_app : LoggerConfig
for_app = record {
  name = codes "app";
  sink = both_sinks;
  console_pattern = codes "[APP] %x [%l] %v";
  file_pattern = codes "%v";
  file_path = codes "app.log";
  log_level = debug;
  flush_level = error;
  is_async = false;
}

abbrev failure : LogStream
failure = record {
  logger_name = codes "app";
  category = codes "core";
  log_level = fatal;
  time_stamp_type = local;
  file = codes "main.cpp";
  function = codes "main";
  line = 9;
  msg_stream = codes "failed";
}

abbrev elsewhere : List (ℕ × Call)
elsewhere =
    (1, configure_logger for_app)
    ∷ (2, message failure)
    ∷ (1, set_log_level (codes "app") warn)
    ∷ (3, initialize (codes "render") true)
    ∷ (3, add_console_sink (codes "render"))
    ∷ []

app_ne : codes "app" ≢ physics
app_ne e = grind arith

render_ne : codes "render" ≢ physics
render_ne e = grind arith

elsewhere-IsApart : All (IsApart physics) elsewhere
unfolding IsApart
elsewhere-IsApart = (app_ne, (app_ne, (app_ne, (render_ne, (render_ne, tt)))))

others-keep_example :
    let a = perform_all host elsewhere (perform_all host before fresh) in
    (Logging.get_logger physics a ≡ some (some 1))
    × (get_elem? a.process.store 1 ≡ some (make_logger physics true))
unfolding perform_all Logging.initialize Logging.get_logger LogManager.create_logger
    LogManager.get_logger lookup insert str_eq
others-keep_example =
    others-keep host before elsewhere physics 1 (make_logger physics true) refl refl
      elsewhere-IsApart
