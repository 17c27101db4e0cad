-- ===== src/Logging/Holds.antt =====
-- logging.cpp and log_manager.cpp: the logger behind a name, call by call.
use vnelogging.Common.{
  ℕ, ◌≡◌, refl, ◌∙◌, Bool, true, none, some, map, Text, length, set, get_elem?, get_elem?-set_self,
  get_elem?-last, lt-length_of_get_elem?, str_eq_refl,
}
use vnelogging.Common.Dict.{lookup, lookup-insert}
use vnelogging.LogLevel.{LogLevel}
use vnelogging.Host.{Host, World}
use vnelogging.LogSink.{console, file, new_console, new_file}
use vnelogging.Logger
use vnelogging.Logger.{Logger, add_log_sink, map_log_sinks}
use vnelogging.Process.{modify}
use vnelogging.LogManager
use vnelogging.LogManager.{
  LogManager, make_logger, create_logger, get_logger, when_found, repattern_console, repattern_file,
}
use vnelogging.Logging
use vnelogging.Logging.{App, LoggerConfig, or_new, with_manager, wants_console, wants_file}

-- The logger of that name is at the address, and it is this one; the world is as given.
pub record Holds (name : Text) (p : ℕ) (l : Logger) (w : World) (a : App) : Type 0 where
  pub known : lookup name (or_new a.log_manager).loggers ≡ some p
  pub stored : get_elem? a.process.store p ≡ some l
  pub world : a.process.world ≡ w

-- What `createLogger` makes for a name that is new.
pub initialize-Holds :
    (name : Text) (is_async : Bool) (a : App)
    → lookup name (or_new a.log_manager).loggers ≡ none
    → Holds name
        (length a.process.store)
        (make_logger name is_async)
        a.process.world
        (Logging.initialize name is_async a)
unfolding Logging.initialize create_logger
initialize-Holds name is_async a fresh = rw fresh (record {
  known =
      lookup-insert name name (length a.process.store) (or_new a.log_manager).loggers
      ∙ rw (str_eq_refl name) refl;
  stored = get_elem?-last a.process.store (make_logger name is_async);
  world = refl;
})

-- A name that is there keeps its logger.
pub initialize-Holds_old :
    (name : Text) (is_async : Bool) (p : ℕ) (l : Logger) (w : World) (a : App)
    → Holds name p l w a
    → Holds name p l w (Logging.initialize name is_async a)
unfolding Logging.initialize create_logger
initialize-Holds_old name is_async p l w a v =
    rw (v.known) (record { known = v.known; stored = v.stored; world = v.world })

module _ (name : Text) (p : ℕ) (l : Logger) (w : World) (a : App) (v : Holds name p l w a) where
  stored_set : (f : Logger → Logger) → get_elem? (set a.process.store p (f l)) p ≡ some (f l)
  stored_set f =
      get_elem?-set_self a.process.store p (f l)
        (lt-length_of_get_elem? a.process.store p l v.stored)

  -- A method that changes the logger alone.
  pub Holds-modify :
      (f : Logger → Logger)
      → Holds name p
          (f l)
          w
          (with_manager (λ m. when_found (get_logger name m) (λ q. modify q f)) a)
  unfolding when_found get_logger modify
  Holds-modify f = record {
    known = v.known;
    stored = rw (v.known, v.stored) (stored_set f);
    world = rw (v.known) v.world;
  }

  pub Holds-add_console_sink :
      Holds name p (add_log_sink (console new_console) l) w (Logging.add_console_sink name a)
  unfolding Logging.add_console_sink LogManager.add_console_sink
  Holds-add_console_sink = Holds-modify (add_log_sink (console new_console))

  pub Holds-set_console_pattern :
      (pattern : Text)
      → Holds name p
          (map_log_sinks (map (repattern_console pattern)) l)
          w
          (Logging.set_console_pattern name pattern a)
  unfolding Logging.set_console_pattern LogManager.set_console_pattern
  Holds-set_console_pattern pattern = Holds-modify (map_log_sinks (map (repattern_console pattern)))

  pub Holds-set_file_pattern :
      (pattern : Text)
      → Holds name p
          (map_log_sinks (map (repattern_file pattern)) l)
          w
          (Logging.set_file_pattern name pattern a)
  unfolding Logging.set_file_pattern LogManager.set_file_pattern
  Holds-set_file_pattern pattern = Holds-modify (map_log_sinks (map (repattern_file pattern)))

  pub Holds-set_log_level :
      (level : LogLevel)
      → Holds name p (Logger.set_current_log_level level l) w (Logging.set_log_level name level a)
  unfolding Logging.set_log_level LogManager.set_log_level
  Holds-set_log_level level = Holds-modify (Logger.set_current_log_level level)

  pub Holds-set_flush_level :
      (level : LogLevel)
      → Holds name p (Logger.set_flush_level level l) w (Logging.set_flush_level name level a)
  unfolding Logging.set_flush_level LogManager.set_flush_level
  Holds-set_flush_level level = Holds-modify (Logger.set_flush_level level)

  pub Holds-add_file_sink :
      (h : Host) (path : Text)
      → let (sink, v) = new_file h path true w in
        Holds name p (add_log_sink (file sink) l) v (Logging.add_file_sink h name path a)
  unfolding Logging.add_file_sink LogManager.add_file_sink modify
  Holds-add_file_sink h path = record {
    known = v.known;
    stored =
        rw (v.known, v.stored, v.world)
          (stored_set (add_log_sink (file (new_file h path true w).0)));
    world = rw (v.known, v.world) refl;
  }
