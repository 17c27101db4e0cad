-- ===== src/Logging/Defaults/Configured.antt =====
-- logging.cpp: `configureLogger` with what `defaultLoggerConfig` answers.
use vnelogging.Common.{
  ◌≡◌, refl, sym, ap, subst, ◌∙◌, false, none, some, [], ◌∷◌, Text, codes, is_empty, inl, inr,
  Bool-cases, length, get_elem?,
}
use vnelogging.Common.Dict.{lookup}
use vnelogging.LogLevel.{info, error}
use vnelogging.Host.{
  Host, Platform, windows, macos, ios, visionos, android, linux, web, World, pure, ◌>>=◌,
}
use vnelogging.LogSink.{console}
use vnelogging.SyncLogger.{SyncLogger}
use vnelogging.Logger.{sync}
use vnelogging.Logging
use vnelogging.Logging.{App, LoggerConfig, or_new, wants_file, console_sink, default_logger_name}
use vnelogging.Logging.Configured.{configured, configured_world, console_sinks, file_sinks}
use vnelogging.Logging.Configure.{configure_logger-Holds}
use vnelogging.Logging.Paths.{get_platform_specific_log_directory}
use vnelogging.Logging.Defaults.{config_at, config_in, default_logger_config}

-- Whatever the host answers, only the path of the file depends on it.
config_in-config_at :
    (h : Host) (dir : Text) (w : World) → (path : Text) × ((config_in h dir w).0 ≡ config_at path)
unfolding config_in
config_in-config_at h dir w = elim (Bool-cases (is_empty dir)) [
  | inl e ↦ rw e ([], refl)
  | inr n ↦ rw n (_, refl)
]

config_on_disk :
    (h : Host) (w : World)
    → (path : Text) × (((do dir ← get_platform_specific_log_directory h; config_in h dir) w).0
        ≡ config_at path)
config_on_disk h w =
    let (dir, w') = get_platform_specific_log_directory h w in config_in-config_at h dir w'

default_logger_config-config_at :
    (h : Host) (w : World) → (path : Text) × ((default_logger_config h w).0 ≡ config_at path)
unfolding default_logger_config
default_logger_config-config_at h w = at h.platform
  where
    at :
        (p : Platform)
        → (path : Text) × ((elim p as (λ _. World → LoggerConfig × World) [
          | web ↦ pure (config_at [])
          | _ ↦ (do dir ← get_platform_specific_log_directory h; config_in h dir)
        ]
              w).0
            ≡ config_at path)
    at windows = config_on_disk h w
    at macos = config_on_disk h w
    at ios = config_on_disk h w
    at visionos = config_on_disk h w
    at android = config_on_disk h w
    at linux = config_on_disk h w
    at web = ([], refl)

no_file : (p : Platform) → wants_file p console_sink ≡ false
no_file windows = refl
no_file macos = refl
no_file ios = refl
no_file visionos = refl
no_file android = refl
no_file linux = refl
no_file web = refl

-- A synchronous logger that writes to the console.
abbrev pub default_logger : SyncLogger
default_logger = record {
  logger_name = default_logger_name;
  current_log_level = info;
  flush_level = error;
  log_sinks = console (record { pattern = codes "%x [%l] %v" }) ∷ [];
}

configured-config_at :
    (h : Host) (path : Text) (w : World)
    → (configured h (config_at path) w ≡ sync default_logger)
      × (configured_world h (config_at path) w ≡ w)
unfolding config_at console_sinks file_sinks configured_world
configured-config_at h path w = rw (no_file h.platform) (refl, refl)

-- The application after `defaultLoggerConfig` has asked the host.
abbrev pub after_default : Host → App → App
after_default h a = record a {
  process = record a.process { world = (default_logger_config h a.process.world).1 };
}

-- On every platform and whatever the host answers, `configureLogger` with `defaultLoggerConfig` makes,
-- if the name "vertexnova" is new, a synchronous logger with one sink, on the console, and opens no
-- file, although the configuration has the path of one.
pub default_logger_config-configured :
    (h : Host) (a : App)
    → lookup default_logger_name (or_new a.log_manager).loggers ≡ none
    → let cfg = (default_logger_config h a.process.world).0 in
      let a' = Logging.configure_logger h cfg (after_default h a) in
      (get_elem? a'.process.store (length a.process.store) ≡ some (sync default_logger))
      × (a'.process.world ≡ (default_logger_config h a.process.world).1)
unfolding config_at
default_logger_config-configured h a fresh =
    let (path, e) = default_logger_config-config_at h a.process.world in
    let w = (default_logger_config h a.process.world).1 in
    let p = length a.process.store in
    let v = configure_logger-Holds h (config_at path) (after_default h a) fresh in
    let (made, moved) = configured-config_at h path w in
    subst
      (λ cfg.
        let a' = Logging.configure_logger h cfg (after_default h a) in
        (get_elem? a'.process.store p ≡ some (sync default_logger)) × (a'.process.world ≡ w))
      (sym e) (v.stored ∙ ap some made, v.world ∙ moved)
