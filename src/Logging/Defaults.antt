-- ===== src/Logging/Defaults.antt =====
-- logging.cpp: `defaultLoggerConfig`.
pub mod Configured
use vnelogging.Common.{false, [], ◌++◌, Text, codes, is_empty, if◌then◌else◌}
use vnelogging.LogLevel.{info, error}
use vnelogging.Host.{Host, web, M, pure, ◌>>=◌}
use vnelogging.Logging.{LoggerConfig, console_sink, default_logger_name}
use vnelogging.Logging.Paths.{
  get_path_separator, get_platform_specific_log_directory, ensure_log_directory_exists,
}

-- With the path of the file.
config_at : Text → LoggerConfig
config_at file_path = record {
  name = default_logger_name;
  sink = console_sink;
  console_pattern = codes "%x [%l] %v";
  file_pattern = codes "%x [%n] [%l] [%!] %v";
  file_path = file_path;
  log_level = info;
  flush_level = error;
  is_async = false;
}

-- The directory is made even though no file sink is configured.
config_in : Host → Text → M LoggerConfig
unfolding config_at
config_in h log_dir = if is_empty log_dir then pure (config_at []) else do
  made ← ensure_log_directory_exists h log_dir
  pure (config_at (log_dir ++ (get_path_separator h.platform ++ codes "vne.log")))

unfoldable pub default_logger_config : Host → M LoggerConfig
unfolding config_at config_in
default_logger_config h = elim h.platform [
  | web ↦ pure (config_at [])
  | _ ↦ do log_dir ← get_platform_specific_log_directory h; config_in h log_dir
]
