-- ===== src/LogManager/Methods.antt =====
-- log_manager.cpp: the methods that change one logger, and what the controller finds.
use vnelogging.Common.{ℕ, ◌≡◌, true, Option, Text}
use vnelogging.LogLevel.{LogLevel}
use vnelogging.Host.{Host}
use vnelogging.LogSink.{console, file, new_console, new_file}
use vnelogging.Logger.{Logger, identity, add_log_sink}
use vnelogging.Logger.Names.{
  identity-add_log_sink, identity-map_log_sinks, identity-set_current_log_level,
  identity-set_flush_level,
}
use vnelogging.Process.{Process, modify}
use vnelogging.Process.Names.{SameNames, SameNames-modify}
use vnelogging.LogManager
use vnelogging.LogManager.{
  LogManager, make_logger, created, create_logger, get_logger, when_found, attach_file,
  finalize_one, finalize_all, finalize,
}
use vnelogging.LogManager.Found.{IsFound, IsFound-when_found}

SameNames-attach_file :
    (h : Host) (path : Text) (p : ℕ) (s : Process) → SameNames (attach_file h path p s) s
unfolding attach_file
SameNames-attach_file h path p s =
    let (sink, w) = new_file h path true s.world in
    let at = record s { world = w } in
    let same =
      SameNames-modify p (add_log_sink (file sink)) at (identity-add_log_sink (file sink)) in
    record {
      lengths = same.lengths;
      names = same.names;
      kinds = same.kinds;
      registries = same.registries;
    }

-- The methods that change one logger.
module _ (m : LogManager) (s : Process) (f : IsFound m s) where
  IsFound-modify :
      (o : Option ℕ) (g : Logger → Logger)
      → ((l : Logger) → identity (g l) ≡ identity l)
      → IsFound m (when_found o (λ p. modify p g) s)
  IsFound-modify o g keeps =
      IsFound-when_found m o (λ p. modify p g) s (λ p. SameNames-modify p g s keeps) f

  pub IsFound-add_console_sink : (name : Text) → IsFound m (LogManager.add_console_sink name m s)
  unfolding LogManager.add_console_sink
  IsFound-add_console_sink name = IsFound-modify _ _ (identity-add_log_sink (console new_console))

  pub IsFound-add_file_sink :
      (h : Host) (name path : Text) → IsFound m (LogManager.add_file_sink h name path m s)
  unfolding LogManager.add_file_sink
  IsFound-add_file_sink h name path =
      IsFound-when_found m (get_logger name m) (attach_file h path) s
        (λ p. SameNames-attach_file h path p s) f

  pub IsFound-set_console_pattern :
      (name pattern : Text) → IsFound m (LogManager.set_console_pattern name pattern m s)
  unfolding LogManager.set_console_pattern
  IsFound-set_console_pattern name pattern = IsFound-modify _ _ (identity-map_log_sinks _)

  pub IsFound-set_file_pattern :
      (name pattern : Text) → IsFound m (LogManager.set_file_pattern name pattern m s)
  unfolding LogManager.set_file_pattern
  IsFound-set_file_pattern name pattern = IsFound-modify _ _ (identity-map_log_sinks _)

  pub IsFound-set_log_level :
      (name : Text) (level : LogLevel) → IsFound m (LogManager.set_log_level name level m s)
  unfolding LogManager.set_log_level
  IsFound-set_log_level name level = IsFound-modify _ _ (identity-set_current_log_level level)

  pub IsFound-set_flush_level :
      (name : Text) (level : LogLevel) → IsFound m (LogManager.set_flush_level name level m s)
  unfolding LogManager.set_flush_level
  IsFound-set_flush_level name level = IsFound-modify _ _ (identity-set_flush_level level)
