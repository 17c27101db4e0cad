-- ===== src/Logger/Clones.antt =====
-- core/logger.h: what `clone` of either class keeps of a logger.
use vnelogging.Common.{
  ◌≡◌, refl, Bool, Option, none, some, List, [], ◌∷◌, map, Text, codes, if◌then◌else◌,
}
use vnelogging.LogLevel.{info, error}
use vnelogging.Host.{Host, World}
use vnelogging.LogSink
use vnelogging.LogSink.{LogSink, console, file, new_console, new_file, get_pattern}
use vnelogging.SyncLogger
use vnelogging.AsyncLogger
use vnelogging.AsyncLogger.{clone_each}
use vnelogging.Logger.{
  Logger, sync, async, get_name, kind, get_log_sinks, get_current_log_level, get_flush_level, clone,
}

-- The class of a sink and, of a file sink, its file and mode.
abbrev pub target : LogSink → Option (Text × Bool)
target (console sink) = none
target (file sink) = some (sink.file_name, sink.is_append)

-- The pattern that a sink of this class begins with.
abbrev pub first_pattern : LogSink → Text
first_pattern (console sink) = codes "%x [%l] %v"
first_pattern (file sink) = codes "%x [%l] [%!] %v"

-- A clone has the target of the sink and the pattern of a new one.
record IsCloned (sinks clones : List LogSink) : Type 0 where
  targets : map target clones ≡ map target sinks
  patterns : map get_pattern clones ≡ map first_pattern sinks

target-clone :
    (h : Host) (sink : LogSink) (w : World) → target (LogSink.clone h sink w).0 ≡ target sink
unfolding LogSink.clone new_file
target-clone h (console sink) w = refl
target-clone h (file sink) w = refl

get_pattern-clone :
    (h : Host) (sink : LogSink) (w : World)
    → get_pattern (LogSink.clone h sink w).0 ≡ first_pattern sink
unfolding LogSink.clone new_file new_console get_pattern
get_pattern-clone h (console sink) w = refl
get_pattern-clone h (file sink) w = refl

clone_each-IsCloned :
    (h : Host) (sinks : List LogSink) (w : World) → IsCloned sinks (clone_each h sinks w).0
unfolding clone_each
clone_each-IsCloned h [] w = record { targets = refl; patterns = refl }
clone_each-IsCloned h (sink ∷ sinks) w =
    let (sink', w') = LogSink.clone h sink w in
    let rest = clone_each-IsCloned h sinks w' in
    record {
      targets = λ i. target-clone h sink w i ∷ rest.targets i;
      patterns = λ i. get_pattern-clone h sink w i ∷ rest.patterns i;
    }

-- `clone` of either logger answers one of the same class with the name that is asked for. For an
-- AsyncLogger it has the levels, and for each sink one of the same class with the same file and
-- mode, but with the pattern of a new sink; for a SyncLogger it has the levels of a new logger and no
-- sinks.
pub clone-keeps :
    (h : Host) (name : Text) (l : Logger) (w : World)
    → let c = (clone h name l w).0 in
      (get_name c ≡ name)
      × (kind c ≡ kind l)
      × (get_current_log_level c ≡ (if kind l then get_current_log_level l else info))
      × (get_flush_level c ≡ (if kind l then get_flush_level l else error))
      × (map target (get_log_sinks c) ≡ (if kind l then map target (get_log_sinks l) else []))
      × (map get_pattern (get_log_sinks c)
          ≡ (if kind l then map first_pattern (get_log_sinks l) else []))
unfolding clone SyncLogger.clone SyncLogger.new AsyncLogger.clone AsyncLogger.new
clone-keeps h name (sync l) w = (refl, refl, refl, refl, refl, refl)
clone-keeps h name (async l) w =
    let cloned = clone_each-IsCloned h l.log_sinks w in
    (refl, refl, refl, refl, cloned.targets, cloned.patterns)
