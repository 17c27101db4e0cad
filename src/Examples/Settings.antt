-- ===== src/Examples/Settings.antt =====
-- The colour switch, and the clone of a logger.
use vnelogging.Common.{◌≡◌, refl, true, some, List, [], ◌∷◌, map, codes}
use vnelogging.Host.{Host, initial}
use vnelogging.LogSink.{console, new_console, get_pattern}
use vnelogging.TextColor.{is_color_enabled, detect_color_support}
use vnelogging.TextColor.Switch.{
  Call, ask_enabled, perform_all, promised_enabled, promised_all, nothing,
  is_color_enabled-promised,
}
use vnelogging.AsyncLogger
use vnelogging.Logger.{
  Logger, async, get_name, kind, get_log_sinks, get_current_log_level, get_flush_level, clone,
}
use vnelogging.Logger.Clones.{target, first_pattern, clone-keeps}
use vnelogging.Examples.Data.{host}

-- The host with NO_COLOR in its environment.
abbrev without_color : Host
without_color = record host { getenv = λ name. some [] }

abbrev detected_before : List Call
detected_before = ask_enabled host ∷ []

is_color_enabled-promised_example :
    (is_color_enabled without_color (perform_all detected_before initial)).0
    ≡ promised_enabled without_color (promised_all detected_before nothing)
is_color_enabled-promised_example = is_color_enabled-promised detected_before without_color

-- The first detection stays.
is_color_enabled_result :
    (is_color_enabled without_color (perform_all detected_before initial)).0 ≡ true
unfolding is_color_enabled perform_all detect_color_support
is_color_enabled_result = refl

abbrev logger : Logger
logger = async (AsyncLogger.add_log_sink (console new_console) (AsyncLogger.new (codes "app")))

clone-keeps_example :
    let c = (clone host (codes "copy") logger initial).0 in
    (get_name c ≡ codes "copy")
    × (kind c ≡ true)
    × (get_current_log_level c ≡ get_current_log_level logger)
    × (get_flush_level c ≡ get_flush_level logger)
    × (map target (get_log_sinks c) ≡ map target (get_log_sinks logger))
    × (map get_pattern (get_log_sinks c) ≡ map first_pattern (get_log_sinks logger))
clone-keeps_example = clone-keeps host (codes "copy") logger initial
