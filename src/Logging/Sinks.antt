-- ===== src/Logging/Sinks.antt =====
-- logging.cpp: the parts of `configureLogger` that give a logger its sinks.
use mathlib.Core.List.{map-append}
use vnelogging.Common.{
  append_assoc, if◌then◌else◌, ℕ, ◌≡◌, refl, ap, subst, ◌∙◌, Bool, true, false, not, ◌&&◌, List, [],
  ◌∷◌, ◌++◌, append-nil, map, inl, inr, Bool-cases, Text, is_empty,
}
use vnelogging.LogLevel.{LogLevel}
use vnelogging.Host.{Host, World}
use vnelogging.LogSink.{LogSink, console, file, new_console, new_file, set_pattern}
use vnelogging.LogSink.Opening.{pattern-new_file}
use vnelogging.Logger.{Logger}
use vnelogging.LogManager.{repattern_console, repattern_file}
use vnelogging.Logging
use vnelogging.Logging.{App, LoggerConfig, or_new, wants_console, wants_file}
use vnelogging.Logging.Configured.{
  logger_with, opened_sink, console_sinks, file_sinks, configured_world,
  repattern_file-console_sinks, logger_with-add_log_sink, logger_with-map_log_sinks,
}
use vnelogging.Logging.Holds.{
  Holds, Holds-add_console_sink, Holds-set_console_pattern, Holds-set_file_pattern,
  Holds-add_file_sink,
}

pub Holds-eq :
    (name : Text) (p : ℕ) (l l' : Logger) (w : World) (a : App)
    → l ≡ l'
    → Holds name p l w a
    → Holds name p l' w a
Holds-eq name p l l' w a e v = subst (λ k. Holds name p k w a) e v

-- What `configureLogger` does to the sinks that are there: those of a class that it wants get the
-- pattern, if one is given.
unfoldable pub restyle_consoles : LoggerConfig → List LogSink → List LogSink
restyle_consoles cfg sinks =
    if wants_console cfg.sink && not (is_empty cfg.console_pattern)
    then map (repattern_console cfg.console_pattern) sinks
    else sinks

unfoldable pub restyle_files : Host → LoggerConfig → List LogSink → List LogSink
restyle_files h cfg sinks =
    if (wants_file h.platform cfg.sink && not (is_empty cfg.file_path))
      && not (is_empty cfg.file_pattern)
    then map (repattern_file cfg.file_pattern) sinks
    else sinks

module _ (h : Host) (cfg : LoggerConfig) (p : ℕ) (b : Bool) (level flush_level : LogLevel)
    (before : List LogSink) (w : World) (a : App) where
  abbrev with_sinks : List LogSink → Logger
  with_sinks = logger_with cfg.name b level flush_level

  console_sinks-absent :
      wants_console cfg.sink ≡ false → before ≡ restyle_consoles cfg before ++ console_sinks cfg
  unfolding console_sinks restyle_consoles
  console_sinks-absent n = rw (n, append-nil) refl

  console_sinks-first :
      wants_console cfg.sink ≡ true
      → is_empty cfg.console_pattern ≡ true
      → before ++ console new_console ∷ [] ≡ restyle_consoles cfg before ++ console_sinks cfg
  unfolding console_sinks restyle_consoles new_console
  console_sinks-first y e = rw (y, e) refl

  console_sinks-patterned :
      wants_console cfg.sink ≡ true
      → is_empty cfg.console_pattern ≡ false
      → map (repattern_console cfg.console_pattern) (before ++ console new_console ∷ [])
        ≡ restyle_consoles cfg before ++ console_sinks cfg
  unfolding console_sinks restyle_consoles new_console repattern_console set_pattern
  console_sinks-patterned y m = rw (y, m, map-append) refl

  pub Holds-configure_console :
      Holds cfg.name p (with_sinks before) w a
      → Holds cfg.name p
          (with_sinks (restyle_consoles cfg before ++ console_sinks cfg))
          w
          (Logging.configure_console cfg a)
  unfolding Logging.configure_console
  Holds-configure_console v = elim (Bool-cases (wants_console cfg.sink)) [
    | inr n ↦ rw n (Holds-eq cfg.name p _ _ w a (ap with_sinks (console_sinks-absent n)) v)
    | inl y ↦
        let added =
          Holds-eq cfg.name p _ _ w _
            (logger_with-add_log_sink cfg.name level flush_level before b (console new_console))
            (Holds-add_console_sink cfg.name p _ w a v) in
        elim (Bool-cases (is_empty cfg.console_pattern)) [
          | inl e ↦
              rw (y, e)
                (Holds-eq cfg.name p _ _ w _ (ap with_sinks (console_sinks-first y e)) added)
          | inr m ↦
              rw (y, m)
                (Holds-eq cfg.name p _ _ w _
                  (logger_with-map_log_sinks cfg.name level flush_level
                      (before ++ console new_console ∷ []) b
                      (map (repattern_console cfg.console_pattern))
                    ∙ ap with_sinks (console_sinks-patterned y m))
                  (Holds-set_console_pattern cfg.name p _ w _ added cfg.console_pattern))
        ]
  ]

  file_sinks-absent :
      (wants_file h.platform cfg.sink && not (is_empty cfg.file_path)) ≡ false
      → before ++ console_sinks cfg
        ≡ restyle_files h cfg before ++ (console_sinks cfg ++ file_sinks h cfg w)
  unfolding file_sinks restyle_files
  file_sinks-absent n = rw (n, append-nil) refl

  file_sinks-opened :
      wants_file h.platform cfg.sink ≡ true
      → is_empty cfg.file_path ≡ false
      → is_empty cfg.file_pattern ≡ true
      → (before ++ console_sinks cfg) ++ file (opened_sink h cfg w) ∷ []
        ≡ restyle_files h cfg before ++ (console_sinks cfg ++ file_sinks h cfg w)
  unfolding file_sinks restyle_files
  file_sinks-opened y m e =
      append_assoc before (console_sinks cfg) (file (opened_sink h cfg w) ∷ [])
      ∙ rw (y, m, e)
          (ap
            (λ pattern.
              before
              ++ (console_sinks cfg
                  ++ file (record (opened_sink h cfg w) { pattern = pattern }) ∷ []))
            (pattern-new_file h cfg.file_path true w))

  file_sinks-patterned :
      wants_file h.platform cfg.sink ≡ true
      → is_empty cfg.file_path ≡ false
      → is_empty cfg.file_pattern ≡ false
      → map
          (repattern_file cfg.file_pattern)
          ((before ++ console_sinks cfg) ++ file (opened_sink h cfg w) ∷ [])
        ≡ restyle_files h cfg before ++ (console_sinks cfg ++ file_sinks h cfg w)
  unfolding file_sinks restyle_files
  file_sinks-patterned y m n =
      ap (map (repattern_file cfg.file_pattern))
        (append_assoc before (console_sinks cfg) (file (opened_sink h cfg w) ∷ []))
      ∙ map-append (repattern_file cfg.file_pattern) before
          (console_sinks cfg ++ file (opened_sink h cfg w) ∷ [])
      ∙ rw (y, m, n)
          (ap (λ sinks. map (repattern_file cfg.file_pattern) before ++ sinks)
            (repattern_file-console_sinks cfg cfg.file_pattern (opened_sink h cfg w)))

  pub Holds-configure_file :
      Holds cfg.name p (with_sinks (before ++ console_sinks cfg)) w a
      → Holds cfg.name p
          (with_sinks (restyle_files h cfg before ++ (console_sinks cfg ++ file_sinks h cfg w)))
          (configured_world h cfg w)
          (Logging.configure_file h cfg a)
  unfolding Logging.configure_file configured_world
  Holds-configure_file v = elim (Bool-cases (wants_file h.platform cfg.sink)) [
    | inr n ↦ rw n (Holds-eq cfg.name p _ _ w a (ap with_sinks (file_sinks-absent (rw n refl))) v)
    | inl y ↦ elim (Bool-cases (is_empty cfg.file_path)) [
      | inl e ↦
          rw (y, e)
            (Holds-eq cfg.name p _ _ w a (ap with_sinks (file_sinks-absent (rw (y, e) refl))) v)
      | inr m ↦
          let u = (new_file h cfg.file_path true w).1 in
          let sinks = before ++ console_sinks cfg in
          let added =
            Holds-eq cfg.name p _ _ u _
              (logger_with-add_log_sink cfg.name level flush_level sinks b
                (file (opened_sink h cfg w)))
              (Holds-add_file_sink cfg.name p _ w a v h cfg.file_path) in
          elim (Bool-cases (is_empty cfg.file_pattern)) [
            | inl e ↦
                rw (y, m, e)
                  (Holds-eq cfg.name p _ _ u _ (ap with_sinks (file_sinks-opened y m e)) added)
            | inr k ↦
                rw (y, m, k)
                  (Holds-eq cfg.name p _ _ u _
                    (logger_with-map_log_sinks cfg.name level flush_level
                        (sinks ++ file (opened_sink h cfg w) ∷ []) b
                        (map (repattern_file cfg.file_pattern))
                      ∙ ap with_sinks (file_sinks-patterned y m k))
                    (Holds-set_file_pattern cfg.name p _ u _ added cfg.file_pattern))
          ]
    ]
  ]
