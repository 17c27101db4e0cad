-- ===== src/LogManager/Elsewhere.antt =====
-- log_manager.cpp: what the methods for one name leave of the logger of another.
use vnelogging.Common.{
  ℕ, ◌≡◌, ◌≢◌, refl, ◌∙◌, Bool, true, some, ◌∷◌, [], Text, inl, inr, Option-cases, map, str_eq_ne,
  length, get_elem?, get_elem?-append_some,
}
use vnelogging.Common.Dict.{lookup, lookup-insert}
use vnelogging.LogLevel.{LogLevel}
use vnelogging.Host.{Host}
use vnelogging.LogSink.{console, file, new_console, new_file}
use vnelogging.Logger
use vnelogging.Logger.{Logger, add_log_sink, map_log_sinks}
use vnelogging.Process.{Process, modify}
use vnelogging.Process.Stored.{modified_elsewhere}
use vnelogging.LogManager
use vnelogging.LogManager.{
  LogManager, make_logger, created, create_logger, get_logger, when_found, attach_file,
  repattern_console, repattern_file,
}

module _ (k : Text) (m : LogManager) (s : Process) (p : ℕ) where
  -- A logger that is made stands behind all others.
  pub create_logger-elsewhere :
      (name : Text) (is_async : Bool) (l : Logger)
      → k ≢ name
      → lookup name m.loggers ≡ some p
      → get_elem? s.store p ≡ some l
      → let made = create_logger k is_async m s in
        (lookup name made.manager.loggers ≡ some p) × (get_elem? made.process.store p ≡ some l)
  unfolding create_logger created
  create_logger-elsewhere name is_async l ne known stored =
      elim (Option-cases (lookup k m.loggers)) [
        | inl new_name ↦
            rw (new_name, created)
              (
                lookup-insert k name (length s.store) m.loggers ∙ rw (str_eq_ne k name ne) known,
                get_elem?-append_some s.store (make_logger k is_async ∷ []) p l stored,
              )
        | inr (q, there) ↦ rw (there, created) (known, stored)
      ]

  -- The methods that change the logger at `k`, if it is not at the address.
  module _ (apart : (q : ℕ) → lookup k m.loggers ≡ some q → q ≢ p) where
    when_found-elsewhere :
        (f : ℕ → Process → Process)
        → ((q : ℕ) → q ≢ p → get_elem? (f q s).store p ≡ get_elem? s.store p)
        → get_elem? (when_found (get_logger k m) f s).store p ≡ get_elem? s.store p
    unfolding when_found get_logger
    when_found-elsewhere f keeps = elim (Option-cases (lookup k m.loggers)) [
      | inl unknown ↦ rw unknown refl
      | inr (q, there) ↦ rw there (keeps q (apart q there))
    ]

    modify-elsewhere :
        (g : Logger → Logger)
        → get_elem? (when_found (get_logger k m) (λ q. modify q g) s).store p ≡ get_elem? s.store p
    modify-elsewhere g = when_found-elsewhere (λ q. modify q g) (λ q. modified_elsewhere p q g s)

    pub add_console_sink-elsewhere :
        get_elem? (LogManager.add_console_sink k m s).store p ≡ get_elem? s.store p
    unfolding LogManager.add_console_sink
    add_console_sink-elsewhere = modify-elsewhere (add_log_sink (console new_console))

    pub add_file_sink-elsewhere :
        (h : Host) (path : Text)
        → get_elem? (LogManager.add_file_sink h k path m s).store p ≡ get_elem? s.store p
    unfolding LogManager.add_file_sink attach_file
    add_file_sink-elsewhere h path =
        let (sink, w) = new_file h path true s.world in
        when_found-elsewhere (attach_file h path)
          (λ q. modified_elsewhere p q (add_log_sink (file sink)) (record s { world = w }))

    pub set_console_pattern-elsewhere :
        (pattern : Text)
        → get_elem? (LogManager.set_console_pattern k pattern m s).store p ≡ get_elem? s.store p
    unfolding LogManager.set_console_pattern
    set_console_pattern-elsewhere pattern =
        modify-elsewhere (map_log_sinks (map (repattern_console pattern)))

    pub set_file_pattern-elsewhere :
        (pattern : Text)
        → get_elem? (LogManager.set_file_pattern k pattern m s).store p ≡ get_elem? s.store p
    unfolding LogManager.set_file_pattern
    set_file_pattern-elsewhere pattern =
        modify-elsewhere (map_log_sinks (map (repattern_file pattern)))

    pub set_log_level-elsewhere :
        (level : LogLevel)
        → get_elem? (LogManager.set_log_level k level m s).store p ≡ get_elem? s.store p
    unfolding LogManager.set_log_level
    set_log_level-elsewhere level = modify-elsewhere (Logger.set_current_log_level level)

    pub set_flush_level-elsewhere :
        (level : LogLevel)
        → get_elem? (LogManager.set_flush_level k level m s).store p ≡ get_elem? s.store p
    unfolding LogManager.set_flush_level
    set_flush_level-elsewhere level = modify-elsewhere (Logger.set_flush_level level)
