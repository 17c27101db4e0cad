-- ===== src/Logging/Still.antt =====
-- logging.cpp, log_manager.cpp and log_stream.cpp: a call for one name and the logger of another.
use vnelogging.Common.{ℕ, ◌≡◌, ◌≢◌, sym, ap, ◌∙◌, Bool, some, Text, is_empty, get_elem?}
use vnelogging.Common.Dict.{lookup}
use vnelogging.LogLevel.{LogLevel}
use vnelogging.Host.{Host}
use vnelogging.Logger.{Logger}
use vnelogging.LoggerController.{name_at}
use vnelogging.LoggerController.Lookup.{get_logger_sound}
use vnelogging.LogManager.Found.{seen}
use vnelogging.LogManager.Elsewhere.{
  create_logger-elsewhere, add_console_sink-elsewhere, add_file_sink-elsewhere,
  set_console_pattern-elsewhere, set_file_pattern-elsewhere, set_log_level-elsewhere,
  set_flush_level-elsewhere,
}
use vnelogging.LogStream.Delivery.{destroy-elsewhere}
use vnelogging.LogStream
use vnelogging.LogStream.{LogStream}
use vnelogging.Logging
use vnelogging.Logging.{App, LoggerConfig, or_new, with_manager, wants_console, wants_file}
use vnelogging.Logging.Agreement.{
  IsAgreed, holds_either, initialize-IsAgreed, add_console_sink-IsAgreed, add_file_sink-IsAgreed,
  set_console_pattern-IsAgreed, set_file_pattern-IsAgreed, set_log_level-IsAgreed,
  set_flush_level-IsAgreed, message-IsAgreed,
}

module _ (name : Text) (p : ℕ) (l : Logger) where
  -- The name's logger is at the address, and is this one.
  pub record IsStill (a : App) : Type 0 where
    pub agreed : IsAgreed a
    pub known : lookup name (or_new a.log_manager).loggers ≡ some p
    pub stored : get_elem? a.process.store p ≡ some l

  -- The logger of another name is elsewhere.
  elsewhere :
      (k : Text) (q : ℕ) (a : App) → k ≢ name → IsStill a → seen k a.process ≡ some q → q ≢ p
  unfolding IsAgreed
  elsewhere k q a ne v e same = ne (
      sym (get_logger_sound a.process.store k a.process.registry q e)
      ∙ ap (name_at a.process.store) same
      ∙ get_logger_sound a.process.store name a.process.registry p (v.agreed.found name ∙ v.known))

  module _ (h : Host) (k : Text) (ne : k ≢ name) where
    apart :
        (a : App) → IsStill a → (q : ℕ) → lookup k (or_new a.log_manager).loggers ≡ some q → q ≢ p
    unfolding IsAgreed
    apart a v q there = elsewhere k q a ne v (v.agreed.found k ∙ there)

    pub initialize-IsStill :
        (is_async : Bool) (a : App) → IsStill a → IsStill (Logging.initialize k is_async a)
    unfolding Logging.initialize
    initialize-IsStill is_async a v =
        let (known, stored) =
          create_logger-elsewhere k (or_new a.log_manager) a.process p name is_async l ne v.known
            v.stored in
        record {
          agreed = initialize-IsAgreed k is_async a v.agreed;
          known = known;
          stored = stored;
        }

    pub add_console_sink-IsStill : (a : App) → IsStill a → IsStill (Logging.add_console_sink k a)
    unfolding Logging.add_console_sink
    add_console_sink-IsStill a v = record {
      agreed = add_console_sink-IsAgreed k a v.agreed;
      known = v.known;
      stored =
          add_console_sink-elsewhere k (or_new a.log_manager) a.process p (apart a v) ∙ v.stored;
    }

    pub add_file_sink-IsStill :
        (path : Text) (a : App) → IsStill a → IsStill (Logging.add_file_sink h k path a)
    unfolding Logging.add_file_sink
    add_file_sink-IsStill path a v = record {
      agreed = add_file_sink-IsAgreed h k path a v.agreed;
      known = v.known;
      stored =
          add_file_sink-elsewhere k (or_new a.log_manager) a.process p (apart a v) h path
          ∙ v.stored;
    }

    pub set_console_pattern-IsStill :
        (pattern : Text) (a : App) → IsStill a → IsStill (Logging.set_console_pattern k pattern a)
    unfolding Logging.set_console_pattern
    set_console_pattern-IsStill pattern a v = record {
      agreed = set_console_pattern-IsAgreed k pattern a v.agreed;
      known = v.known;
      stored =
          set_console_pattern-elsewhere k (or_new a.log_manager) a.process p (apart a v) pattern
          ∙ v.stored;
    }

    pub set_file_pattern-IsStill :
        (pattern : Text) (a : App) → IsStill a → IsStill (Logging.set_file_pattern k pattern a)
    unfolding Logging.set_file_pattern
    set_file_pattern-IsStill pattern a v = record {
      agreed = set_file_pattern-IsAgreed k pattern a v.agreed;
      known = v.known;
      stored =
          set_file_pattern-elsewhere k (or_new a.log_manager) a.process p (apart a v) pattern
          ∙ v.stored;
    }

    pub set_log_level-IsStill :
        (level : LogLevel) (a : App) → IsStill a → IsStill (Logging.set_log_level k level a)
    unfolding Logging.set_log_level
    set_log_level-IsStill level a v = record {
      agreed = set_log_level-IsAgreed k level a v.agreed;
      known = v.known;
      stored =
          set_log_level-elsewhere k (or_new a.log_manager) a.process p (apart a v) level ∙ v.stored;
    }

    pub set_flush_level-IsStill :
        (level : LogLevel) (a : App) → IsStill a → IsStill (Logging.set_flush_level k level a)
    unfolding Logging.set_flush_level
    set_flush_level-IsStill level a v = record {
      agreed = set_flush_level-IsAgreed k level a v.agreed;
      known = v.known;
      stored =
          set_flush_level-elsewhere k (or_new a.log_manager) a.process p (apart a v) level
          ∙ v.stored;
    }

  module _ (h : Host) (cfg : LoggerConfig) (ne : cfg.name ≢ name) where
    configure_console-IsStill : (a : App) → IsStill a → IsStill (Logging.configure_console cfg a)
    unfolding Logging.configure_console
    configure_console-IsStill a v =
        let a' = Logging.add_console_sink cfg.name a in
        let v' = add_console_sink-IsStill h cfg.name ne a v in
        holds_either IsStill (wants_console cfg.sink) a _ v (
          holds_either IsStill (is_empty cfg.console_pattern) _ a'
            (set_console_pattern-IsStill h cfg.name ne cfg.console_pattern a' v') v')

    configure_file-IsStill : (a : App) → IsStill a → IsStill (Logging.configure_file h cfg a)
    unfolding Logging.configure_file
    configure_file-IsStill a v =
        let a' = Logging.add_file_sink h cfg.name cfg.file_path a in
        let v' = add_file_sink-IsStill h cfg.name ne cfg.file_path a v in
        holds_either IsStill (wants_file h.platform cfg.sink) a _ v (
          holds_either IsStill (is_empty cfg.file_path) _ a
            (holds_either IsStill (is_empty cfg.file_pattern) _ a'
              (set_file_pattern-IsStill h cfg.name ne cfg.file_pattern a' v') v')
            v)

    pub configure_logger-IsStill :
        (a : App) → IsStill a → IsStill (Logging.configure_logger h cfg a)
    unfolding Logging.configure_logger
    configure_logger-IsStill a v = set_flush_level-IsStill h cfg.name ne cfg.flush_level _ (
        set_log_level-IsStill h cfg.name ne cfg.log_level _ (
          configure_file-IsStill _
            (configure_console-IsStill _ (initialize-IsStill h cfg.name ne cfg.is_async a v))))

  pub message-IsStill :
      (h : Host) (thread : ℕ) (s : LogStream) (a : App)
      → s.logger_name ≢ name
      → IsStill a
      → IsStill (record a { process = LogStream.destroy h thread s a.process })
  message-IsStill h thread s a ne v = record {
    agreed = message-IsAgreed h thread s a v.agreed;
    known = v.known;
    stored =
        destroy-elsewhere h thread s a.process p (λ q. elsewhere s.logger_name q a ne v) ∙ v.stored;
  }
