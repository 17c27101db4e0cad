-- ===== src/Logging/Messages.antt =====
-- log_stream.cpp behind the facade: messages for one logger, and `shutdown`.
use vnelogging.Common.{
  ℕ, ◌≡◌, ◌⊎◌, refl, ap, ◌∙◌, Option, none, some, List, [], ◌∷◌, map, inl, inr, Text, get_elem?,
}
use vnelogging.Common.Dict.{lookup}
use vnelogging.Host.{Host, World}
use vnelogging.SyncLogger
use vnelogging.SyncLogger.{SyncLogger, flush_each}
use vnelogging.Logger.Calls.{log_by}
use vnelogging.Logger
use vnelogging.Logger.{Logger, sync}
use vnelogging.Logger.Durable.{flush_each_twice}
use vnelogging.LogManager.{LogManager}
use vnelogging.LogManager.Finalize.{finalize-settles}
use vnelogging.LogStream
use vnelogging.LogStream.{LogStream, to_record}
use vnelogging.LogStream.Delivery.{destroy-stored}
use vnelogging.Logging
use vnelogging.Logging.{App, LoggerConfig, or_new, wants_console, wants_file}
use vnelogging.Logging.Calls.{message, perform, perform_all}
use vnelogging.Logging.Agreement.{IsAgreed, message-IsAgreed}
use vnelogging.Logging.Holds.{Holds}
use vnelogging.Logging.Macros.{vne_log_impl}
use vnelogging.Logging.Statement.{Statement, stream, record_of, record_by, say}

-- The logger under the name, while messages go to it.
pub record IsOpen (name : Text) (p : ℕ) (l : Logger) (w : World) (a : App) : Type 0 where
  pub holds : Holds name p l w a
  pub agreed : IsAgreed a

module _ (h : Host) (name : Text) (p : ℕ) where
  message-IsOpen :
      (thread : ℕ) (s : Statement) (l : Logger) (w : World) (a : App)
      → IsOpen name p l w a
      → let (l', w') = Logger.log h thread (record_of s) l w in
        IsOpen name p l' w' (perform h thread (message (stream name s)) a)
  unfolding perform IsAgreed stream record_of LogStream.append LogStream.new vne_log_impl
  message-IsOpen thread s l w a v =
      let (stored, moved) =
        destroy-stored h thread (stream name s) a.process p l (v.agreed.found name ∙ v.holds.known)
          v.holds.stored in
      record {
        holds = record {
          known = v.holds.known;
          stored = rw (← v.holds.world) stored;
          world = rw (← v.holds.world) moved;
        };
        agreed = message-IsAgreed h thread (stream name s) a v.agreed;
      }

  pub messages-IsOpen :
      (ss : List (ℕ × Statement)) (l : Logger) (w : World) (a : App)
      → IsOpen name p l w a
      → let (l', w') = log_by h (map record_by ss) l w in
        IsOpen name p l' w' (perform_all h (map (say name) ss) a)
  unfolding perform_all log_by say
  messages-IsOpen [] l w a v = v
  messages-IsOpen ((thread, s) ∷ ss) l w a v =
      let (l', w') = Logger.log h thread (record_of s) l w in
      messages-IsOpen ss l' w' _ (message-IsOpen thread s l w a v)

-- The logger before and after `finalize`.
module _ (l : SyncLogger) where
  Before : Logger → Type 0
  Before k = (k ≡ sync l) ⊎ (k ≡ sync (SyncLogger.flush l))

  After : Logger → Type 0
  After k = k ≡ sync (SyncLogger.flush l)

  flush-After :
      (h : Host) (thread : ℕ) (k : Logger) (w : World)
      → Before k
      → After (Logger.flush h thread k w).0
  unfolding Before After Logger.flush SyncLogger.flush
  flush-After h thread k w (inl e) = rw e refl
  flush-After h thread k w (inr e) = rw (e, flush_each_twice) refl

module _ (h : Host) (thread : ℕ) (name : Text) (p : ℕ) where
  pub shutdown-stored :
      (l : SyncLogger) (w : World) (a : App)
      → Holds name p (sync l) w a
      → get_elem? (Logging.shutdown h thread a).process.store p ≡ some (sync (SyncLogger.flush l))
  unfolding Logging.shutdown lookup After Before
  shutdown-stored l w a v = at a.log_manager v.known
    where
      at :
          (o : Option LogManager)
          → lookup name (or_new o).loggers ≡ some p
          → get_elem? (Logging.shut h thread a o).process.store p ≡ some (sync (SyncLogger.flush l))
      at none e = cc
      at (some m) e =
          let (k, stored, is_flushed) =
            finalize-settles h thread (Before l) (After l)
              (record { settles = flush-After l h thread; weaker = λ k after. inr after }) p name m
              a.process e (sync l, v.stored, inl refl) in
          stored ∙ ap some is_flushed

pub shutdown-no_manager :
    (h : Host) (thread : ℕ) (a : App) → (Logging.shutdown h thread a).log_manager ≡ none
unfolding Logging.shutdown
shutdown-no_manager h thread a = at a.log_manager refl
  where
    at :
        (o : Option LogManager) → a.log_manager ≡ o → (Logging.shut h thread a o).log_manager ≡ none
    at none e = e
    at (some m) e = refl
