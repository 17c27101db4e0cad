-- ===== src/Logging/Kinds.antt =====
-- logging.cpp: `isLoggerAsync` after any calls.
use vnelogging.Common.{ℕ, ◌≡◌, refl, sym, ap, ◌∙◌, Option, none, some, List, Text}
use vnelogging.Common.Dict.{lookup}
use vnelogging.Host.{Host}
use vnelogging.LogManager
use vnelogging.LogManager.{LogManager}
use vnelogging.Process.Names.{kind_at}
use vnelogging.Logging
use vnelogging.Logging.{App, or_new}
use vnelogging.Logging.Calls.{Call, perform_all, fresh}
use vnelogging.Logging.Agreement.{
  IsAgreed, perform_all-IsAgreed, fresh-IsAgreed, pointer, get_logger-pointer,
}

is_logger_async-manager :
    (name : Text) (a : App) (o : Option LogManager)
    → Logging.is_logger_async name (record a { log_manager = o })
      ≡ LogManager.is_logger_async name (or_new o)
unfolding Logging.is_logger_async LogManager.is_logger_async lookup
is_logger_async-manager name a none = refl
is_logger_async-manager name a (some m) = refl

-- After any calls of the library, shutdowns and repeated initialisations among them, the logger that
-- `getLogger` answers for a name is an AsyncLogger exactly if `isLoggerAsync` says so.
pub is_logger_async-agrees :
    (h : Host) (calls : List (ℕ × Call)) (name : Text) (p : ℕ)
    → pointer (Logging.get_logger name (perform_all h calls fresh)) ≡ some p
    → kind_at (perform_all h calls fresh).process.store p
      ≡ some (Logging.is_logger_async name (perform_all h calls fresh))
unfolding IsAgreed
is_logger_async-agrees h calls name p e =
    let a = perform_all h calls fresh in
    let agreed = perform_all-IsAgreed h calls fresh fresh-IsAgreed in
    agreed.kinds name p (sym (get_logger-pointer name a a.log_manager) ∙ e)
    ∙ ap some (sym (is_logger_async-manager name a a.log_manager))
