-- ===== src/LogManager/Kinds.antt =====
-- log_manager.cpp: the class of each logger in the store when `createLogger` adds one.
use vnelogging.Common.{
  ℕ, zero, suc, ◌≡◌, refl, ap, subst, ◌∙◌, Bool, true, false, Option, some, List, [], ◌∷◌, ◌++◌,
  Text, length, if◌then◌else◌,
}
use vnelogging.Logger.{Logger, kind}
use vnelogging.Process.Names.{kind_at}
use vnelogging.LogManager.{make_logger, or_sync}

pub kind-make_logger : (name : Text) (is_async : Bool) → kind (make_logger name is_async) ≡ is_async
unfolding make_logger
kind-make_logger name true = refl
kind-make_logger name false = refl

kind_at-append :
    (store : List Logger) (l : Logger) (p : ℕ) (b : Bool)
    → kind_at store p ≡ some b
    → kind_at (store ++ l ∷ []) p ≡ some b
kind_at-append [] l p b e = cc
kind_at-append (x ∷ xs) l zero b e = e
kind_at-append (x ∷ xs) l (suc p) b e = kind_at-append xs l p b e

kind_at-last :
    (store : List Logger) (l : Logger) → kind_at (store ++ l ∷ []) (length store) ≡ some (kind l)
kind_at-last [] l = refl
kind_at-last (x ∷ xs) l = kind_at-last xs l

pub created-kinds :
    (store : List Logger) (l : Logger) (is_async : Bool) (p : ℕ) (old : Option ℕ)
    (old_kind : Option Bool) (eq : Bool)
    → kind l ≡ is_async
    → (old ≡ some p → kind_at store p ≡ some (or_sync old_kind))
    → (if eq then some (length store) else old) ≡ some p
    → kind_at (store ++ l ∷ []) p ≡ some (or_sync (if eq then some is_async else old_kind))
created-kinds store l is_async p old old_kind true k before e =
    let last : length store ≡ p = cc in
    subst (λ q. kind_at (store ++ l ∷ []) q ≡ some is_async) last (kind_at-last store l ∙ ap some k)
created-kinds store l is_async p old old_kind false k before e =
    kind_at-append store l p (or_sync old_kind) (before e)
