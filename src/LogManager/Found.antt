-- ===== src/LogManager/Found.antt =====
-- log_manager.cpp and logger_controller.cpp: the manager's loggers and those that the controller
-- finds. All loggers of the process come from one manager.
use vnelogging.Common.{
  ℕ, ◌≡◌, refl, sym, ap, ◌∙◌, ◌≤◌, Bool, true, false, Option, none, some, List, [], ◌∷◌, ◌++◌, inl,
  inr, arith, All, All-append, Bool-cases, Option-cases, Text, str_eq, str_eq_sound, length,
  length-append, if◌then◌else◌,
}
use vnelogging.Common.Dict.{lookup, lookup-insert}
use vnelogging.Host.{Host}
use vnelogging.SyncLogger
use vnelogging.AsyncLogger
use vnelogging.Logger
use vnelogging.Logger.{Logger, get_name, kind, add_log_sink, map_log_sinks}
use vnelogging.Logger.Names.{identity-flush}
use vnelogging.LoggerController
use vnelogging.LoggerController.Lookup.{
  get_logger-names, get_logger-unregister, get_logger-register, All-unregister, Within, or_else,
}
use vnelogging.Process.{Process, modify_in}
use vnelogging.Process.Names.{SameNames, SameNames-modify_in, kind_at}
use vnelogging.LogManager
use vnelogging.LogManager.Kinds.{kind-make_logger, created-kinds}
use vnelogging.LogManager.{
  LogManager, make_logger, is_logger_async, or_sync, created, create_logger, when_found,
  finalize_one, finalize_all, finalize,
}

-- What the controller finds.
abbrev pub seen : Text → Process → Option ℕ
seen name s = LoggerController.get_logger s.store name s.registry

-- The controller finds the manager's loggers, each by its name, and no others, and the manager has
-- their classes right.
pub record IsFound (m : LogManager) (s : Process) : Type 0 where
  pub found : (name : Text) → seen name s ≡ lookup name m.loggers
  pub kinds :
      (name : Text) (p : ℕ)
      → lookup name m.loggers ≡ some p
      → kind_at s.store p ≡ some (is_logger_async name m)
  pub within : All (Within s.store) s.registry

All-Within :
    (st st' : List Logger) (registry : List ℕ)
    → length st ≤ length st'
    → All (Within st) registry
    → All (Within st') registry
All-Within st st' [] le a = tt
All-Within st st' (p ∷ rest) le a = (omega (arith, a.0), All-Within st st' rest le a.1)

seen-SameNames : (name : Text) (s t : Process) → SameNames s t → seen name s ≡ seen name t
seen-SameNames name s t same =
    get_logger-names s.store t.store name s.registry same.names
    ∙ ap (LoggerController.get_logger t.store name) same.registries

pub IsFound-SameNames : (m : LogManager) (s t : Process) → SameNames s t → IsFound m t → IsFound m s
IsFound-SameNames m s t same f = record {
  found = λ name. seen-SameNames name s t same ∙ f.found name;
  kinds = λ name p e. same.kinds p ∙ f.kinds name p e;
  within =
      All-Within t.store s.store s.registry (omega (arith, same.lengths))
        (rw same.registries f.within);
}

get_name-make_logger : (name : Text) (is_async : Bool) → get_name (make_logger name is_async) ≡ name
unfolding make_logger SyncLogger.new AsyncLogger.new
get_name-make_logger name true = refl
get_name-make_logger name false = refl

created-found :
    (name j : Text) (n : ℕ) (o : Option ℕ) (eq : Bool)
    → (eq ≡ true → o ≡ none)
    → or_else o (if eq then some n else none) ≡ (if eq then some n else o)
created-found name j n none true f = refl
created-found name j n none false f = refl
created-found name j n (some p) true f = cc (f refl)
created-found name j n (some p) false f = refl

-- `createLogger` for a new name.
IsFound-created :
    (name : Text) (is_async : Bool) (m : LogManager) (s : Process)
    → lookup name m.loggers ≡ none
    → IsFound m s
    → let made = created name is_async m s none in IsFound made.manager made.process
unfolding created LoggerController.register_logger is_logger_async
IsFound-created name is_async m s fresh f = record {
  found = λ j.
      get_logger-register s.store (make_logger name is_async) j s.registry f.within
      ∙ (rw (get_name-make_logger name is_async, f.found j)
            (created-found name j (length s.store) (lookup j m.loggers) (str_eq name j)
              (λ e. ap (λ k. lookup k m.loggers) (sym (str_eq_sound name j e)) ∙ fresh))
          ∙ sym (lookup-insert name j (length s.store) m.loggers));
  kinds = λ j p e. rw (lookup-insert name j is_async m.logger_async_state) (
      created-kinds s.store (make_logger name is_async) is_async p (lookup j m.loggers)
        (lookup j m.logger_async_state) (str_eq name j) (kind-make_logger name is_async)
        (f.kinds j p) (sym (lookup-insert name j (length s.store) m.loggers) ∙ e));
  within =
      All-append (Within (s.store ++ make_logger name is_async ∷ [])) s.registry
        (length s.store ∷ [])
        (All-Within s.store (s.store ++ make_logger name is_async ∷ []) s.registry
          (omega (arith, length-append s.store (make_logger name is_async ∷ []))) f.within)
        (omega (arith, length-append s.store (make_logger name is_async ∷ [])), tt);
}

pub IsFound-create_logger :
    (name : Text) (is_async : Bool) (m : LogManager) (s : Process)
    → IsFound m s
    → let made = create_logger name is_async m s in IsFound made.manager made.process
unfolding create_logger
IsFound-create_logger name is_async m s f = elim (Option-cases (lookup name m.loggers)) [
  | inl fresh ↦ rw fresh (IsFound-created name is_async m s fresh f)
  | inr (p, there) ↦ rw (there, created) f
]

pub IsFound-when_found :
    (m : LogManager) (o : Option ℕ) (f : ℕ → Process → Process) (s : Process)
    → ((p : ℕ) → SameNames (f p s) s)
    → IsFound m s
    → IsFound m (when_found o f s)
unfolding when_found
IsFound-when_found m none f s same found = found
IsFound-when_found m (some p) f s same found = IsFound-SameNames m (f p s) s (same p) found

-- `finalize` takes every logger off the list.
-- What is seen after the entries so far is among the entries to come.
Left : List (Text × ℕ) → Process → Type 0
Left rest s = (name : Text) → lookup name rest ≡ none → seen name s ≡ none

SameNames-flush :
    (h : Host) (thread p : ℕ) (s : Process) → SameNames (modify_in p (Logger.flush h thread) s) s
SameNames-flush h thread p s =
    SameNames-modify_in p (Logger.flush h thread) s (identity-flush h thread)

Left-finalize_one :
    (h : Host) (thread p : ℕ) (k : Text) (rest : List (Text × ℕ)) (s : Process)
    → Left ((k, p) ∷ rest) s
    → Left rest (finalize_one h thread (k, p) s)
unfolding Left finalize_one lookup
Left-finalize_one h thread p k rest s left name none_there =
    let flushed = modify_in p (Logger.flush h thread) s in
    get_logger-unregister flushed.store k name flushed.registry
    ∙ elim (Bool-cases (str_eq k name)) [
      | inl y ↦ rw y refl
      | inr n ↦ rw n (
          seen-SameNames name flushed s (SameNames-flush h thread p s)
          ∙ left name (rw n none_there))
    ]

Within-finalize_one :
    (h : Host) (thread p : ℕ) (k : Text) (s : Process)
    → All (Within s.store) s.registry
    → let t = finalize_one h thread (k, p) s in All (Within t.store) t.registry
unfolding finalize_one
Within-finalize_one h thread p k s a =
    let flushed = modify_in p (Logger.flush h thread) s in
    let same = SameNames-flush h thread p s in
    All-unregister flushed.store flushed.store k flushed.registry (
      All-Within s.store flushed.store flushed.registry (omega (arith, same.lengths))
        (rw same.registries a))

finalize_all-IsFound :
    (h : Host) (thread : ℕ) (entries : List (Text × ℕ)) (s : Process)
    → Left entries s
    → All (Within s.store) s.registry
    → IsFound LogManager.new (finalize_all h thread entries s)
unfolding finalize_all Left lookup
finalize_all-IsFound h thread [] s left within = record {
  found = λ name. left name refl;
  kinds = λ name p e. cc;
  within = within;
}
finalize_all-IsFound h thread ((k, p) ∷ rest) s left within =
    finalize_all-IsFound h thread rest (finalize_one h thread (k, p) s)
      (Left-finalize_one h thread p k rest s left) (Within-finalize_one h thread p k s within)

pub IsFound-finalize :
    (h : Host) (thread : ℕ) (m : LogManager) (s : Process)
    → IsFound m s
    → IsFound LogManager.new (finalize h thread m s).1
unfolding finalize Left
IsFound-finalize h thread m s f =
    finalize_all-IsFound h thread m.loggers s (λ name e. f.found name ∙ e) f.within
