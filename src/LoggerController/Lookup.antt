-- ===== src/LoggerController/Lookup.antt =====
-- What a search of the list finds after each change of the list or of the store.
use vnelogging.Common.{
  ℕ, ◌≡◌, refl, ◌<◌, Option, none, some, List, [], ◌∷◌, ◌++◌, zero, suc, inl, inr, arith, All,
  Bool-cases, Text, str_eq, str_eq_iff, str_eq_sound, subst, length, if◌then◌else◌,
}
use mathlib.Core.Option.{some-injective}
use vnelogging.Logger.{Logger, get_name}
use vnelogging.LoggerController.{Registry, name_at, get_logger, unregister_logger}

pub get_logger-names :
    (st st' : List Logger) (name : Text) (registry : Registry)
    → ((q : ℕ) → name_at st q ≡ name_at st' q)
    → get_logger st name registry ≡ get_logger st' name registry
unfolding get_logger
get_logger-names st st' name [] e = refl
get_logger-names st st' name (p ∷ rest) e = rw (e p, get_logger-names st st' name rest e) refl

-- What is found has the name.
pub get_logger_sound :
    (st : List Logger) (name : Text) (registry : Registry) (p : ℕ)
    → get_logger st name registry ≡ some p
    → name_at st p ≡ name
unfolding get_logger
get_logger_sound st name [] p e = cc
get_logger_sound st name (q ∷ rest) p e = elim (Bool-cases (str_eq (name_at st q) name)) [
  | inl y ↦
      subst (λ k. name_at st k ≡ name) (some-injective q p (rw y at e))
        (str_eq_sound (name_at st q) name y)
  | inr n ↦ get_logger_sound st name rest p (rw n at e)
]

-- Unregistering a name hides that name and no other.
pub get_logger-unregister :
    (st : List Logger) (k name : Text) (registry : Registry)
    → get_logger st name (unregister_logger st k registry)
      ≡ (if str_eq k name then none else get_logger st name registry)
unfolding get_logger unregister_logger
get_logger-unregister st k name [] = ground arith
get_logger-unregister st k name (p ∷ rest) = ground (
  arith,
  str_eq_iff k name,
  str_eq_iff (name_at st p) k,
  str_eq_iff (name_at st p) name,
  get_logger-unregister st k name rest,
)

-- A search in a longer list: the earlier entries come first.
abbrev pub or_else : Option ℕ → Option ℕ → Option ℕ
or_else none o = o
or_else (some p) o = some p

abbrev pub Within : List Logger → ℕ → Type 0
Within st p = p < length st

name_at-append :
    (st : List Logger) (l : Logger) (p : ℕ)
    → p < length st
    → name_at (st ++ l ∷ []) p ≡ name_at st p
name_at-append [] l p h = elim h [ ]
name_at-append (x ∷ st) l zero h = refl
name_at-append (x ∷ st) l (suc p) h = name_at-append st l p (omega arith)

name_at-last : (st : List Logger) (l : Logger) → name_at (st ++ l ∷ []) (length st) ≡ get_name l
name_at-last [] l = refl
name_at-last (x ∷ st) l = name_at-last st l

-- A new logger is found by its name where nothing was, and all else as before.
pub get_logger-register :
    (st : List Logger) (l : Logger) (name : Text) (registry : Registry)
    → All (Within st) registry
    → get_logger (st ++ l ∷ []) name (registry ++ length st ∷ [])
      ≡ or_else
          (get_logger st name registry)
          (if str_eq (get_name l) name then some (length st) else none)
unfolding get_logger
get_logger-register st l name [] within = rw (name_at-last st l) refl
get_logger-register st l name (p ∷ rest) (here, within) =
    rw (name_at-append st l p here, get_logger-register st l name rest within)
      (elim (Bool-cases (str_eq (name_at st p) name)) [ inl y ↦ rw y refl | inr n ↦ rw n refl ])

pub All-unregister :
    (st st' : List Logger) (k : Text) (registry : Registry)
    → All (Within st') registry
    → All (Within st') (unregister_logger st k registry)
unfolding unregister_logger
All-unregister st st' k [] a = tt
All-unregister st st' k (p ∷ rest) a = elim (Bool-cases (str_eq (name_at st p) k)) [
  | inl y ↦ rw y (All-unregister st st' k rest a.1)
  | inr n ↦ rw n (a.0, All-unregister st st' k rest a.1)
]
