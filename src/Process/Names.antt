-- ===== src/Process/Names.antt =====
-- The names and classes of the loggers in the store, which stay as they are when one is changed.
use vnelogging.Common.{
  ℕ, Bool, ◌≡◌, refl, sym, ap, ◌∙◌, Option, none, some, List, [], ◌∷◌, zero, suc, length, set,
  get_elem?, length-set,
}
use vnelogging.Host.{World, M}
use vnelogging.Logger.{Logger, identity, kind}
use vnelogging.LoggerController.{name_at, name_of}
use vnelogging.Process.{Process, act, replace, modify, modify_in}

-- The class of the logger at an address.
abbrev pub kind_of : Option Logger → Option Bool
kind_of none = none
kind_of (some l) = some (kind l)

abbrev pub kind_at : List Logger → ℕ → Option Bool
kind_at store p = kind_of (get_elem? store p)

-- The same addresses with the same names and classes, and the same list of the controller.
pub record SameNames (s t : Process) : Type 0 where
  pub lengths : length s.store ≡ length t.store
  pub names : (q : ℕ) → name_at s.store q ≡ name_at t.store q
  pub kinds : (q : ℕ) → kind_at s.store q ≡ kind_at t.store q
  pub registries : s.registry ≡ t.registry

pub SameNames-refl : (s : Process) → SameNames s s
SameNames-refl s = record {
  lengths = refl;
  names = λ q. refl;
  kinds = λ q. refl;
  registries = refl;
}

pub SameNames-trans : (s t u : Process) → SameNames s t → SameNames t u → SameNames s u
SameNames-trans s t u a b = record {
  lengths = a.lengths ∙ b.lengths;
  names = λ q. a.names q ∙ b.names q;
  kinds = λ q. a.kinds q ∙ b.kinds q;
  registries = a.registries ∙ b.registries;
}

-- What is seen of the loggers, if the one that is put in looks as the one before.
view_at-set :
    {V : Type 0} (view : Option Logger → V) (store : List Logger) (p q : ℕ) (l l' : Logger)
    → get_elem? store p ≡ some l
    → view (some l') ≡ view (some l)
    → view (get_elem? (set store p l') q) ≡ view (get_elem? store q)
view_at-set view [] p q l l' e n = refl
view_at-set view (x ∷ xs) zero zero l l' e n = n ∙ ap view (sym e)
view_at-set view (x ∷ xs) zero (suc q) l l' e n = refl
view_at-set view (x ∷ xs) (suc p) zero l l' e n = refl
view_at-set view (x ∷ xs) (suc p) (suc q) l l' e n = view_at-set view xs p q l l' e n

pub SameNames-modify :
    (p : ℕ) (f : Logger → Logger) (s : Process)
    → ((l : Logger) → identity (f l) ≡ identity l)
    → SameNames (modify p f s) s
unfolding modify
SameNames-modify p f s keeps = at (get_elem? s.store p) refl
  where
    at :
        (o : Option Logger)
        → get_elem? s.store p ≡ o
        → SameNames (record s { store = replace p f s.store o }) s
    at none e = SameNames-refl s
    at (some l) e = record {
      lengths = length-set s.store p (f l);
      names = λ q. view_at-set name_of s.store p q l (f l) e (ap (λ i. i.0) (keeps l));
      kinds = λ q. view_at-set kind_of s.store p q l (f l) e (ap (λ i. some (i.1)) (keeps l));
      registries = refl;
    }

pub SameNames-modify_in :
    (p : ℕ) (f : Logger → M Logger) (s : Process)
    → ((l : Logger) (w : World) → identity (f l w).0 ≡ identity l)
    → SameNames (modify_in p f s) s
unfolding modify_in act
SameNames-modify_in p f s keeps = at (get_elem? s.store p) refl
  where
    at : (o : Option Logger) → get_elem? s.store p ≡ o → SameNames (act p f s o) s
    at none e = SameNames-refl s
    at (some l) e =
        let (l', w) = f l s.world in
        record {
          lengths = length-set s.store p l';
          names = λ q. view_at-set name_of s.store p q l l' e (ap (λ i. i.0) (keeps l s.world));
          kinds =
              λ q. view_at-set kind_of s.store p q l l' e (ap (λ i. some (i.1)) (keeps l s.world));
          registries = refl;
        }
