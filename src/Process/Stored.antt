-- ===== src/Process/Stored.antt =====
-- What stands at an address after a method has run on a logger.
use vnelogging.Common.{
  ℕ, ◌≡◌, ◌≢◌, refl, ap, ◌∙◌, Option, none, some, get_elem?, get_elem?-set_self, get_elem?-set_ne,
  lt-length_of_get_elem?,
}
use vnelogging.Host.{M}
use vnelogging.Logger.{Logger}
use vnelogging.Process.{Process, act, modify_in, modify, replace}

modify_in-act :
    (p : ℕ) (f : Logger → M Logger) (s : Process) (l : Logger)
    → get_elem? s.store p ≡ some l
    → modify_in p f s ≡ act p f s (some l)
unfolding modify_in
modify_in-act p f s l e = ap (act p f s) e

-- The logger itself.
pub stored_here :
    (p : ℕ) (f : Logger → M Logger) (s : Process) (l : Logger)
    → get_elem? s.store p ≡ some l
    → get_elem? (modify_in p f s).store p ≡ some (f l s.world).0
unfolding act
stored_here p f s l e =
    ap (λ (t : Process). get_elem? t.store p) (modify_in-act p f s l e)
    ∙ get_elem?-set_self s.store p (f l s.world).0 (lt-length_of_get_elem? s.store p l e)

pub world_here :
    (p : ℕ) (f : Logger → M Logger) (s : Process) (l : Logger)
    → get_elem? s.store p ≡ some l
    → (modify_in p f s).world ≡ (f l s.world).1
unfolding act
world_here p f s l e = ap (λ (t : Process). t.world) (modify_in-act p f s l e)

-- Any other.
pub stored_elsewhere :
    (p q : ℕ) (f : Logger → M Logger) (s : Process)
    → q ≢ p
    → get_elem? (modify_in q f s).store p ≡ get_elem? s.store p
unfolding modify_in act
stored_elsewhere p q f s ne = at (get_elem? s.store q)
  where
    at : (o : Option Logger) → get_elem? (act q f s o).store p ≡ get_elem? s.store p
    at none = refl
    at (some k) = get_elem?-set_ne s.store q p (f k s.world).0 ne

pub modified_elsewhere :
    (p q : ℕ) (f : Logger → Logger) (s : Process)
    → q ≢ p
    → get_elem? (modify q f s).store p ≡ get_elem? s.store p
unfolding modify
modified_elsewhere p q f s ne = at (get_elem? s.store q)
  where
    at : (o : Option Logger) → get_elem? (replace q f s.store o) p ≡ get_elem? s.store p
    at none = refl
    at (some k) = get_elem?-set_ne s.store q p (f k) ne
