-- ===== src/Process.antt =====
-- The state that the components share: all loggers, the controller's list, and the rest of the
-- process. Loggers are shared: what one component does to a logger the others see.
pub mod Names
pub mod Stored
use vnelogging.Common.{ℕ, Option, none, some, List, set, get_elem?}
use vnelogging.Host.{World, M}
use vnelogging.Logger.{Logger}
use vnelogging.LoggerController.{Registry}

pub record Process : Type 0 where
  pub store : List Logger
  pub registry : Registry
  pub world : World

-- A method of the logger at an address that changes the logger alone.
abbrev pub replace : ℕ → (Logger → Logger) → List Logger → Option Logger → List Logger
replace p f store none = store
replace p f store (some l) = set store p (f l)

unfoldable pub modify : ℕ → (Logger → Logger) → Process → Process
modify p f s = record s { store = replace p f s.store (get_elem? s.store p) }

-- One that also acts on the rest of the process.
act : ℕ → (Logger → M Logger) → Process → Option Logger → Process
act p f s none = s
act p f s (some l) = let (l', w) = f l s.world in record s { store = set s.store p l'; world = w }

unfoldable pub modify_in : ℕ → (Logger → M Logger) → Process → Process
unfolding act
modify_in p f s = act p f s (get_elem? s.store p)
