-- ===== src/Host.antt =====
-- What the library asks of its surroundings, and the state of the process that it changes.
-- The platform is fixed when the library is built. The environment, the clock and the file system
-- are outside: their answers are functions of the number of questions asked so far, so they may
-- change at any time and in any way.
use vnelogging.Common.{ℕ, suc, Bool, Option, Text, [], ◌++◌}
use vnelogging.TimeStamp.{TimeProvider}

pub data Platform : Type 0 where
  windows macos ios visionos android linux web : Platform

-- A call that may throw, with the exception's text.
pub data Outcome {ℓ} (A : Type ℓ) : Type ℓ where
  returned : A → Outcome A
  thrown : Text → Outcome A

pub record Host : Type 0 where
  pub platform : Platform
  pub getenv : Text → Option Text
  pub time : TimeProvider
  pub open time use *
  pub current_path : ℕ → Outcome Text
  pub parent_path : Text → Text
  pub exists : ℕ → Text → Outcome Bool
  pub create_directories : ℕ → Text → Outcome Bool
  pub open_file : ℕ → Text → Bool → Bool

-- `std::atomic<int>` of text_color.cpp: -1 or another negative number, or a number from 0 on.
pub data ℤ : Type 0 where
  pos : ℕ → ℤ
  negsuc : ℕ → ℤ

-- `thread_local` identifiers by thread, empty until the thread asks, and the next number.
pub record ThreadIds : Type 0 where
  pub cached_id : ℕ → Text
  pub next_id : ℕ

pub record World : Type 0 where
  pub ticks : ℕ
  pub ids : ThreadIds
  pub color_mode : ℤ
  pub color_detected : ℤ
  pub stdout : Text
  pub stderr : Text

-- The process at its start.
abbrev pub initial : World
initial = record {
  ticks = 0;
  ids = record { cached_id = λ t. []; next_id = 1 };
  color_mode = negsuc 0;
  color_detected = negsuc 0;
  stdout = [];
  stderr = [];
}

abbrev pub M {ℓ} : Type ℓ → Type ℓ
M A = World → A × World

abbrev pub pure {ℓ} : {A : Type ℓ} → A → M A
pure a w = (a, w)

infixl 5 ◌>>=◌ ◌>>◌
abbrev pub ◌>>=◌ {ℓ κ} : {A : Type ℓ} {B : Type κ} → M A → (A → M B) → M B
◌>>=◌ m f w = let (a, w') = m w in f a w'

abbrev pub ◌>>◌ {ℓ} : {B : Type ℓ} → M (Unit {0}) → M B → M B
m >> k = m >>= λ _. k

-- One question to the surroundings: the number of those before it.
abbrev pub tick : M ℕ
tick w = (w.ticks, record w { ticks = suc w.ticks })

-- `std::cout << text`
abbrev pub write_out : Text → M (Unit {0})
write_out text w = (tt, record w { stdout = w.stdout ++ text })

-- `std::cerr << text`
abbrev pub write_err : Text → M (Unit {0})
write_err text w = (tt, record w { stderr = w.stderr ++ text })
