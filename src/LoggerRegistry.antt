-- ===== src/LoggerRegistry.antt =====
-- core/logger_registry.h and logger_registry.cpp: named loggers, and a current logger for each
-- thread. A logger is its address; the null pointer is `none`.
pub mod Refinement
use vnelogging.Common.{ℕ, Option, none, some, List, [], map, ◌==◌, Text, if◌then◌else◌}
use vnelogging.Common.Dict.{lookup, insert, erase}

pub record LoggerRegistry : Type 0 where
  pub registry : List (Text × ℕ)
  pub current_logger : ℕ → Option ℕ

abbrev pub empty : LoggerRegistry
empty = record { registry = []; current_logger = λ t. none }

-- The `thread_local` variable of one thread.
abbrev pub with_current : (ℕ → Option ℕ) → ℕ → Option ℕ → ℕ → Option ℕ
with_current current thread logger t = if t == thread then logger else current t

unfoldable pub register_logger : ℕ → Text → Option ℕ → LoggerRegistry → LoggerRegistry
register_logger thread name none r = r
register_logger thread name (some p) r = record {
  registry = insert name p r.registry;
  current_logger = with_current r.current_logger thread (some p);
}

unfoldable pub unregister_logger : Text → LoggerRegistry → LoggerRegistry
unregister_logger name r = record r { registry = erase name r.registry }

unfoldable pub unregister_all : ℕ → LoggerRegistry → LoggerRegistry
unregister_all thread r = record {
  registry = [];
  current_logger = with_current r.current_logger thread none;
}

unfoldable pub get_logger : Text → LoggerRegistry → Option ℕ
get_logger name r = lookup name r.registry

unfoldable pub get_logger_names : LoggerRegistry → List Text
get_logger_names r = map (λ e. e.0) r.registry

unfoldable pub set_current_logger : ℕ → Text → LoggerRegistry → LoggerRegistry
unfolding get_logger
set_current_logger thread name r = record r {
  current_logger = with_current r.current_logger thread (get_logger name r);
}

unfoldable pub get_current_logger : ℕ → LoggerRegistry → Option ℕ
get_current_logger thread r = r.current_logger thread
