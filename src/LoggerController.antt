-- ===== src/LoggerController.antt =====
-- core/logger_controller.h and logger_controller.cpp: the process-wide list of the loggers that
-- `LogStream` looks in. A `std::shared_ptr<ILogger>` is an address in the store of all loggers ever
-- made; the null pointer is `none`. Each method runs under the mutex.
pub mod Lookup
use vnelogging.Common.{
  ℕ, Option, none, some, List, [], ◌∷◌, ◌++◌, map, Text, str_eq, get_elem?, if◌then◌else◌,
}
use vnelogging.Logger.{Logger, get_name}

abbrev pub Registry : Type 0
Registry = List ℕ

-- `logger->getName()`; every address in use is in the store.
abbrev pub name_of : Option Logger → Text
name_of none = []
name_of (some l) = get_name l

abbrev pub name_at : List Logger → ℕ → Text
name_at store p = name_of (get_elem? store p)

unfoldable pub register_logger : Option ℕ → Registry → Registry
register_logger none registry = registry
register_logger (some p) registry = registry ++ p ∷ []

-- `remove_if` and `erase`.
unfoldable pub unregister_logger : List Logger → Text → Registry → Registry
unregister_logger store logger_name [] = []
unregister_logger store logger_name (p ∷ rest) =
    let kept = unregister_logger store logger_name rest in
    if str_eq (name_at store p) logger_name then kept else p ∷ kept

abbrev pub unregister_all_loggers : Registry → Registry
unregister_all_loggers registry = []

-- `find_if`
unfoldable pub get_logger : List Logger → Text → Registry → Option ℕ
get_logger store logger_name [] = none
get_logger store logger_name (p ∷ rest) =
    if str_eq (name_at store p) logger_name then some p else get_logger store logger_name rest

unfoldable pub get_logger_names : List Logger → Registry → List Text
get_logger_names store registry = map (name_at store) registry
