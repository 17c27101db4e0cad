-- ===== src/LogLevel.antt =====
-- core/log_level.h: the severity levels, their order and their names.
use vnelogging.Common.{ℕ, ◌≡◌, Bool, arith, leb, Text, codes}

pub data LogLevel : Type 0 where
  trace debug info warn error fatal : LogLevel

-- The value of the enumerator.
abbrev pub to_underlying : LogLevel → ℕ
to_underlying trace = 0
to_underlying debug = 1
to_underlying info = 2
to_underlying warn = 3
to_underlying error = 4
to_underlying fatal = 5

-- `level >= bound`, on the enumerators' values.
abbrev pub at_least : LogLevel → LogLevel → Bool
at_least level bound = leb (to_underlying bound) (to_underlying level)

-- `operator<<`. The default branch, "UNKNOWN", is for a value that is no enumerator.
unfoldable pub print : LogLevel → Text
print trace = codes "TRACE"
print debug = codes "DEBUG"
print info = codes "INFO"
print warn = codes "WARN"
print error = codes "ERROR"
print fatal = codes "FATAL"

-- The names tell the levels apart.
pub print_injective : (a b : LogLevel) → print a ≡ print b → a ≡ b
unfolding print
print_injective a b e = ground arith
