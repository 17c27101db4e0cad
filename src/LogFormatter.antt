-- ===== src/LogFormatter.antt =====
-- core/log_formatter.h and log_formatter.cpp: a line from a pattern and the arguments of `log`.
-- The loop runs over the pattern by index, as in the source, on fuel: a round for each byte.
pub mod ThreadId
pub mod Pieces
pub mod Equivalence
pub mod Source
use vnelogging.Common.{
  ℕ, zero, suc, Bool, true, false, ◌&&◌, Option, none, some, List, [], ◌∷◌, ◌++◌, ltb, ◌==◌, Text,
  codes, length, is_empty, if◌then◌else◌,
}
use vnelogging.Common.Decimal.{to_string}
use vnelogging.LogLevel
use vnelogging.LogLevel.{LogLevel}
use vnelogging.TimeStamp.{TimeStampType, get_time_stamp}
use vnelogging.Host.{Host, ThreadIds, World, M, pure, ◌>>=◌, tick}

-- The arguments of `log`, for a formatter, a sink or a logger.
pub record LogRecord : Type 0 where
  pub name : Text
  pub level : LogLevel
  pub time_stamp_type : TimeStampType
  pub message : Text
  pub file : Text
  pub function : Text
  pub line : ℕ

abbrev pub update_id : (ℕ → Text) → ℕ → Text → ℕ → Text
update_id cached thread id t = if t == thread then id else cached t

-- "Thread-" and a number.
abbrev pub label : ℕ → Text
label n = codes "Thread-" ++ to_string n

-- `getThreadID`, called on a thread: a number is drawn on the thread's first call.
unfoldable pub get_thread_id : ℕ → ThreadIds → Text × ThreadIds
get_thread_id thread ids =
    if is_empty (ids.cached_id thread)
    then (
      label ids.next_id,
      record {
        cached_id = update_id ids.cached_id thread (label ids.next_id);
        next_id = suc ids.next_id;
      },
    )
    else (ids.cached_id thread, ids)

-- What `%x`, `%n`, … put in place of themselves.
pub data Field : Type 0 where
  time_stamp category log_level thread_id file_name function_name line_number message : Field

-- The labels of the `switch`; `none` is its default branch.
unfoldable pub field_of : ℕ → Option Field
field_of c =
    if c == b'x'
    then some time_stamp
    else if c == b'n'
    then some category
    else if c == b'l'
    then some log_level
    else if c == b't'
    then some thread_id
    else if c == b'$'
    then some file_name
    else if c == b'!'
    then some function_name
    else if c == b'#'
    then some line_number
    else if c == b'v'
    then some message
    else none

stamp : Host → TimeStampType → M Text
stamp h type = do k ← tick; pure (get_time_stamp type h.time k)

thread_id_of : ℕ → M Text
thread_id_of thread w = let (id, ids') = get_thread_id thread w.ids in (id, record w { ids = ids' })

-- The branches of the `switch`.
unfoldable pub emit : Host → ℕ → LogRecord → Field → M Text
unfolding stamp thread_id_of
emit h thread r time_stamp = stamp h r.time_stamp_type
emit h thread r category = pure r.name
emit h thread r log_level = pure (LogLevel.print r.level)
emit h thread r thread_id = thread_id_of thread
emit h thread r file_name = pure r.file
emit h thread r function_name = pure r.function
emit h thread r line_number = pure (to_string r.line)
emit h thread r message = pure r.message

-- `format[i]`, read only where it is there.
abbrev pub char_at : Text → ℕ → ℕ
char_at [] i = 0
char_at (c ∷ s) zero = c
char_at (c ∷ s) (suc i) = char_at s i

-- A branch of the `switch`: what it writes, and the index for the next round.
take_field : Host → ℕ → LogRecord → Text → ℕ → Option Field → M (Text × ℕ)
take_field h thread r format i (some f) = do s ← emit h thread r f; pure (s, suc (suc i))
take_field h thread r format i none = pure (char_at format i ∷ [], suc i)

-- The body of the loop.
round : Host → ℕ → LogRecord → Text → ℕ → M (Text × ℕ)
unfolding take_field
round h thread r format i =
    if char_at format i == b'%' && ltb (suc i) (length format)
    then take_field h thread r format i (field_of (char_at format (suc i)))
    else pure (char_at format i ∷ [], suc i)

format_loop : Host → ℕ → LogRecord → Text → ℕ → ℕ → Text → M Text
format_loop h thread r format zero i out w = (out, w)
format_loop h thread r format (suc rounds) i out w = elim (ltb i (length format)) [
  | true ↦
      let ((s, next), w') = round h thread r format i w in
      format_loop h thread r format rounds next (out ++ s) w'
  | false ↦ (out, w)
]

-- `LogFormatter::format`, run on a thread.
unfoldable pub format : Host → ℕ → LogRecord → Text → M Text
unfolding format_loop round
format h thread r pattern = format_loop h thread r pattern (length pattern) 0 []
