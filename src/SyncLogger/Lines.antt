-- ===== src/SyncLogger/Lines.antt =====
-- sync_logger.cpp and file_log_sink.cpp: a record as a line of a file, and calls of `log`.
use vnelogging.Common.{
  ℕ, ◌≡◌, refl, ap, sym, ◌∙◌, true, false, inl, inr, Bool-cases, map, List, [], ◌∷◌, ◌++◌, Text,
  if◌then◌else◌,
}
use vnelogging.LogLevel.{LogLevel, at_least}
use vnelogging.Host.{Host, World, M, pure, ◌>>=◌}
use vnelogging.LogFormatter.{LogRecord}
use vnelogging.LogFormatter.Pieces.{pieces, render}
use vnelogging.LogFormatter.Equivalence.{format-render}
use vnelogging.LogSink
use vnelogging.LogSink.{LogSink, file, FileLogSink, FileStream, log_file, stream_flush}
use vnelogging.SyncLogger.{SyncLogger, log, log_each, flush_each}

abbrev pub with_stream : FileLogSink → Text → Text → FileLogSink
with_stream sink accepted flushed = record sink {
  file_stream = record { is_open = true; accepted = accepted; flushed = flushed };
}

pub with_stream_self :
    (sink : FileLogSink)
    → sink.file_stream.is_open ≡ true
    → sink ≡ with_stream sink sink.file_stream.accepted sink.file_stream.flushed
with_stream_self sink is_open =
    ap (λ b. record sink { file_stream = record sink.file_stream { is_open = b } }) is_open

-- A sink of which the system has all of `text`.
abbrev pub on_disk : FileLogSink → Text → FileLogSink
on_disk sink text = with_stream sink text text

module _ (h : Host) (thread : ℕ) where
  -- Calls of `log`, one after the other.
  unfoldable pub log_all : List LogRecord → SyncLogger → M SyncLogger
  log_all [] l = pure l
  log_all (r ∷ rs) l = do l' ← log h thread r l; log_all rs l'

  -- A record as a line: its pattern's pieces and a newline.
  abbrev pub line : LogRecord → Text → M Text
  line r pattern = do s ← render h thread r (pieces pattern); pure (s ++ b'\n' ∷ [])

  -- The lines of the records that are of the level at least.
  unfoldable pub lines : LogLevel → Text → List LogRecord → M Text
  lines level pattern [] w = ([], w)
  lines level pattern (r ∷ rs) w = elim (at_least r.level level) [
    | true ↦ (do s ← line r pattern; rest ← lines level pattern rs; pure (s ++ rest)) w
    | false ↦ lines level pattern rs w
  ]

  pub log-dropped :
      (r : LogRecord) (l : SyncLogger) (w : World)
      → at_least r.level l.current_log_level ≡ false
      → log h thread r l w ≡ (l, w)
  unfolding log
  log-dropped r l w below = rw (below, log) refl

  -- What the file sink does with a record.
  pub log_file-line :
      (r : LogRecord) (sink : FileLogSink) (text flushed : Text) (w : World)
      → log_each h thread r (file (with_stream sink text flushed) ∷ []) w
        ≡ (do s ← line r sink.pattern; pure (file (with_stream sink (text ++ s) flushed) ∷ [])) w
  unfolding log_each LogSink.log log_file
  log_file-line r sink text flushed w = rw (format-render h thread r sink.pattern w) refl

  pub log-written :
      (r : LogRecord) (l : SyncLogger) (w : World)
      → at_least r.level l.current_log_level ≡ true
      → log h thread r l w
        ≡ (do
          sinks ← log_each h thread r l.log_sinks
          pure (record l {
            log_sinks = if at_least r.level l.flush_level then flush_each sinks else sinks;
          }))
            w
  unfolding log
  log-written r l w above = rw (above, log) refl

  pub lines-above :
      (r : LogRecord) (rs : List LogRecord) (level : LogLevel) (pattern : Text) (w : World)
      → at_least r.level level ≡ true
      → lines level pattern (r ∷ rs) w
        ≡ (do s ← line r pattern; rest ← lines level pattern rs; pure (s ++ rest)) w
  unfolding lines
  lines-above r rs level pattern w above = rw (above, lines) refl

  pub lines-below :
      (r : LogRecord) (rs : List LogRecord) (level : LogLevel) (pattern : Text) (w : World)
      → at_least r.level level ≡ false
      → lines level pattern (r ∷ rs) w ≡ lines level pattern rs w
  unfolding lines
  lines-below r rs level pattern w below = rw (below, lines) refl

-- Calls of `log` on any threads, in the order in which they get the mutex.
unfoldable pub log_by : Host → List (ℕ × LogRecord) → SyncLogger → M SyncLogger
log_by h [] l = pure l
log_by h ((thread, r) ∷ rs) l = do l' ← log h thread r l; log_by h rs l'

-- The lines of the records that are of the level at least, each with its own thread's number.
unfoldable pub lines_by : Host → LogLevel → Text → List (ℕ × LogRecord) → M Text
lines_by h level pattern [] w = ([], w)
lines_by h level pattern ((thread, r) ∷ rs) w = elim (at_least r.level level) [
  | true ↦ (do s ← line h thread r pattern; rest ← lines_by h level pattern rs; pure (s ++ rest)) w
  | false ↦ lines_by h level pattern rs w
]

module _ (h : Host) (thread : ℕ) (r : LogRecord) (rs : List (ℕ × LogRecord)) (level : LogLevel)
    (pattern : Text) (w : World) where
  pub lines_by-above :
      at_least r.level level ≡ true
      → lines_by h level pattern ((thread, r) ∷ rs) w
        ≡ (do s ← line h thread r pattern; rest ← lines_by h level pattern rs; pure (s ++ rest)) w
  unfolding lines_by
  lines_by-above above = rw (above, lines_by) refl

  pub lines_by-below :
      at_least r.level level ≡ false
      → lines_by h level pattern ((thread, r) ∷ rs) w ≡ lines_by h level pattern rs w
  unfolding lines_by
  lines_by-below below = rw (below, lines_by) refl

-- On one thread.
abbrev pub on_thread {ℓ} : {A : Type ℓ} → ℕ → List A → List (ℕ × A)
on_thread thread = map (λ x. (thread, x))

pub log_by-one :
    (h : Host) (thread : ℕ) (rs : List LogRecord) (l : SyncLogger) (w : World)
    → log_by h (on_thread thread rs) l w ≡ log_all h thread rs l w
unfolding log_by log_all
log_by-one h thread [] l w = refl
log_by-one h thread (r ∷ rs) l w = let (l', w') = log h thread r l w in log_by-one h thread rs l' w'

pub lines_by-one :
    (h : Host) (thread : ℕ) (level : LogLevel) (pattern : Text) (rs : List LogRecord) (w : World)
    → lines_by h level pattern (on_thread thread rs) w ≡ lines h thread level pattern rs w
unfolding lines_by lines
lines_by-one h thread level pattern [] w = refl
lines_by-one h thread level pattern (r ∷ rs) w = elim (Bool-cases (at_least r.level level)) [
  | inl above ↦
      let (s, v) = line h thread r pattern w in
      lines_by-above h thread r (on_thread thread rs) level pattern w above
      ∙ ap (λ (p : Text × World). (s ++ p.0, p.1)) (lines_by-one h thread level pattern rs v)
      ∙ sym (lines-above h thread r rs level pattern w above)
  | inr below ↦
      lines_by-below h thread r (on_thread thread rs) level pattern w below
      ∙ lines_by-one h thread level pattern rs w
      ∙ sym (lines-below h thread r rs level pattern w below)
]
