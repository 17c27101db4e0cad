-- ===== src/SyncLogger/Fronts.antt =====
-- sync_logger.cpp: a logger with one file behind other sinks, as beside a console.
use vnelogging.Common.{
  ℕ, ◌≡◌, refl, ap, ◌∙◌, Bool, true, false, inl, inr, List, [], ◌∷◌, ◌++◌, append-nil, append_assoc,
  Bool-cases, Text, if◌then◌else◌,
}
use vnelogging.LogLevel.{LogLevel, at_least}
use vnelogging.Host.{Host, World, M, pure, ◌>>=◌}
use vnelogging.LogFormatter.{LogRecord}
use vnelogging.LogSink
use vnelogging.LogSink.{
  LogSink, console, file, ConsoleLogSink, FileLogSink, log_console, stream_flush,
}
use vnelogging.SyncLogger.{SyncLogger, log, log_each, flush, flush_each}
use vnelogging.SyncLogger.Lines.{
  with_stream, with_stream_self, on_disk, log_by, line, log-dropped, log-written, log_file-line,
}

-- Sinks before the file that a record leaves as they are, and what a record does to the process.
pub record Front (h : Host) : Type 0 where
  pub sinks : List LogSink
  pub prepare : ℕ → LogRecord → M (Unit {0})
  pub logs :
      (thread : ℕ) (r : LogRecord) (rest : List LogSink) (w : World)
      → log_each h thread r (sinks ++ rest) w
        ≡ (do _ ← prepare thread r; rest' ← log_each h thread r rest; pure (sinks ++ rest')) w
  pub flushes : (rest : List LogSink) → flush_each (sinks ++ rest) ≡ sinks ++ flush_each rest

-- No other sink.
abbrev pub alone : (h : Host) → Front h
alone h = record {
  sinks = [];
  prepare = λ thread r. pure tt;
  logs = λ thread r rest w. refl;
  flushes = λ rest. refl;
}

-- A console.
unfoldable pub beside_console : (h : Host) → ConsoleLogSink → Front h
unfolding log_each LogSink.log LogSink.flush
beside_console h c = record {
  sinks = console c ∷ [];
  prepare = λ thread r. log_console h thread r c;
  logs = λ thread r rest w. refl;
  flushes = λ rest. refl;
}

module _ (h : Host) (front : Front h) where
  -- The record at the front, and its line.
  abbrev pub full_line : ℕ → LogRecord → Text → M Text
  full_line thread r pattern = do _ ← front.prepare thread r; line h thread r pattern

  -- The lines of the records that are of the level at least.
  unfoldable pub lines_behind : LogLevel → Text → List (ℕ × LogRecord) → M Text
  lines_behind level pattern [] w = ([], w)
  lines_behind level pattern ((thread, r) ∷ rs) w = elim (at_least r.level level) [
    | true ↦
        (do s ← full_line thread r pattern; rest ← lines_behind level pattern rs; pure (s ++ rest))
          w
    | false ↦ lines_behind level pattern rs w
  ]

  abbrev pub with_file : FileLogSink → Text → Text → List LogSink
  with_file sink text flushed = front.sinks ++ file (with_stream sink text flushed) ∷ []

  -- The file behind the other sinks has accepted `text`.
  record HasFile (sink : FileLogSink) (text : Text) (level : LogLevel) (l : SyncLogger)
      : Type 0 where
    flushed : Text
    sinks : l.log_sinks ≡ with_file sink text flushed
    current : l.current_log_level ≡ level

  log_each-line :
      (thread : ℕ) (r : LogRecord) (sink : FileLogSink) (text flushed : Text) (w : World)
      → log_each h thread r (with_file sink text flushed) w
        ≡ (do s ← full_line thread r sink.pattern; pure (with_file sink (text ++ s) flushed)) w
  log_each-line thread r sink text flushed w =
      front.logs thread r (file (with_stream sink text flushed) ∷ []) w
      ∙ ap (λ (p : List LogSink × World). (front.sinks ++ p.0, p.1))
          (log_file-line h thread r sink text flushed (front.prepare thread r w).1)

  kept_or_flushed :
      (sink : FileLogSink) (text flushed : Text) (level : LogLevel) (l : SyncLogger) (urgent : Bool)
      → l.current_log_level ≡ level
      → HasFile sink text level (record l {
        log_sinks =
            let sinks = with_file sink text flushed in if urgent then flush_each sinks else sinks;
      })
  unfolding LogSink.flush
  kept_or_flushed sink text flushed level l true e = record {
    flushed = text;
    sinks = front.flushes (file (with_stream sink text flushed) ∷ []);
    current = e;
  }
  kept_or_flushed sink text flushed level l false e = record {
    flushed = flushed;
    sinks = refl;
    current = e;
  }

  log-HasFile :
      (thread : ℕ) (r : LogRecord) (sink : FileLogSink) (text : Text) (level : LogLevel)
      (l : SyncLogger) (w : World)
      → at_least r.level level ≡ true
      → HasFile sink text level l
      → let (s, v) = full_line thread r sink.pattern w in
        let (l', w') = log h thread r l w in HasFile sink (text ++ s) level l' × (w' ≡ v)
  log-HasFile thread r sink text level l w above f =
      rw
        (
          log-written h thread r l w (rw f.current above),
          f.sinks,
          log_each-line thread r sink text f.flushed w,
        )
        (
          let (s, v) = full_line thread r sink.pattern w in
              kept_or_flushed sink (text ++ s) f.flushed level l (at_least r.level l.flush_level)
                f.current,
          refl,
        )

  pub lines_behind-above :
      (thread : ℕ) (r : LogRecord) (rs : List (ℕ × LogRecord)) (level : LogLevel) (pattern : Text)
      (w : World)
      → at_least r.level level ≡ true
      → lines_behind level pattern ((thread, r) ∷ rs) w
        ≡ (do
          s ← full_line thread r pattern
          rest ← lines_behind level pattern rs
          pure (s ++ rest))
            w
  unfolding lines_behind
  lines_behind-above thread r rs level pattern w above = rw (above, lines_behind) refl

  pub lines_behind-below :
      (thread : ℕ) (r : LogRecord) (rs : List (ℕ × LogRecord)) (level : LogLevel) (pattern : Text)
      (w : World)
      → at_least r.level level ≡ false
      → lines_behind level pattern ((thread, r) ∷ rs) w ≡ lines_behind level pattern rs w
  unfolding lines_behind
  lines_behind-below thread r rs level pattern w below = rw (below, lines_behind) refl

  log_by-dropped :
      (thread : ℕ) (r : LogRecord) (rs : List (ℕ × LogRecord)) (l : SyncLogger) (w : World)
      → at_least r.level l.current_log_level ≡ false
      → log_by h ((thread, r) ∷ rs) l w ≡ log_by h rs l w
  unfolding log_by
  log_by-dropped thread r rs l w below =
      ap (λ (p : SyncLogger × World). log_by h rs p.0 p.1) (log-dropped h thread r l w below)

  log_by-HasFile :
      (rs : List (ℕ × LogRecord)) (sink : FileLogSink) (text : Text) (level : LogLevel)
      (l : SyncLogger) (w : World)
      → HasFile sink text level l
      → let (s, v) = lines_behind level sink.pattern rs w in
        let (l', w') = log_by h rs l w in HasFile sink (text ++ s) level l' × (w' ≡ v)
  unfolding log_by lines_behind
  log_by-HasFile [] sink text level l w f = (rw append-nil f, refl)
  log_by-HasFile ((thread, r) ∷ rs) sink text level l w f =
      elim (Bool-cases (at_least r.level level)) [
        | inl above ↦
            let (f', e) = log-HasFile thread r sink text level l w above f in
            let (s, v) = full_line thread r sink.pattern w in
            let (l', w') = log h thread r l w in
            let (g, e') = log_by-HasFile rs sink (text ++ s) level l' w' f' in
            rw (lines_behind-above thread r rs level sink.pattern w above, ← append_assoc, ← e)
              (g, e')
        | inr below ↦
            rw
              (
                lines_behind-below thread r rs level sink.pattern w below,
                log_by-dropped thread r rs l w (rw f.current below),
              )
              (log_by-HasFile rs sink text level l w f)
      ]

  -- After `flush` the file has the earlier text and the lines.
  pub log_by-lines_behind :
      (rs : List (ℕ × LogRecord)) (sink : FileLogSink) (l : SyncLogger) (w : World)
      → l.log_sinks ≡ front.sinks ++ file sink ∷ []
      → sink.file_stream.is_open ≡ true
      → let (l', w') = log_by h rs l w in
        let (s, v) = lines_behind l.current_log_level sink.pattern rs w in
        ((flush l').log_sinks
          ≡ front.sinks ++ file (on_disk sink (sink.file_stream.accepted ++ s)) ∷ [])
        × (w' ≡ v)
  unfolding flush LogSink.flush
  log_by-lines_behind rs sink l w e is_open =
      let (l', w') = log_by h rs l w in
      let (s, v) = lines_behind l.current_log_level sink.pattern rs w in
      let (f, g) =
        log_by-HasFile rs sink sink.file_stream.accepted l.current_log_level l w (record {
          flushed = sink.file_stream.flushed;
          sinks = e ∙ ap (λ s. front.sinks ++ file s ∷ []) (with_stream_self sink is_open);
          current = refl;
        }) in
      (
        ap flush_each f.sinks
            ∙ front.flushes
                (file (with_stream sink (sink.file_stream.accepted ++ s) f.flushed) ∷ []),
        g,
      )
