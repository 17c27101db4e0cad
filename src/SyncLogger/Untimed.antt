-- ===== src/SyncLogger/Untimed.antt =====
-- log_formatter.cpp, console_log_sink.cpp and file_log_sink.cpp: sinks whose patterns have no %x, under
-- two clocks.
use vnelogging.Common.{ℕ, ◌≡◌, refl, sym, ap, ◌∙◌, List, [], ◌∷◌, ◌++◌, All, Text}
use vnelogging.TimeStamp.{TimeProvider}
use vnelogging.TextColor
use vnelogging.TextColor.{TextColor, get_reset_sequence, is_color_enabled}
use vnelogging.Host.{Host, World, pure, ◌>>=◌}
use vnelogging.LogFormatter.{
  LogRecord, time_stamp, category, log_level, thread_id, file_name, function_name, line_number,
  message, emit, format,
}
use vnelogging.LogFormatter.Pieces.{
  Piece, literal, field, pieces, render, render_piece, render-cons, render-nil,
}
use vnelogging.LogFormatter.Equivalence.{format-render}
use vnelogging.LogSink
use vnelogging.LogSink.{LogSink, console, file, log_console, log_file}
use vnelogging.SyncLogger.{log_each, flush_each}

-- What a pattern asks for, other than the time.
abbrev pub NotTime : Piece → Type 0
NotTime (literal c) = Unit
NotTime (field time_stamp) = ⊥
NotTime (field _) = Unit

-- The pattern of the sink has no %x.
abbrev pub IsUntimed : LogSink → Type 0
IsUntimed (console sink) = All NotTime (pieces sink.pattern)
IsUntimed (file sink) = All NotTime (pieces sink.pattern)

pub flush-IsUntimed :
    (sinks : List LogSink) → All IsUntimed sinks → All IsUntimed (flush_each sinks)
unfolding LogSink.flush
flush-IsUntimed [] u = tt
flush-IsUntimed (console sink ∷ sinks) u = (u.0, flush-IsUntimed sinks u.1)
flush-IsUntimed (file sink ∷ sinks) u = (u.0, flush-IsUntimed sinks u.1)

-- The same surroundings with another clock.
module _ (h : Host) (t : TimeProvider) (thread : ℕ) where
  abbrev later : Host
  later = record h { time = t }

  render_piece-later :
      (r : LogRecord) (p : Piece) (w : World)
      → NotTime p
      → render_piece later thread r p w ≡ render_piece h thread r p w
  unfolding emit
  render_piece-later r (literal c) w u = refl
  render_piece-later r (field time_stamp) w u = elim u [ ]
  render_piece-later r (field category) w u = refl
  render_piece-later r (field log_level) w u = refl
  render_piece-later r (field thread_id) w u = refl
  render_piece-later r (field file_name) w u = refl
  render_piece-later r (field function_name) w u = refl
  render_piece-later r (field line_number) w u = refl
  render_piece-later r (field message) w u = refl

  render-later :
      (r : LogRecord) (ps : List Piece) (w : World)
      → All NotTime ps
      → render later thread r ps w ≡ render h thread r ps w
  render-later r [] w u = render-nil later thread r w ∙ sym (render-nil h thread r w)
  render-later r (p ∷ ps) w u =
      let (s, v) = render_piece h thread r p w in
      render-cons later thread r p ps w
      ∙ ap (λ (q : Text × World). (do rest ← render later thread r ps; pure (q.0 ++ rest)) q.1)
          (render_piece-later r p w u.0)
      ∙ ap (λ (q : Text × World). (s ++ q.0, q.1)) (render-later r ps v u.1)
      ∙ sym (render-cons h thread r p ps w)

  format-later :
      (r : LogRecord) (p : Text) (w : World)
      → All NotTime (pieces p)
      → format later thread r p w ≡ format h thread r p w
  format-later r p w u =
      format-render later thread r p w
      ∙ render-later r (pieces p) w u
      ∙ sym (format-render h thread r p w)

  print-later :
      (color : TextColor) (w : World) → TextColor.print later color w ≡ TextColor.print h color w
  unfolding TextColor.print is_color_enabled TextColor.is_color_supported
      TextColor.detect_color_support
  print-later color w = refl

  log-later :
      (r : LogRecord) (sink : LogSink) (w : World)
      → IsUntimed sink
      → LogSink.log later thread r sink w ≡ LogSink.log h thread r sink w
  unfolding LogSink.log log_console log_file get_reset_sequence TextColor.print is_color_enabled
      TextColor.is_color_supported TextColor.detect_color_support
  log-later r (console sink) w u = rw (format-later r sink.pattern w u) refl
  log-later r (file sink) w u = rw (format-later r sink.pattern w u) refl

  log-IsUntimed :
      (r : LogRecord) (sink : LogSink) (w : World)
      → IsUntimed sink
      → IsUntimed (LogSink.log h thread r sink w).0
  unfolding LogSink.log log_console log_file
  log-IsUntimed r (console sink) w u = u
  log-IsUntimed r (file sink) w u = u

  pub log_each-later :
      (r : LogRecord) (sinks : List LogSink) (w : World)
      → All IsUntimed sinks
      → log_each later thread r sinks w ≡ log_each h thread r sinks w
  unfolding log_each
  log_each-later r [] w u = refl
  log_each-later r (sink ∷ sinks) w u =
      rw (log-later r sink w u.0, log_each-later r sinks (LogSink.log h thread r sink w).1 u.1) refl

  pub log_each-IsUntimed :
      (r : LogRecord) (sinks : List LogSink) (w : World)
      → All IsUntimed sinks
      → All IsUntimed (log_each h thread r sinks w).0
  unfolding log_each
  log_each-IsUntimed r [] w u = tt
  log_each-IsUntimed r (sink ∷ sinks) w u =
      (log-IsUntimed r sink w u.0, log_each-IsUntimed r sinks (LogSink.log h thread r sink w).1 u.1)
