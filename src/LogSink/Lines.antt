-- ===== src/LogSink/Lines.antt =====
-- console_log_sink.cpp and text_color.cpp: the bytes of a line on the console.
use vnelogging.Common.{
  ℕ, ◌≡◌, refl, ap, ◌∙◌, Bool, true, false, inl, inr, List, [], ◌∷◌, ◌++◌, Bool-cases, Text,
  if◌then◌else◌,
}
use vnelogging.Host.{Host, World, ℤ, pos, negsuc}
use vnelogging.TextColor
use vnelogging.TextColor.{
  TextColor, escape, fg_code, bg_code, attribute_code, is_color_enabled, is_color_supported,
  get_reset_sequence, detect_color_support,
}
use vnelogging.LogFormatter.{
  LogRecord, emit, Field, time_stamp, category, log_level, thread_id, file_name, function_name,
  line_number, message,
}
use vnelogging.LogFormatter.Pieces.{
  Piece, literal, field, pieces, render, render_piece, render-cons, render-nil,
}
use vnelogging.LogFormatter.Equivalence.{format-render}
use vnelogging.LogSink.{ConsoleLogSink, log_console, line_color}

-- What the formatter leaves alone.
abbrev console_part : World → ℤ × ℤ × Text × Text
console_part w = (w.color_mode, w.color_detected, w.stdout, w.stderr)

module _ (h : Host) (thread : ℕ) (r : LogRecord) where
  emit-console_part :
      (f : Field) (w : World) → console_part (emit h thread r f w).1 ≡ console_part w
  unfolding emit
  emit-console_part time_stamp w = refl
  emit-console_part category w = refl
  emit-console_part log_level w = refl
  emit-console_part thread_id w = refl
  emit-console_part file_name w = refl
  emit-console_part function_name w = refl
  emit-console_part line_number w = refl
  emit-console_part message w = refl

  piece-console_part :
      (p : Piece) (w : World) → console_part (render_piece h thread r p w).1 ≡ console_part w
  piece-console_part (literal c) w = refl
  piece-console_part (field f) w = emit-console_part f w

  render-console_part :
      (ps : List Piece) (w : World) → console_part (render h thread r ps w).1 ≡ console_part w
  render-console_part [] w = rw (render-nil h thread r w) refl
  render-console_part (p ∷ ps) w =
      rw (render-cons h thread r p ps w)
        (render-console_part ps (render_piece h thread r p w).1 ∙ piece-console_part p w)

-- A line without colour, and one in a colour, which it takes back at the end.
pub line_bytes : TextColor → Bool → Text → Text
line_bytes color false text = text ++ b'\n' ∷ []
line_bytes color true text =
    (escape (attribute_code color.attributes)
      ++ (escape (fg_code color.foreground_color) ++ escape (bg_code color.background_color)))
    ++ (text ++ (escape 0 ++ b'\n' ∷ []))

framed :
    (color : TextColor) (enabled : Bool) (text : Text)
    → (if enabled
          then escape (attribute_code color.attributes)
            ++ (escape (fg_code color.foreground_color) ++ escape (bg_code color.background_color))
          else [])
        ++ (text ++ ((if enabled then escape 0 else []) ++ b'\n' ∷ []))
      ≡ line_bytes color enabled text
unfolding line_bytes
framed color true text = refl
framed color false text = refl

module _ (h : Host) where
  abbrev with_colors : World → ℤ → ℤ → World
  with_colors w mode detected = record w { color_mode = mode; color_detected = detected }

  -- The answer depends on the two switches alone.
  enabled-same :
      (w v : World) (mode detected : ℤ)
      → (is_color_enabled h (with_colors w mode detected)).0
        ≡ (is_color_enabled h (with_colors v mode detected)).0
  unfolding is_color_enabled is_color_supported
  enabled-same w v (pos m) detected = refl
  enabled-same w v (negsuc m) (pos d) = refl
  enabled-same w v (negsuc m) (negsuc d) = refl

  -- It is the same when asked again, and asking writes nothing.
  enabled-again :
      (w : World) (mode detected : ℤ)
      → let (enabled, v) = is_color_enabled h (with_colors w mode detected) in
        ((is_color_enabled h v).0 ≡ enabled)
        × (v.stdout ≡ w.stdout)
        × ((is_color_enabled h v).1.stdout ≡ w.stdout)
  unfolding is_color_enabled is_color_supported
  enabled-again w (pos m) detected = (refl, refl, refl)
  enabled-again w (negsuc m) (pos d) = (refl, refl, refl)
  enabled-again w (negsuc m) (negsuc d) = elim (Bool-cases (detect_color_support h)) [
    | inl y ↦ (rw y refl, refl, rw y refl)
    | inr n ↦ (rw n refl, refl, rw n refl)
  ]

  module _ (thread : ℕ) (r : LogRecord) (sink : ConsoleLogSink) (w : World) where
    abbrev formatted : World
    formatted = (render h thread r (pieces sink.pattern) w).1

    calm : console_part formatted ≡ console_part w
    calm = render-console_part h thread r (pieces sink.pattern) w

    enabled-calm : (is_color_enabled h formatted).0 ≡ (is_color_enabled h w).0
    enabled-calm =
        ap (λ (p : ℤ × ℤ × Text × Text). (is_color_enabled h (with_colors formatted p.0 p.1)).0)
          calm
        ∙ enabled-same formatted w w.color_mode w.color_detected

    again :
        (is_color_enabled h (is_color_enabled h formatted).1).0 ≡ (is_color_enabled h formatted).0
    again = (enabled-again formatted formatted.color_mode formatted.color_detected).0

    unmoved : (is_color_enabled h (is_color_enabled h formatted).1).1.stdout ≡ w.stdout
    unmoved =
        (enabled-again formatted formatted.color_mode formatted.color_detected).2
        ∙ ap (λ (p : ℤ × ℤ × Text × Text). p.2) calm

-- What a console sink adds to the standard output is exactly the pieces of its pattern and a
-- newline, with the colour of the record's level in front and the reset sequence behind the pieces
-- if colours are enabled, and with neither if not: the two are never written one without the other.
pub log_console-line :
    (h : Host) (thread : ℕ) (r : LogRecord) (sink : ConsoleLogSink) (w : World)
    → (log_console h thread r sink w).1.stdout
      ≡ w.stdout
        ++ line_bytes
            (line_color r.level)
            (is_color_enabled h w).0
            (render h thread r (pieces sink.pattern) w).0
unfolding log_console TextColor.print get_reset_sequence line_bytes
log_console-line h thread r sink w =
    rw
      (
        format-render h thread r sink.pattern w,
        again h thread r sink w,
        unmoved h thread r sink w,
        enabled-calm h thread r sink w,
      )
      (ap (◌++◌ w.stdout) (
        framed (line_color r.level) (is_color_enabled h w).0
          (render h thread r (pieces sink.pattern) w).0))
