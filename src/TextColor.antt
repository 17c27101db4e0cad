-- ===== src/TextColor.antt =====
-- core/text_color.h and text_color.cpp: the colour codes, the process-wide colour switch and the
-- escape sequences in front of and behind a line.
pub mod Switch
use vnelogging.Common.{
  ℕ, zero, suc, Bool, true, false, Option, none, some, [], ◌∷◌, ◌++◌, Text, codes, if◌then◌else◌,
}
use vnelogging.Common.Decimal.{to_string}
use vnelogging.Host.{Host, Platform, World, ios, web, ℤ, pos, negsuc, M, pure, ◌>>=◌}

pub data FgColorCode : Type 0 where
  black red green yellow blue magenta cyan light_gray default_color dark_gray : FgColorCode
  light_red light_green light_yellow light_blue light_magenta light_cyan white : FgColorCode

pub data BgColorCode : Type 0 where
  black red green yellow blue magenta cyan light_gray default_color dark_gray : BgColorCode
  light_red light_green light_yellow light_blue light_magenta light_cyan white : BgColorCode

pub data DisplayAttributes : Type 0 where
  normal bold faint italic underline blink reverse_video hidden : DisplayAttributes

-- `toUnderlying`, for each of the three types.
unfoldable pub fg_code : FgColorCode → ℕ
fg_code FgColorCode.black = 30
fg_code FgColorCode.red = 31
fg_code FgColorCode.green = 32
fg_code FgColorCode.yellow = 33
fg_code FgColorCode.blue = 34
fg_code FgColorCode.magenta = 35
fg_code FgColorCode.cyan = 36
fg_code FgColorCode.light_gray = 37
fg_code FgColorCode.default_color = 39
fg_code FgColorCode.dark_gray = 90
fg_code FgColorCode.light_red = 91
fg_code FgColorCode.light_green = 92
fg_code FgColorCode.light_yellow = 93
fg_code FgColorCode.light_blue = 94
fg_code FgColorCode.light_magenta = 95
fg_code FgColorCode.light_cyan = 96
fg_code FgColorCode.white = 97

unfoldable pub bg_code : BgColorCode → ℕ
bg_code BgColorCode.black = 40
bg_code BgColorCode.red = 41
bg_code BgColorCode.green = 42
bg_code BgColorCode.yellow = 43
bg_code BgColorCode.blue = 44
bg_code BgColorCode.magenta = 45
bg_code BgColorCode.cyan = 46
bg_code BgColorCode.light_gray = 47
bg_code BgColorCode.default_color = 49
bg_code BgColorCode.dark_gray = 100
bg_code BgColorCode.light_red = 101
bg_code BgColorCode.light_green = 102
bg_code BgColorCode.light_yellow = 103
bg_code BgColorCode.light_blue = 104
bg_code BgColorCode.light_magenta = 105
bg_code BgColorCode.light_cyan = 106
bg_code BgColorCode.white = 107

unfoldable pub attribute_code : DisplayAttributes → ℕ
attribute_code normal = 0
attribute_code bold = 1
attribute_code faint = 2
attribute_code italic = 3
attribute_code underline = 4
attribute_code blink = 5
attribute_code reverse_video = 7
attribute_code hidden = 8

pub record TextColor : Type 0 where
  pub attributes : DisplayAttributes
  pub foreground_color : FgColorCode
  pub background_color : BgColorCode

-- `TextColor()`
abbrev pub plain : TextColor
plain = record {
  attributes = normal;
  foreground_color = FgColorCode.default_color;
  background_color = BgColorCode.default_color;
}

supports_escapes : Platform → Bool
supports_escapes web = false
supports_escapes ios = false
supports_escapes _ = true

is_unset : Option Text → Bool
is_unset none = true
is_unset (some value) = false

unfoldable pub detect_color_support : Host → Bool
unfolding supports_escapes is_unset
detect_color_support h =
    if supports_escapes h.platform then is_unset (h.getenv (codes "NO_COLOR")) else false

-- 1 or 0.
abbrev pub to_int : Bool → ℤ
to_int true = pos 1
to_int false = pos 0

-- `value != 0`, for a value that is not negative.
abbrev pub is_set : ℕ → Bool
is_set zero = false
is_set (suc n) = true

unfoldable pub is_color_supported : Host → M Bool
is_color_supported h w = elim w.color_detected [
  | pos detected ↦ (is_set detected, w)
  | negsuc _ ↦
      (detect_color_support h, record w { color_detected = to_int (detect_color_support h) })
]

unfoldable pub set_color_enabled : Bool → M (Unit {0})
set_color_enabled enabled w = (tt, record w { color_mode = to_int enabled })

-- A mode that was set decides; -1 is left to the detection.
enabled_at : Host → World → ℤ → Bool × World
unfolding is_color_supported
enabled_at h w (pos mode) = (is_set mode, w)
enabled_at h w (negsuc _) = is_color_supported h w

unfoldable pub is_color_enabled : Host → M Bool
unfolding enabled_at
is_color_enabled h w = enabled_at h w w.color_mode

-- `"\033["`, a number and `"m"`.
abbrev pub escape : ℕ → Text
escape n = 27 ∷ b'[' ∷ (to_string n ++ b'm' ∷ [])

unfoldable pub get_reset_sequence : Host → M Text
unfolding is_color_enabled
get_reset_sequence h = do enabled ← is_color_enabled h; pure (if enabled then escape 0 else [])

-- `operator<<` of a colour: what it adds to the stream.
unfoldable pub print : Host → TextColor → M Text
unfolding is_color_enabled fg_code bg_code attribute_code
print h color = do
  enabled ← is_color_enabled h
  pure (
      if enabled
      then escape (attribute_code color.attributes)
        ++ (escape (fg_code color.foreground_color) ++ escape (bg_code color.background_color))
      else [])
