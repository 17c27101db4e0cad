-- ===== src/TextColor/Switch.antt =====
-- core/text_color.cpp: the colour switch after any calls, on hosts whose environment may have changed
-- from call to call.
use vnelogging.Common.{
  ◌≡◌, refl, sym, ap, subst, ◌∙◌, Bool, true, false, Option, none, some, List, [], ◌∷◌,
}
use vnelogging.Host.{Host, ℤ, negsuc, World, initial}
use vnelogging.TextColor.{
  to_int, detect_color_support, is_color_supported, set_color_enabled, enabled_at, is_color_enabled,
}

-- The calls, each with the host as it is at that time.
pub data Call : Type 0 where
  set_enabled : Bool → Call
  ask_enabled ask_supported : Host → Call

unfoldable pub perform : Call → World → World
perform (set_enabled enabled) w = (set_color_enabled enabled w).1
perform (ask_enabled h) w = (is_color_enabled h w).1
perform (ask_supported h) w = (is_color_supported h w).1

unfoldable pub perform_all : List Call → World → World
unfolding perform
perform_all [] w = w
perform_all (call ∷ rest) w = perform_all rest (perform call w)

-- What the switch promises: the last answer that a program has set, and the first detection.
pub record Promise : Type 0 where
  pub chosen : Option Bool
  pub detected : Option Bool

-- The first detection stays.
abbrev or_detect : Host → Option Bool → Bool
or_detect h none = detect_color_support h
or_detect h (some found) = found

-- A call looks at the surroundings only if nothing was set.
abbrev look : Host → Promise → Option Bool → Promise
look h p none = record p { detected = some (or_detect h p.detected) }
look h p (some set) = p

unfoldable pub promised : Call → Promise → Promise
promised (set_enabled enabled) p = record p { chosen = some enabled }
promised (ask_enabled h) p = look h p p.chosen
promised (ask_supported h) p = look h p none

unfoldable pub promised_all : List Call → Promise → Promise
unfolding promised
promised_all [] p = p
promised_all (call ∷ rest) p = promised_all rest (promised call p)

-- The answer of `isColorEnabled`.
abbrev answer : Host → Promise → Option Bool → Bool
answer h p none = or_detect h p.detected
answer h p (some enabled) = enabled

abbrev pub promised_enabled : Host → Promise → Bool
promised_enabled h p = answer h p p.chosen

abbrev pub nothing : Promise
nothing = record { chosen = none; detected = none }

-- How the two atomics stand for the promise.
abbrev code : Option Bool → ℤ
code none = negsuc 0
code (some b) = to_int b

record IsKept (w : World) (p : Promise) : Type 0 where
  mode : w.color_mode ≡ code p.chosen
  detection : w.color_detected ≡ code p.detected

supported_cases :
    (h : Host) (w : World) (o : Option Bool)
    → w.color_detected ≡ code o
    → ((is_color_supported h w).0 ≡ or_detect h o)
      × ((is_color_supported h w).1.color_detected ≡ code (some (or_detect h o)))
      × ((is_color_supported h w).1.color_mode ≡ w.color_mode)
unfolding is_color_supported
supported_cases h w none e = rw e (refl, refl, refl)
supported_cases h w (some true) e = rw e (refl, refl, refl)
supported_cases h w (some false) e = rw e (refl, refl, refl)

supported-IsKept :
    (h : Host) (w : World) (p : Promise)
    → IsKept w p
    → IsKept (is_color_supported h w).1 (record p { detected = some (or_detect h p.detected) })
supported-IsKept h w p v =
    let cases = supported_cases h w p.detected v.detection in
    record { mode = cases.2 ∙ v.mode; detection = cases.1 }

Answered : Host → Promise → Option Bool → Bool × World → Type 0
Answered h p o r = (r.0 ≡ answer h p o) × IsKept r.1 (look h p o)

-- `isColorEnabled` by what was set.
enabled_at-Answered :
    (h : Host) (w : World) (p : Promise) (o : Option Bool)
    → IsKept w p
    → Answered h p o (enabled_at h w (code o))
unfolding enabled_at Answered
enabled_at-Answered h w p none v =
    ((supported_cases h w p.detected v.detection).0, supported-IsKept h w p v)
enabled_at-Answered h w p (some true) v = (refl, v)
enabled_at-Answered h w p (some false) v = (refl, v)

is_color_enabled-Answered :
    (h : Host) (w : World) (p : Promise) → IsKept w p → Answered h p p.chosen (is_color_enabled h w)
unfolding is_color_enabled
is_color_enabled-Answered h w p v =
    subst (Answered h p p.chosen) (sym (ap (enabled_at h w) v.mode))
      (enabled_at-Answered h w p p.chosen v)

perform-IsKept :
    (call : Call) (w : World) (p : Promise) → IsKept w p → IsKept (perform call w) (promised call p)
unfolding perform promised set_color_enabled Answered
perform-IsKept (set_enabled enabled) w p v = record { mode = refl; detection = v.detection }
perform-IsKept (ask_enabled h) w p v = (is_color_enabled-Answered h w p v).1
perform-IsKept (ask_supported h) w p v = supported-IsKept h w p v

perform_all-IsKept :
    (calls : List Call) (w : World) (p : Promise)
    → IsKept w p
    → IsKept (perform_all calls w) (promised_all calls p)
unfolding perform_all promised_all
perform_all-IsKept [] w p v = v
perform_all-IsKept (call ∷ rest) w p v =
    perform_all-IsKept rest (perform call w) (promised call p) (perform-IsKept call w p v)

-- From the start of the process, after any calls, on hosts whose environment may differ from call to
-- call, `isColorEnabled` answers what was last set, and if nothing was set what the first detection
-- found, be it that of this call.
pub is_color_enabled-promised :
    (calls : List Call) (h : Host)
    → (is_color_enabled h (perform_all calls initial)).0
      ≡ promised_enabled h (promised_all calls nothing)
unfolding Answered
is_color_enabled-promised calls h =
    (is_color_enabled-Answered h (perform_all calls initial) (promised_all calls nothing)
      (perform_all-IsKept calls initial nothing (record { mode = refl; detection = refl }))).0
