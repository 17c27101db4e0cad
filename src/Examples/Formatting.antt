-- ===== src/Examples/Formatting.antt =====
-- The formatter at work.
use vnelogging.Common.{◌≤◌, ℕ, ◌≡◌, refl, ◌↔◌, [], ◌∷◌, Text, codes}
use vnelogging.Common.Decimal.{to_string}
use vnelogging.Host.{initial}
use vnelogging.LogLevel
use vnelogging.TimeStamp.{two_digits, get_time_stamp}
use vnelogging.LogFormatter.{format, field_of, emit, label, get_thread_id}
use vnelogging.LogFormatter.Pieces.{pieces, render}
use vnelogging.LogFormatter.Source.{source, format-source}
use vnelogging.LogFormatter.ThreadId.Bounds.{get_thread_id-bounded}
use vnelogging.LogFormatter.ThreadId.{get_thread_id-eq_iff, after_calls}
use vnelogging.Examples.Data.{host, started}

abbrev line : Text
line = codes "2024-07-09 23:05:00 [INFO] [core] :: started : [main], [42]"

format_default : (format host 1 started (codes "%x [%l] [%n] :: %v : [%!], [%#]") initial).0 ≡ line
unfolding format field_of emit get_time_stamp LogLevel.print to_string two_digits
format_default = refl

format-source_example :
    (format host 1 started (codes "%x [%l] 100% %% %v %") initial
      ≡ render host 1 started (pieces (codes "%x [%l] 100% %% %v %")) initial)
    × (source (pieces (codes "%x [%l] 100% %% %v %")) ≡ codes "%x [%l] 100% %% %v %")
format-source_example = format-source host 1 started (codes "%x [%l] 100% %% %v %") initial

get_thread_id-eq_iff_example :
    let first = get_thread_id 7 (after_calls (3 ∷ []) initial.ids) in
    let second = get_thread_id 9 (after_calls (3 ∷ 7 ∷ []) first.1) in
    (first.0 ≡ second.0) ↔ (◌≡◌ {A = ℕ} 7 9)
get_thread_id-eq_iff_example = get_thread_id-eq_iff (3 ∷ []) (3 ∷ 7 ∷ []) 7 9

get_thread_id-bounded_example :
    (k : ℕ) × ((get_thread_id 9 (after_calls (3 ∷ 7 ∷ 3 ∷ []) initial.ids)).0 ≡ label k) × (k ≤ 4)
get_thread_id-bounded_example = get_thread_id-bounded (3 ∷ 7 ∷ 3 ∷ []) 9
