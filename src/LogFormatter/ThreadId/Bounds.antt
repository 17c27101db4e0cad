-- ===== src/LogFormatter/ThreadId/Bounds.antt =====
-- `getThreadID`: how far the numbers go.
use vnelogging.Common.{
  ℕ, suc, ◌+◌, ◌≤◌, ◌≡◌, ◌∙◌, List, [], ◌∷◌, arith, is_empty, inl, inr, Bool-cases, length,
}
use vnelogging.Host.{ThreadIds, initial}
use vnelogging.LogFormatter.{label, get_thread_id}
use vnelogging.LogFormatter.ThreadId.{
  Drawn, unseen, drawn, IsDistinct, initial-IsDistinct, after_call, after_call-IsDistinct,
  after_calls, after_calls-IsDistinct, get_thread_id-old, get_thread_id-new, answer-cached,
  answer-ne-nil,
}

next_id-after_call : (t : ℕ) (ids : ThreadIds) → (after_call t ids).next_id ≤ suc ids.next_id
unfolding after_call
next_id-after_call t ids = elim (Bool-cases (is_empty (ids.cached_id t))) [
  | inl e ↦ rw (get_thread_id-new t ids (ground arith), after_call) (omega arith)
  | inr e ↦ rw (get_thread_id-old t ids (ground arith), after_call) (omega arith)
]

next_id-after_calls :
    (ts : List ℕ) (ids : ThreadIds) → (after_calls ts ids).next_id ≤ ids.next_id + length ts
unfolding after_calls
next_id-after_calls [] ids = omega arith
next_id-after_calls (t ∷ ts) ids =
    omega (arith, next_id-after_calls ts (after_call t ids), next_id-after_call t ids)

-- The answer is a number below the next one.
answer-below :
    (t : ℕ) (ids : ThreadIds)
    → IsDistinct ids
    → (k : ℕ) × ((get_thread_id t ids).0 ≡ label k) × (suc k ≤ (after_call t ids).next_id)
answer-below t ids d = at ((after_call-IsDistinct t ids d).every t)
  where
    at :
        Drawn (after_call t ids) t
        → (k : ℕ) × ((get_thread_id t ids).0 ≡ label k) × (suc k ≤ (after_call t ids).next_id)
    at (unseen e) = absurd (answer-ne-nil t ids (answer-cached t ids ∙ e))
    at (drawn k below e) = (k, answer-cached t ids ∙ e, below)

-- After any calls on any threads, `getThreadID` answers "Thread-" and a number that is at most the
-- number of calls so far, this one included: fewer than 2 ^ 31 calls do not overflow the source's
-- int.
pub get_thread_id-bounded :
    (ts : List ℕ) (t : ℕ)
    → (k : ℕ) × ((get_thread_id t (after_calls ts initial.ids)).0 ≡ label k) × (k ≤ length (t ∷ ts))
get_thread_id-bounded ts t =
    let ids = after_calls ts initial.ids in
    let (k, e, below) =
      answer-below t ids (after_calls-IsDistinct ts initial.ids initial-IsDistinct) in
    (k, e, omega (arith, below, next_id-after_call t ids, next_id-after_calls ts initial.ids))
