-- ===== src/LogFormatter/ThreadId.antt =====
-- `getThreadID`: numbers are drawn once for each thread and never shared.
pub mod Bounds
use mathlib.Core.List.{append_cancel_left, cons-ne-nil}
use vnelogging.Common.{
  ℕ, suc, ◌<◌, ◌≡◌, refl, sym, ap, ◌∙◌, ◌≢◌, ◌↔◌, List, [], ◌∷◌, arith, ◌==◌, Text, codes, is_empty,
  inl, inr, Bool-cases, ==_iff,
}
use vnelogging.Common.Decimal.{to_string, to_string_injective}
use vnelogging.Host.{ThreadIds, initial}
use vnelogging.LogFormatter.{label, update_id, get_thread_id}

label_injective : (m n : ℕ) → label m ≡ label n → m ≡ n
label_injective m n e =
    to_string_injective m n (append_cancel_left (codes "Thread-") (to_string m) (to_string n) e)

label-ne-nil : (n : ℕ) → label n ≢ []
label-ne-nil n = cons-ne-nil _ _

-- A thread has drawn no number, or one below the next.
pub data Drawn (ids : ThreadIds) (t : ℕ) : Type 0 where
  unseen : ids.cached_id t ≡ [] → Drawn ids t
  drawn : (k : ℕ) → k < ids.next_id → ids.cached_id t ≡ label k → Drawn ids t

pub record IsDistinct (ids : ThreadIds) : Type 0 where
  pub every : (t : ℕ) → Drawn ids t
  pub apart : (t u : ℕ) → ids.cached_id t ≢ [] → ids.cached_id t ≡ ids.cached_id u → t ≡ u

initial-IsDistinct : IsDistinct initial.ids
initial-IsDistinct = record { every = λ t. unseen refl; apart = λ t u seen e. absurd (seen refl) }

after_call : ℕ → ThreadIds → ThreadIds
after_call t ids = (get_thread_id t ids).1

-- A run of calls, each on a thread of its own choice.
pub after_calls : List ℕ → ThreadIds → ThreadIds
unfolding after_call
after_calls [] ids = ids
after_calls (t ∷ ts) ids = after_calls ts (after_call t ids)

-- The two branches of a call.
get_thread_id-old :
    (t : ℕ) (ids : ThreadIds) → ids.cached_id t ≢ [] → get_thread_id t ids ≡ (ids.cached_id t, ids)
unfolding get_thread_id
get_thread_id-old t ids seen = ground arith

get_thread_id-new :
    (t : ℕ) (ids : ThreadIds)
    → ids.cached_id t ≡ []
    → get_thread_id t ids ≡ (
      label ids.next_id,
      record {
        cached_id = update_id ids.cached_id t (label ids.next_id);
        next_id = suc ids.next_id;
      },
    )
unfolding get_thread_id
get_thread_id-new t ids fresh = rw (fresh, get_thread_id) refl

Drawn-new :
    (ids : ThreadIds) (t : ℕ) (n : ℕ) (u : ℕ)
    → Drawn ids u
    → Drawn
        (record {
          cached_id = update_id ids.cached_id t (label ids.next_id);
          next_id = suc ids.next_id;
        })
        u
Drawn-new ids t n u (unseen e) = elim (Bool-cases (u == t)) [
  | inl y ↦ drawn ids.next_id (omega arith) (rw y refl)
  | inr m ↦ unseen (rw m e)
]
Drawn-new ids t n u (drawn k below e) = elim (Bool-cases (u == t)) [
  | inl y ↦ drawn ids.next_id (omega arith) (rw y refl)
  | inr m ↦ drawn k (omega arith) (rw m e)
]

fresh_label : (ids : ThreadIds) (u : ℕ) → Drawn ids u → ids.cached_id u ≢ label ids.next_id
fresh_label ids u (unseen e) y = label-ne-nil ids.next_id (sym y ∙ e)
fresh_label ids u (drawn k below e) y =
    absurd (omega (arith, label_injective k ids.next_id (sym e ∙ y)))

apart-new :
    (ids : ThreadIds) (t : ℕ)
    → IsDistinct ids
    → (u v : ℕ) → update_id ids.cached_id t (label ids.next_id) u ≢ []
    → update_id ids.cached_id t (label ids.next_id) u
      ≡ update_id ids.cached_id t (label ids.next_id) v
    → u ≡ v
apart-new ids t d u v seen e =
    ground (arith, d.apart u v, fresh_label ids u (d.every u), fresh_label ids v (d.every v))

-- Every call keeps the numbers distinct.
after_call-IsDistinct : (t : ℕ) (ids : ThreadIds) → IsDistinct ids → IsDistinct (after_call t ids)
unfolding after_call
after_call-IsDistinct t ids d = elim (Bool-cases (is_empty (ids.cached_id t))) [
  | inl e ↦
      rw (get_thread_id-new t ids (ground arith), after_call)
        (record {
          every = λ u. Drawn-new ids t ids.next_id u (d.every u);
          apart = apart-new ids t d;
        })
  | inr e ↦ rw (get_thread_id-old t ids (ground arith), after_call) d
]

after_calls-IsDistinct :
    (ts : List ℕ) (ids : ThreadIds) → IsDistinct ids → IsDistinct (after_calls ts ids)
unfolding after_calls
after_calls-IsDistinct [] ids d = d
after_calls-IsDistinct (t ∷ ts) ids d =
    after_calls-IsDistinct ts (after_call t ids) (after_call-IsDistinct t ids d)

-- What a call answers is in the cache from then on.
answer-cached : (t : ℕ) (ids : ThreadIds) → (get_thread_id t ids).0 ≡ (after_call t ids).cached_id t
unfolding after_call get_thread_id
answer-cached t ids = ground arith

answer-ne-nil : (t : ℕ) (ids : ThreadIds) → (get_thread_id t ids).0 ≢ []
unfolding get_thread_id
answer-ne-nil t ids e = ground (arith, label-ne-nil ids.next_id)

after_call-keeps :
    (t u : ℕ) (ids : ThreadIds)
    → ids.cached_id u ≢ []
    → (after_call t ids).cached_id u ≡ ids.cached_id u
unfolding after_call get_thread_id
after_call-keeps t u ids seen = ground (arith, ==_iff u t)

after_calls-keeps :
    (ts : List ℕ) (u : ℕ) (ids : ThreadIds)
    → ids.cached_id u ≢ []
    → (after_calls ts ids).cached_id u ≡ ids.cached_id u
unfolding after_calls
after_calls-keeps [] u ids seen = refl
after_calls-keeps (t ∷ ts) u ids seen =
    let e = after_call-keeps t u ids seen in
    after_calls-keeps ts u (after_call t ids) (λ n. seen (sym e ∙ n)) ∙ e

-- In any run of the process: two calls of `getThreadID`, with any calls before the first and any
-- calls between the two, answer the same text exactly when the same thread makes them.
pub get_thread_id-eq_iff :
    (before between : List ℕ) (t u : ℕ)
    → let first = get_thread_id t (after_calls before initial.ids) in
      let second = get_thread_id u (after_calls between first.1) in (first.0 ≡ second.0) ↔ (t ≡ u)
unfolding after_call
get_thread_id-eq_iff before between t u = (λ e. apart e, λ e. rw (← e) same)
  where
    start : ThreadIds
    start = after_calls before initial.ids

    one : ThreadIds
    one = after_call t start

    two : ThreadIds
    two = after_calls between one

    distinct : IsDistinct (after_call u two)
    distinct = after_call-IsDistinct u two (
        after_calls-IsDistinct between one (
          after_call-IsDistinct t start
            (after_calls-IsDistinct before initial.ids initial-IsDistinct)))

    seen : one.cached_id t ≢ []
    seen n = answer-ne-nil t start (answer-cached t start ∙ n)

    kept : two.cached_id t ≡ one.cached_id t
    kept = after_calls-keeps between t one seen

    kept' : (after_call u two).cached_id t ≡ two.cached_id t
    kept' = after_call-keeps u t two (λ n. seen (sym kept ∙ n))

    apart : (get_thread_id t start).0 ≡ (get_thread_id u two).0 → t ≡ u
    apart e =
        distinct.apart t u (λ n. seen (sym kept ∙ (sym kept' ∙ n)))
          (kept' ∙ (kept ∙ (sym (answer-cached t start) ∙ (e ∙ answer-cached u two))))

    same : (get_thread_id t start).0 ≡ (get_thread_id t two).0
    same =
        answer-cached t start
        ∙ (sym kept
            ∙ sym (
                ap (λ (p : Text × ThreadIds). p.0)
                  (get_thread_id-old t two (λ n. seen (sym kept ∙ n)))))
