-- ===== src/LogQueue.antt =====
-- core/log_queue.h and log_queue.cpp: the queue of tasks, front first. Each method runs under the
-- mutex. `none` is a call that waits on the condition variable.
use vnelogging.Common.{
  ℕ, zero, suc, ◌+◌, ◌≤◌, ◌≡◌, refl, ◌≢◌, Bool, true, false, Option, none, some, List, [], ◌∷◌,
  ◌++◌, append-nil, append_assoc, arith, ltb, length, take, drop, is_empty, if◌then◌else◌,
  take-append-drop, length-append, length-take, Bool-cases, inl, inr,
}

pub record LogQueue {ℓ} (A : Type ℓ) : Type ℓ where
  pub items : List A

abbrev pub default_drain_batch_size : ℕ
default_drain_batch_size = 32

module _ {ℓ} {A : Type ℓ} where
  unfoldable pub push : A → LogQueue A → LogQueue A
  push task q = record { items = q.items ++ task ∷ [] }

  pop_front : List A → Option (A × LogQueue A)
  pop_front [] = none
  pop_front (task ∷ rest) = some (task, record { items = rest })

  unfoldable pub pop : LogQueue A → Option (A × LogQueue A)
  unfolding pop_front
  pop q = pop_front q.items

  unfoldable pub empty : LogQueue A → Bool
  empty q = is_empty q.items

  -- `while (!queue_.empty() && batch.size() < max_items)`: the batch, and what stays.
  drain_loop : ℕ → List A → List A → List A × List A
  drain_loop max_items [] batch = (batch, [])
  drain_loop max_items (task ∷ rest) batch =
      let next = drain_loop max_items rest (batch ++ task ∷ []) in
      if ltb (length batch) max_items then next else (batch, task ∷ rest)

  drain_front : ℕ → List A → Option (List A × LogQueue A)
  unfolding drain_loop
  drain_front max_items [] = none
  drain_front max_items (task ∷ rest) =
      let (batch, left) = drain_loop max_items (task ∷ rest) [] in
      some (batch, record { items = left })

  unfoldable pub drain : ℕ → LogQueue A → Option (List A × LogQueue A)
  unfolding drain_front
  drain max_items q = drain_front max_items q.items

  -- With room for `room` more tasks the loop takes as many from the front.
  drain_loop_lem :
      (max_items room : ℕ) (items batch : List A)
      → length batch + room ≡ max_items
      → drain_loop max_items items batch ≡ (batch ++ take room items, drop room items)
  unfolding drain_loop
  drain_loop_lem max_items zero [] batch h = rw append-nil refl
  drain_loop_lem max_items (suc room) [] batch h = rw append-nil refl
  drain_loop_lem max_items zero (task ∷ rest) batch h =
      let full : ltb (length batch) max_items ≡ false = ground arith in rw (full, append-nil) refl
  drain_loop_lem max_items (suc room) (task ∷ rest) batch h =
      let space : ltb (length batch) max_items ≡ true = ground arith in
      rw
        (
          space,
          drain_loop_lem max_items room rest (batch ++ task ∷ [])
              (omega (arith, length-append batch (task ∷ []))),
        )
        (rw append_assoc refl)

  -- `drain` waits on an empty queue. Otherwise it takes the oldest `max_items` tasks, or all of them
  -- if there are fewer, in their order, and leaves the others in theirs.
  pub drain-take :
      (max_items : ℕ) (q : LogQueue A)
      → drain max_items q ≡ (
          if is_empty q.items
          then none
          else some (take max_items q.items, record { items = drop max_items q.items }))
  unfolding drain
  drain-take max_items q = front q.items
    where
      front :
          (items : List A)
          → drain_front max_items items ≡ (
              if is_empty items
              then none
              else some (take max_items items, record { items = drop max_items items }))
      front [] = refl
      front (task ∷ rest) =
          rw (drain_loop_lem max_items max_items (task ∷ rest) [] (omega arith)) refl

  -- What `drain` returns and what it leaves are the queue, and it returns `max_items` tasks at most.
  pub drain-parts :
      (max_items : ℕ) (q left : LogQueue A) (batch : List A)
      → drain max_items q ≡ some (batch, left)
      → (q.items ≡ batch ++ left.items) × (length batch ≤ max_items) × (q.items ≢ [])
  drain-parts max_items q left batch e = elim (Bool-cases (is_empty q.items)) [
    | inl none_there ↦ ground (arith, drain-take max_items q)
    | inr some_there ↦ ground (
      arith,
      drain-take max_items q,
      take-append-drop max_items q.items,
      length-take max_items q.items,
    )
  ]

  pub items-push : (task : A) (q : LogQueue A) → (push task q).items ≡ q.items ++ task ∷ []
  unfolding push
  items-push task q = refl

  -- `pop` splits off the oldest task.
  pub pop-parts :
      (q left : LogQueue A) (task : A) → pop q ≡ some (task, left) → q.items ≡ task ∷ left.items
  unfolding pop
  pop-parts q left task e = ground arith

  pub pop-nil : (q : LogQueue A) → q.items ≡ [] → pop q ≡ none
  unfolding pop
  pop-nil q e = rw (e, pop) refl
