-- ===== src/LogQueueWorker/Messages.antt =====
-- The messages among the tasks of the worker.
use mathlib.Core.List.{Perm}
use mathlib.Core.List.Perm
use mathlib.Core.List
use vnelogging.Common.{
  ◌≡◌, refl, ap, ◌∙◌, inl, inr, Option, none, some, List, [], ◌∷◌, ◌++◌, append-nil,
}
use vnelogging.LogQueueWorker
use vnelogging.LogQueueWorker.{Task, message, dummy, State, stopper}
use vnelogging.LogQueueWorker.Effects.{submitted-stopper}

module _ {ℓ} {A : Type ℓ} where
  unfoldable pub messages : List (Task A) → List A
  messages [] = []
  messages (dummy ∷ tasks) = messages tasks
  messages (message a ∷ tasks) = a ∷ messages tasks

  pub messages-append : (xs ys : List (Task A)) → messages (xs ++ ys) ≡ messages xs ++ messages ys
  unfolding messages
  messages-append [] ys = refl
  messages-append (dummy ∷ xs) ys = messages-append xs ys
  messages-append (message a ∷ xs) ys = ap (λ rest. a ∷ rest) (messages-append xs ys)

  message_of : Task A → Option A
  message_of dummy = none
  message_of (message a) = some a

  messages-filter_map : (tasks : List (Task A)) → messages tasks ≡ List.filter_map message_of tasks
  unfolding messages message_of List.filter_map
  messages-filter_map [] = refl
  messages-filter_map (dummy ∷ tasks) = messages-filter_map tasks
  messages-filter_map (message a ∷ tasks) = ap (λ rest. a ∷ rest) (messages-filter_map tasks)

  pub messages-perm : {xs ys : List (Task A)} → Perm xs ys → Perm (messages xs) (messages ys)
  messages-perm {xs} {ys} p =
      rw (messages-filter_map xs, messages-filter_map ys) (Perm.filter_map message_of p)

  -- `stop` pushes no message.
  pub messages-stopper :
      (q : State A) → messages (LogQueueWorker.turn q stopper).submitted ≡ messages q.submitted
  unfolding messages
  messages-stopper q = elim (submitted-stopper q) [
    | inl same ↦ ap messages same
    | inr more ↦
        ap messages more
        ∙ messages-append q.submitted (dummy ∷ [])
        ∙ append-nil (messages q.submitted)
  ]
