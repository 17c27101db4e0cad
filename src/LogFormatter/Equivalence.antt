-- ===== src/LogFormatter/Equivalence.antt =====
-- The loop over indices writes what the pieces of the pattern write, in order.
use vnelogging.Common.{
  ℕ, zero, suc, ◌≤◌, ◌<◌, ◌≡◌, refl, ◌∙◌, none, some, true, false, [], ◌∷◌, ◌++◌, append-nil,
  append_assoc, arith, ltb, Text, length, drop, inl, inr, Option-cases,
}
use vnelogging.Host.{Host, World, M, pure, ◌>>=◌}
use vnelogging.LogFormatter.{
  LogRecord, Field, emit, char_at, take_field, round, format_loop, format,
}
use vnelogging.LogFormatter.Pieces.{
  literal, field, directive, pieces, render, pieces-field, pieces-literal, pieces-last, pieces-nil,
  render-cons, render-nil,
}

drop-nil : (p : Text) (i : ℕ) → drop i p ≡ [] → length p ≤ i
drop-nil [] i e = omega arith
drop-nil (c ∷ p) zero e = cc
drop-nil (c ∷ p) (suc i) e = omega (arith, drop-nil p i e)

drop-cons :
    (p : Text) (i c : ℕ) (s : Text)
    → drop i p ≡ c ∷ s
    → (char_at p i ≡ c) × (i < length p) × (drop (suc i) p ≡ s)
drop-cons [] zero c s e = cc
drop-cons [] (suc i) c s e = cc
drop-cons (a ∷ p) zero c s e = (cc, omega arith, cc)
drop-cons (a ∷ p) (suc i) c s e =
    let (at, inside, rest) = drop-cons p i c s e in (at, omega arith, rest)

module _ (h : Host) (thread : ℕ) (r : LogRecord) (p : Text) where
  round-last :
      (i c : ℕ) (w : World) → drop i p ≡ c ∷ [] → round h thread r p i w ≡ ((c ∷ [], suc i), w)
  unfolding round
  round-last i c w e =
      let (at, inside, rest) = drop-cons p i c [] e in ground (arith, drop-nil p (suc i) rest)

  round-literal :
      (i c d : ℕ) (s : Text) (w : World)
      → drop i p ≡ c ∷ d ∷ s
      → directive c d ≡ none
      → round h thread r p i w ≡ ((c ∷ [], suc i), w)
  unfolding round take_field
  round-literal i c d s w e n =
      let (at, inside, rest) = drop-cons p i c (d ∷ s) e in
      let (at', inside', rest') = drop-cons p (suc i) d s rest in ground arith

  round-field :
      (i c d : ℕ) (s : Text) (f : Field) (w : World)
      → drop i p ≡ c ∷ d ∷ s
      → directive c d ≡ some f
      → round h thread r p i w ≡ (do t ← emit h thread r f; pure (t, suc (suc i))) w
  unfolding round take_field
  round-field i c d s f w e n =
      let (at, inside, rest) = drop-cons p i c (d ∷ s) e in
      let (at', inside', rest') = drop-cons p (suc i) d s rest in ground arith

  loop-step :
      (rounds i : ℕ) (out : Text) (w : World)
      → i < length p
      → format_loop h thread r p (suc rounds) i out w ≡ (
          let ((s, next), w') = round h thread r p i w in
          format_loop h thread r p rounds next (out ++ s) w')
  unfolding format_loop
  loop-step rounds i out w inside =
      let test : ltb i (length p) ≡ true = ground arith in rw (test, format_loop) refl

  loop-end :
      (rounds i : ℕ) (out : Text) (w : World)
      → length p ≤ i
      → format_loop h thread r p rounds i out w ≡ (out, w)
  unfolding format_loop
  loop-end zero i out w past = refl
  loop-end (suc rounds) i out w past =
      let test : ltb i (length p) ≡ false = ground arith in rw (test, format_loop) refl

  abbrev written : Text → Text → M Text
  written out s = do t ← render h thread r (pieces s); pure (out ++ t)

  -- One round with the rest of the loop behind it, for a round that writes one byte.
  loop-literal :
      (rounds i c : ℕ) (s out : Text) (w : World)
      → i < length p
      → round h thread r p i w ≡ ((c ∷ [], suc i), w)
      → pieces (c ∷ s) ≡ literal c ∷ pieces s
      → format_loop h thread r p rounds (suc i) (out ++ c ∷ []) w ≡ written (out ++ c ∷ []) s w
      → format_loop h thread r p (suc rounds) i out w ≡ written out (c ∷ s) w
  loop-literal rounds i c s out w inside once parsed rest =
      loop-step rounds i out w inside
      ∙ rw (once, rest, parsed, render-cons h thread r (literal c) (pieces s) w)
          (rw append_assoc refl)

  loop-field :
      (rounds i c d : ℕ) (s out : Text) (f : Field) (w : World)
      → i < length p
      → round h thread r p i w ≡ (do t ← emit h thread r f; pure (t, suc (suc i))) w
      → pieces (c ∷ d ∷ s) ≡ field f ∷ pieces s
      → ((out' : Text) (w' : World)
          → format_loop h thread r p rounds (suc (suc i)) out' w' ≡ written out' s w')
      → format_loop h thread r p (suc rounds) i out w ≡ written out (c ∷ d ∷ s) w
  loop-field rounds i c d s out f w inside once parsed rest =
      loop-step rounds i out w inside
      ∙ rw (once, rest, parsed, render-cons h thread r (field f) (pieces s) w)
          (rw append_assoc refl)

  loop-written :
      (rounds i : ℕ) (s out : Text) (w : World)
      → drop i p ≡ s
      → length s ≤ rounds
      → format_loop h thread r p rounds i out w ≡ written out s w
  loop-written rounds i [] out w e enough =
      loop-end rounds i out w (drop-nil p i e)
      ∙ rw (pieces-nil, render-nil h thread r w, append-nil) refl
  loop-written zero i (c ∷ s) out w e enough = absurd (omega arith)
  loop-written (suc rounds) i (c ∷ []) out w e enough =
      let (at, inside, rest) = drop-cons p i c [] e in
      loop-literal rounds i c [] out w inside (round-last i c w e)
        (pieces-last c ∙ rw pieces-nil refl)
        (loop-written rounds (suc i) [] (out ++ c ∷ []) w rest (omega arith))
  loop-written (suc rounds) i (c ∷ d ∷ s) out w e enough =
      let (at, inside, rest) = drop-cons p i c (d ∷ s) e in
      let (at', inside', rest') = drop-cons p (suc i) d s rest in
      elim (Option-cases (directive c d)) [
        | inl n ↦
            loop-literal rounds i c (d ∷ s) out w inside (round-literal i c d s w e n)
              (pieces-literal c d s n)
              (loop-written rounds (suc i) (d ∷ s) (out ++ c ∷ []) w rest (omega arith))
        | inr (f, y) ↦
            loop-field rounds i c d s out f w inside (round-field i c d s f w e y)
              (pieces-field c d s f y)
              (λ out' w'. loop-written rounds (suc (suc i)) s out' w' rest' (omega arith))
      ]

-- The formatter's loop writes the pieces of the pattern in order and has a round for each byte that
-- it needs: for every pattern it returns the rendering of `pieces pattern`, with the same effect on
-- the clock's readings and the thread numbers.
pub format-render :
    (h : Host) (thread : ℕ) (r : LogRecord) (p : Text) (w : World)
    → format h thread r p w ≡ render h thread r (pieces p) w
unfolding format
format-render h thread r p w = loop-written h thread r p (length p) 0 p [] w refl (omega arith)
