-- ===== src/LogFormatter/Pieces.antt =====
-- Patterns read from left to right, without indices: the reference for the formatter's loop.
use vnelogging.Common.{
  ℕ, ◌≡◌, refl, Option, none, some, List, [], ◌∷◌, ◌++◌, ◌==◌, Text, if◌then◌else◌,
}
use vnelogging.Host.{Host, World, M, pure, ◌>>=◌}
use vnelogging.LogFormatter.{LogRecord, Field, field_of, emit}

pub data Piece : Type 0 where
  literal : ℕ → Piece
  field : Field → Piece

-- Two bytes that stand for a field.
abbrev pub directive : ℕ → ℕ → Option Field
directive c d = if c == b'%' then field_of d else none

unfoldable pub pieces : Text → List Piece
pieces [] = []
pieces (c ∷ []) = literal c ∷ []
pieces (c ∷ d ∷ rest) = elim (directive c d) [
  | some f ↦ field f ∷ pieces rest
  | none ↦ literal c ∷ pieces (d ∷ rest)
]

abbrev pub render_piece : Host → ℕ → LogRecord → Piece → M Text
render_piece h thread r (literal c) = pure (c ∷ [])
render_piece h thread r (field f) = emit h thread r f

pub render : Host → ℕ → LogRecord → List Piece → M Text
render h thread r [] = pure []
render h thread r (p ∷ ps) = do
  s ← render_piece h thread r p
  rest ← render h thread r ps
  pure (s ++ rest)

pub pieces-field :
    (c d : ℕ) (rest : Text) (f : Field)
    → directive c d ≡ some f
    → pieces (c ∷ d ∷ rest) ≡ field f ∷ pieces rest
unfolding pieces
pieces-field c d rest f e = rw (e, pieces) refl

pub pieces-literal :
    (c d : ℕ) (rest : Text)
    → directive c d ≡ none
    → pieces (c ∷ d ∷ rest) ≡ literal c ∷ pieces (d ∷ rest)
unfolding pieces
pieces-literal c d rest e = rw (e, pieces) refl

pub pieces-last : (c : ℕ) → pieces (c ∷ []) ≡ literal c ∷ []
unfolding pieces
pieces-last c = refl

pub pieces-nil : pieces [] ≡ []
unfolding pieces
pieces-nil = refl

pub render-cons :
    (h : Host) (thread : ℕ) (r : LogRecord) (p : Piece) (ps : List Piece) (w : World)
    → render h thread r (p ∷ ps) w
      ≡ (do s ← render_piece h thread r p; rest ← render h thread r ps; pure (s ++ rest)) w
unfolding render
render-cons h thread r p ps w = refl

pub render-nil :
    (h : Host) (thread : ℕ) (r : LogRecord) (w : World) → render h thread r [] w ≡ ([], w)
unfolding render
render-nil h thread r w = refl
