-- ===== src/LogFormatter/Source.antt =====
-- `LogFormatter::format`: the pieces of a pattern and the pattern.
use vnelogging.Host.{Host, World}
use vnelogging.LogFormatter.Equivalence.{format-render}
use vnelogging.Common.{
  ℕ, ◌≡◌, refl, some, List, [], ◌∷◌, ◌++◌, arith, ◌==◌, Text, inl, inr, Option-cases, Bool-cases,
  ==_iff,
}
use vnelogging.LogFormatter.{
  Field, time_stamp, category, log_level, thread_id, file_name, function_name, line_number, message,
  field_of, LogRecord, format,
}
use vnelogging.LogFormatter.Pieces.{
  Piece, literal, field, directive, pieces, render, pieces-field, pieces-literal, pieces-last,
  pieces-nil,
}

-- The byte behind `%` that stands for a field, from the documentation of the formatter.
pub sign : Field → ℕ
sign time_stamp = b'x'
sign category = b'n'
sign log_level = b'l'
sign thread_id = b't'
sign file_name = b'$'
sign function_name = b'!'
sign line_number = b'#'
sign message = b'v'

abbrev piece_source : Piece → Text
piece_source (literal c) = c ∷ []
piece_source (field f) = b'%' ∷ sign f ∷ []

pub source : List Piece → Text
source [] = []
source (p ∷ ps) = piece_source p ++ source ps

field_of-sign : (f : Field) → field_of (sign f) ≡ some f
unfolding field_of sign
field_of-sign time_stamp = refl
field_of-sign category = refl
field_of-sign log_level = refl
field_of-sign thread_id = refl
field_of-sign file_name = refl
field_of-sign function_name = refl
field_of-sign line_number = refl
field_of-sign message = refl

sign-field_of : (d : ℕ) (f : Field) → field_of d ≡ some f → d ≡ sign f
unfolding field_of sign
sign-field_of d f e = ground arith

directive-source : (c d : ℕ) (f : Field) → directive c d ≡ some f → (c ≡ b'%') × (d ≡ sign f)
directive-source c d f e = elim (Bool-cases (c == b'%')) [
  | inl y ↦ ((==_iff c b'%').0 y, sign-field_of d f (ground arith))
  | inr n ↦ absurd (ground arith)
]

source-pieces : (p : Text) → source (pieces p) ≡ p
unfolding source
source-pieces [] = rw pieces-nil refl
source-pieces (c ∷ []) = rw (pieces-last c) refl
source-pieces (c ∷ d ∷ s) = elim (Option-cases (directive c d)) [
  | inl n ↦ rw (pieces-literal c d s n, source-pieces (d ∷ s)) refl
  | inr (f, y) ↦
      let (e, e') = directive-source c d f y in
      rw (pieces-field c d s f y, source-pieces s) (rw (e, e') refl)
]

-- For every pattern the formatter's loop writes the pieces of the pattern, each once and in order,
-- with the same readings of the clock and the same thread numbers as writing them one by one; and
-- the pieces are all of the pattern: written as directives again they are the pattern, byte by byte.
pub format-source :
    (h : Host) (thread : ℕ) (r : LogRecord) (p : Text) (w : World)
    → (format h thread r p w ≡ render h thread r (pieces p) w) × (source (pieces p) ≡ p)
format-source h thread r p w = (format-render h thread r p w, source-pieces p)
