-- ===== src/Logging/Paths/BuildDirectory.antt =====
-- logging.cpp: `isBuildDirectory` as a statement on the text of the path.
use vnelogging.Common.{
  ◌≡◌, refl, ap, sym, ◌∙◌, ◌↔◌, ◌⊎◌, inl, inr, Bool, true, false, ◌||◌, [], ◌∷◌, ◌++◌, append_assoc,
  arith, ◌==◌, ==_iff, Text, codes, Bool-cases,
}
use vnelogging.Logging.Paths.{starts, contains, is_build_directory}

-- The word stands somewhere in the text.
abbrev pub Occurs : Text → Text → Type 0
Occurs word text = (before : Text) × (after : Text) × (text ≡ before ++ (word ++ after))

starts_sound :
    (word text : Text) → starts word text ≡ true → (after : Text) × (text ≡ word ++ after)
unfolding starts
starts_sound [] text h = (text, refl)
starts_sound (c ∷ word) [] h = cc
starts_sound (c ∷ word) (d ∷ text) h = elim (Bool-cases (c == d)) [
  | inl same ↦
      let tail : starts word text ≡ true = ground (arith, h) in
      let (after, e) = starts_sound word text tail in (after, cc ((==_iff c d).0 same, e))
  | inr other ↦ ground (arith, h)
]

starts-append : (word after : Text) → starts word (word ++ after) ≡ true
unfolding starts
starts-append [] after = refl
starts-append (c ∷ word) after = rw ((==_iff c c).1 refl) (starts-append word after)

or-true : (a b : Bool) → b ≡ true → (a || b) ≡ true
or-true true b h = refl
or-true false b h = h

or-cases : (a b : Bool) → (a || b) ≡ true → (a ≡ true) ⊎ (b ≡ true)
or-cases true b h = inl refl
or-cases false b h = inr h

contains_sound : (word text : Text) → contains word text ≡ true → Occurs word text
unfolding contains
contains_sound word [] h = let (after, e) = starts_sound word [] h in ([], after, e)
contains_sound word (d ∷ text) h = elim (or-cases (starts word (d ∷ text)) _ h) [
  | inl here ↦ let (after, e) = starts_sound word (d ∷ text) here in ([], after, e)
  | inr there ↦
      let (before, after, e) = contains_sound word text there in
      (d ∷ before, after, ap (λ t. d ∷ t) e)
]

contains-here : (word text : Text) → starts word text ≡ true → contains word text ≡ true
unfolding contains
contains-here word [] h = h
contains-here word (d ∷ text) h = rw h refl

contains-append : (word before after : Text) → contains word (before ++ (word ++ after)) ≡ true
unfolding contains
contains-append word [] after = contains-here word (word ++ after) (starts-append word after)
contains-append word (d ∷ before) after =
    elim (Bool-cases (starts word (d ∷ (before ++ (word ++ after))))) [
      | inl here ↦ rw here refl
      | inr later ↦ rw later (contains-append word before after)
    ]

-- `find` answers a position exactly if the word stands in the text.
contains_iff : (word text : Text) → (contains word text ≡ true) ↔ Occurs word text
contains_iff word text =
    (contains_sound word text, λ o. ap (contains word) (o.2) ∙ contains-append word (o.0) (o.1))

-- The fourth word of the test has the first in it.
Occurs-build : (path : Text) → Occurs (codes "cmake-build") path → Occurs (codes "build") path
Occurs-build path (before, after, e) =
    (before ++ codes "cmake-", after, e ∙ sym (append_assoc before (codes "cmake-") _))

-- A path counts as a build directory exactly if "build", "out" or "bin" stands somewhere in it,
-- within a longer name too; "cmake-build" adds nothing.
pub is_build_directory_iff :
    (path : Text)
    → (is_build_directory path ≡ true)
      ↔ (Occurs (codes "build") path ⊎ (Occurs (codes "out") path ⊎ Occurs (codes "bin") path))
unfolding is_build_directory
is_build_directory_iff path = (sound, complete)
  where
    Words : Type 0
    Words = Occurs (codes "build") path ⊎ (Occurs (codes "out") path ⊎ Occurs (codes "bin") path)

    sound : is_build_directory path ≡ true → Words
    sound h = elim (or-cases (contains (codes "build") path) _ h) [
      | inl build ↦ inl (contains_sound _ path build)
      | inr rest ↦ elim (or-cases (contains (codes "out") path) _ rest) [
        | inl out ↦ inr (inl (contains_sound _ path out))
        | inr last ↦ elim (or-cases (contains (codes "bin") path) _ last) [
          | inl bin ↦ inr (inr (contains_sound _ path bin))
          | inr cmake ↦ inl (Occurs-build path (contains_sound _ path cmake))
        ]
      ]
    ]

    complete : Words → is_build_directory path ≡ true
    complete (inl build) = rw ((contains_iff _ path).1 build) refl
    complete (inr (inl out)) =
        or-true (contains (codes "build") path) _ (rw ((contains_iff _ path).1 out) refl)
    complete (inr (inr bin)) = or-true (contains (codes "build") path) _ (
        or-true (contains (codes "out") path)
          (contains (codes "bin") path || contains (codes "cmake-build") path)
          (rw ((contains_iff _ path).1 bin) refl))
