-- ===== src/AsyncLogger/Crowd/Split.antt =====
-- A list of threads with one of them picked out.
use vnelogging.Common.{
  ℕ, zero, suc, ◌≡◌, refl, ap, ◌∙◌, sym, some, List, [], ◌∷◌, ◌++◌, append_assoc, set, get_elem?,
}

module _ {ℓ} {A : Type ℓ} where
  -- What stands before and after the entry at `i`, and what a write there makes.
  pub record Around (xs : List A) (i : ℕ) (x : A) : Type ℓ where
    pub before : List A
    pub after : List A
    pub whole : xs ≡ before ++ x ∷ after
    pub written : (y : A) → set xs i y ≡ before ++ y ∷ after

  pub around : (xs : List A) (i : ℕ) (x : A) → get_elem? xs i ≡ some x → Around xs i x
  around [] i x e = cc
  around (y ∷ xs) zero x e = record { before = []; after = xs; whole = cc; written = λ z. refl }
  around (y ∷ xs) (suc i) x e =
      let v = around xs i x e in
      record {
        before = y ∷ v.before;
        after = v.after;
        whole = ap (λ zs. y ∷ zs) v.whole;
        written = λ z. ap (λ zs. y ∷ zs) (v.written z);
      }

module _ {ℓ κ} {A : Type ℓ} {B : Type κ} (f : A → List B) where
  -- All that the entries have.
  unfoldable pub all_of : List A → List B
  all_of [] = []
  all_of (x ∷ xs) = f x ++ all_of xs

  pub all_of-split :
      (before after : List A) (x : A)
      → all_of (before ++ x ∷ after) ≡ all_of before ++ (f x ++ all_of after)
  unfolding all_of
  all_of-split [] after x = refl
  all_of-split (y ∷ before) after x =
      ap (λ zs. f y ++ zs) (all_of-split before after x) ∙ sym (append_assoc (f y) _ _)

  module _ (xs : List A) (i : ℕ) (x : A) (e : get_elem? xs i ≡ some x) where
    -- The entry's part, and the same after a write.
    pub all_of-whole :
        let v = around xs i x e in all_of xs ≡ all_of v.before ++ (f x ++ all_of v.after)
    all_of-whole = let v = around xs i x e in ap all_of v.whole ∙ all_of-split v.before v.after x

    pub all_of-written :
        (y : A)
        → let v = around xs i x e in
          all_of (set xs i y) ≡ all_of v.before ++ (f y ++ all_of v.after)
    all_of-written y =
        let v = around xs i x e in ap all_of (v.written y) ∙ all_of-split v.before v.after y

    pub all_of-same : (y : A) → f y ≡ f x → all_of (set xs i y) ≡ all_of xs
    all_of-same y same =
        let v = around xs i x e in
        all_of-written y
        ∙ ap (λ zs. all_of v.before ++ (zs ++ all_of v.after)) same
        ∙ sym all_of-whole
