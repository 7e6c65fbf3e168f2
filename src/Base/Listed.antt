-- ===== src/Base/Listed.antt =====
-- The elements of a list of keys.
use gaking.Base.{ℕ, List, [], ◌∷◌, ◌++◌, ◌≡◌, ◌⊎◌, inl, inr}

abbrev pub Listed : ℕ → List ℕ → Type 0
Listed i [] = ⊥
Listed i (j ∷ js) = (j ≡ i) ⊎ Listed i js

pub ++-Listed : (i : ℕ) (is js : List ℕ) → Listed i (is ++ js) → Listed i is ⊎ Listed i js
++-Listed i [] js h = inr h
++-Listed i (k ∷ is) js (inl same) = inl (inl same)
++-Listed i (k ∷ is) js (inr later) = elim (++-Listed i is js later) [
  | inl a ↦ inl (inr a)
  | inr b ↦ inr b
]
