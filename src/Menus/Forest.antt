-- ===== src/Menus/Forest.antt =====
-- The menus of backend/src/services/b14_rbac_service.py form a forest: no menu lies below itself, so that
-- the recursion over the children ends.
use gaking.Base.{
  ℕ, zero, suc, ◌+◌, ◌<◌, Bool, true, false, [], ◌∷◌, ◌==◌, ==_iff, ◌&&◌, ◌||◌, ◌≡◌, refl, sym, ap,
  ◌∙◌, subst, ◌⊎◌, inl, inr, arith, Bool-cases,
}
use gaking.Base.Table.{Table}
use gaking.Menus.Service.{Menu, any_child, is_descendant}

true-false : ¬ (true ≡ false)
true-false h = cc

pub or_true : (a b : Bool) → b ≡ true → (a || b) ≡ true
or_true true b h = refl
or_true false b h = h

-- A row says that menu `k` has the parent `q`.
abbrev pub IsRow : ℕ → ℕ → Table Menu → Type 0
IsRow k q [] = ⊥
IsRow k q (e ∷ t) = ((e.0 ≡ k) × (e.1.parent_id ≡ q)) ⊎ IsRow k q t

-- Menu `c` lies below menu `a`.
pub data Below (t : Table Menu) (c : ℕ) : ℕ → Type 0 where
  child : {a : ℕ} → IsRow c a t → Below t c a
  deeper : {a k : ℕ} → IsRow k a t → Below t c k → Below t c a

-- Heights in the forest: a menu stands higher than its parent, and 0 is the id of none.
abbrev pub Ranked : (ℕ → ℕ) → Table Menu → Type 0
Ranked rank t = (k q : ℕ) → IsRow k q t → (0 < k) × ((q ≡ 0) ⊎ (rank q < rank k))

pub Below-rank :
    (rank : ℕ → ℕ) (t : Table Menu) (c a : ℕ)
    → Ranked rank t
    → 0 < a
    → Below t c a
    → rank a < rank c
Below-rank rank t c a r pos (child row) = elim (r c a row).1 [
  | inl root ↦ omega (arith, root, pos)
  | inr lt ↦ lt
]
Below-rank rank t c a r pos (deeper {k = k} row below) =
    let deep = Below-rank rank t c k r (r k a row).0 below in
    elim (r k a row).1 [ inl root ↦ omega (arith, root, pos) | inr lt ↦ omega (arith, lt, deep) ]

-- The last step of a way down.
pub last_step :
    (t : Table Menu) (c a : ℕ) → Below t c a → (q : ℕ) × (IsRow c q t × ((q ≡ a) ⊎ Below t q a))
last_step t c a (child row) = (a, (row, inl refl))
last_step t c a (deeper {k = k} row below) =
    let (q, (own, way)) = last_step t c k below in
    (
      q,
      (
        own,
        inr (elim way [
          | inl same ↦ subst (λ x. Below t x a) (sym same) (child row)
          | inr deep ↦ deeper row deep
        ]),
      ),
    )

pub snoc : (t : Table Menu) (c q a : ℕ) → IsRow c q t → (q ≡ a) ⊎ Below t q a → Below t c a
snoc t c q a row (inl same) = child (subst (λ x. IsRow c x t) same row)
snoc t c q a row (inr (child first)) = deeper first (child row)
snoc t c q a row (inr (deeper first below)) = deeper first (snoc t c q _ row (inr below))

any_child-found :
    (p : ℕ → Bool) (a k : ℕ) (t : Table Menu) → IsRow k a t → p k ≡ true → any_child p a t ≡ true
unfolding any_child
any_child-found p a k [] row h = absurd row
any_child-found p a k (e ∷ t) (inl (own, parent)) h =
    let hit : p e.0 ≡ true = ap p own ∙ h in ground (arith, parent, hit)
any_child-found p a k (e ∷ t) (inr row) h = ground (arith, any_child-found p a k t row h)

any_child-finds :
    (p : ℕ → Bool) (a : ℕ) (t : Table Menu)
    → any_child p a t ≡ true
    → (k : ℕ) × (IsRow k a t × (p k ≡ true))
unfolding any_child
any_child-finds p a [] h = absurd (true-false (sym h))
any_child-finds p a (e ∷ t) h = elim (Bool-cases (e.1.parent_id == a && p e.0)) [
  | inl here ↦ (e.0, (inl (refl, ground (arith, here)), ground (arith, here)))
  | inr later ↦
      let (k, (row, pk)) = any_child-finds p a t (ground (arith, later, h)) in (k, (inr row, pk))
]

-- What the recursion finds lies below.
pub is_descendant_sound :
    (n : ℕ) (t : Table Menu) (a c : ℕ) → is_descendant n t a c ≡ true → Below t c a
unfolding is_descendant
is_descendant_sound zero t a c h = absurd (true-false (sym h))
is_descendant_sound (suc n) t a c h =
    let (k, (row, pk)) = any_child-finds (λ k. (k == c) || is_descendant n t k c) a t h in
    elim (Bool-cases (k == c)) [
      | inl same ↦ child (subst (λ x. IsRow x a t) ((==_iff k c).0 same) row)
      | inr other ↦ deeper row (is_descendant_sound n t k c (rw other at pk))
    ]

-- With fuel for the heights that are left it finds all that lies below.
pub is_descendant_complete :
    (n : ℕ) (rank : ℕ → ℕ) (t : Table Menu) (a c : ℕ)
    → Ranked rank t
    → 0 < a
    → rank c < n + rank a
    → Below t c a
    → is_descendant n t a c ≡ true
unfolding is_descendant
is_descendant_complete zero rank t a c r pos fuel below =
    absurd (omega (arith, fuel, Below-rank rank t c a r pos below))
is_descendant_complete (suc n) rank t a c r pos fuel (child row) =
    any_child-found (λ k. (k == c) || is_descendant n t k c) a c t row
      (rw ((==_iff c c).1 refl) refl)
is_descendant_complete (suc n) rank t a c r pos fuel (deeper {k = k} row below) =
    any_child-found (λ k. (k == c) || is_descendant n t k c) a k t row
      (or_true (k == c) (is_descendant n t k c) (
        is_descendant_complete n rank t k c r (r k a row).0
          (elim (r k a row).1 [
            | inl root ↦ omega (arith, root, pos)
            | inr lt ↦ omega (arith, fuel, lt)
          ])
          below))
