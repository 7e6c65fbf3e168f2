-- ===== src/Menus/Acyclic.antt =====
-- The calls of backend/src/services/b14_rbac_service.py keep the menus a forest.
use gaking.Base.{
  ℕ, suc, ◌+◌, ◌<◌, Bool, true, false, none, some, [], ◌∷◌, ◌==◌, ==_iff, ◌||◌, if◌then◌else◌, ◌≡◌,
  ◌≢◌, refl, sym, ap, ◌⊎◌, inl, inr, arith, Bool-cases, ◌↔◌,
}
use gaking.Base.Table.{Table, find, put, remove}
use gaking.Menus.Service.{Menu, Menus, is_descendant}
use gaking.Menus.Forest.{
  IsRow, Below, Ranked, Below-rank, snoc, is_descendant_sound, is_descendant_complete, or_true,
}

true-false : ¬ (true ≡ false)
true-false h = cc

pub none-some : {A : Type 0} {a : A} → ¬ (none ≡ some a)
none-some h = cc

pub some_eq : {A : Type 0} {a b : A} → some a ≡ some b → a ≡ b
some_eq h = cc

-- A row of a changed table is the new one or an old one.
pub put-IsRow :
    (m : ℕ) (v : Menu) (t : Table Menu) (k q : ℕ)
    → IsRow k q (put m v t)
    → ((k ≡ m) × (q ≡ v.parent_id)) ⊎ IsRow k q t
unfolding put
put-IsRow m v [] k q (inl (own, parent)) = inl (sym own, sym parent)
put-IsRow m v [] k q (inr nothing) = absurd nothing
put-IsRow m v (e ∷ t) k q row = elim (Bool-cases (e.0 == m)) [
  | inl same ↦ elim (rw same at row) [
    | inl (own, parent) ↦ inl (sym own, sym parent)
    | inr old ↦ inr (inr old)
  ]
  | inr other ↦ elim (rw other at row) [
    | inl here ↦ inr (inl here)
    | inr later ↦ elim (put-IsRow m v t k q later) [ inl new ↦ inl new | inr old ↦ inr (inr old) ]
  ]
]

pub remove-IsRow : (m : ℕ) (t : Table Menu) (k q : ℕ) → IsRow k q (remove m t) → IsRow k q t
unfolding remove
remove-IsRow m [] k q row = absurd row
remove-IsRow m (e ∷ t) k q row = elim (Bool-cases (e.0 == m)) [
  | inl same ↦ inr (remove-IsRow m t k q (rw same at row))
  | inr other ↦ elim (rw other at row) [
    | inl here ↦ inl here
    | inr later ↦ inr (remove-IsRow m t k q later)
  ]
]

pub find-IsRow : (m : ℕ) (v : Menu) (t : Table Menu) → find m t ≡ some v → IsRow m v.parent_id t
unfolding find
find-IsRow m v [] h = absurd (none-some h)
find-IsRow m v (e ∷ t) h = elim (Bool-cases (e.0 == m)) [
  | inl same ↦ inl ((==_iff e.0 m).0 same, ap (λ x. x.parent_id) (some_eq (rw same at h)))
  | inr other ↦ inr (find-IsRow m v t (rw other at h))
]

-- Below a menu: the menu itself, or what the recursion finds.
module _ (n : ℕ) (t : Table Menu) (rank : ℕ → ℕ) (r : Ranked rank t) (bound : (k : ℕ) → rank k < n)
    (m p : ℕ) (pos : 0 < m) where
  moves : ℕ → Bool
  moves k = (k == m) || is_descendant n t m k

  -- The menus that move with `m` rise over its new parent `p`.
  lifted : ℕ → ℕ
  unfolding moves
  lifted k = if moves k then rank k + suc (rank p) else rank k

  moves-Below : (k : ℕ) → moves k ≡ true → (k ≡ m) ⊎ Below t k m
  unfolding moves
  moves-Below k h = elim (Bool-cases (k == m)) [
    | inl same ↦ inl ((==_iff k m).0 same)
    | inr other ↦ inr (is_descendant_sound n t m k (rw other at h))
  ]

  Below-moves : (k : ℕ) → (k ≡ m) ⊎ Below t k m → moves k ≡ true
  unfolding moves
  Below-moves k (inl same) = rw ((==_iff k m).1 same) refl
  Below-moves k (inr below) =
      or_true (k == m) (is_descendant n t m k)
        (is_descendant_complete n rank t m k r pos (omega (arith, bound k)) below)

  -- What hangs on a menu that moves, moves too.
  moves-down : (k q : ℕ) → IsRow k q t → moves q ≡ true → moves k ≡ true
  moves-down k q row h = Below-moves k (inr (snoc t k q m row (moves-Below q h)))

  lifted-row : (k q : ℕ) → IsRow k q t → (0 < k) × ((q ≡ 0) ⊎ (lifted q < lifted k))
  unfolding lifted
  lifted-row k q row = (
    (r k q row).0,
    elim (r k q row).1 [
      | inl root ↦ inl root
      | inr lt ↦ inr (elim (Bool-cases (moves q)) [
        | inl up ↦ rw (up, moves-down k q row up) (omega (arith, lt))
        | inr stays ↦ elim (Bool-cases (moves k)) [
          | inl up ↦ rw (stays, up) (omega (arith, lt))
          | inr too ↦ rw (stays, too) lt
        ]
      ])
    ],
  )

  lifted-parent : p ≢ m → is_descendant n t m p ≡ false → lifted p < lifted m
  unfolding lifted moves
  lifted-parent ne apart = elim (Bool-cases (p == m)) [
    | inl same ↦ absurd (ne ((==_iff p m).0 same))
    | inr other ↦ rw (other, apart, (==_iff m m).1 refl) (omega arith)
  ]

  lifted-bound : (k : ℕ) → lifted k < n + n
  unfolding lifted
  lifted-bound k = elim (Bool-cases (moves k)) [
    | inl up ↦ rw up (omega (arith, bound k, bound p))
    | inr stays ↦ rw stays (omega (arith, bound k))
  ]

-- Heights below `n`, and ids that the next one exceeds.
abbrev pub IsForest : ℕ → Menus → Type 0
IsForest n ms =
    ((rank : ℕ → ℕ) × (Ranked rank ms.rows × ((k : ℕ) → rank k < n)))
    × ((k q : ℕ) → IsRow k q ms.rows → (k < ms.next_id) × (q < ms.next_id))
    × (0 < ms.next_id)

-- With fuel for the heights the recursion is not cut short: it answers whether a menu lies below another.
pub is_descendant_iff :
    (n : ℕ) (ms : Menus) (a c : ℕ)
    → IsForest n ms
    → 0 < a
    → (is_descendant n ms.rows a c ≡ true) ↔ Below ms.rows c a
is_descendant_iff n ms a c ((rank, (r, bound)), ids, pos) above = (
  is_descendant_sound n ms.rows a c,
  is_descendant_complete n rank ms.rows a c r above (omega (arith, bound c)),
)

-- No menu of a forest lies below itself.
pub IsForest-irreflexive :
    (n : ℕ) (ms : Menus) (a : ℕ) → IsForest n ms → 0 < a → ¬ Below ms.rows a a
IsForest-irreflexive n ms a ((rank, (r, bound)), ids, pos) above below =
    omega (arith, Below-rank rank ms.rows a a r above below)

unfoldable pub with_row : ℕ → Menu → Menus → Menus
with_row i v ms = record ms { rows = put i v ms.rows }

-- Heights for a changed row and for the others serve the changed table.
changed-IsForest :
    (n b : ℕ) (ms : Menus) (i : ℕ) (old v : Menu) (rank : ℕ → ℕ)
    → find i ms.rows ≡ some old
    → ((k : ℕ) → rank k < b)
    → Ranked rank ms.rows
    → (v.parent_id ≡ 0) ⊎ (rank v.parent_id < rank i)
    → v.parent_id < ms.next_id
    → IsForest n ms
    → IsForest b (with_row i v ms)
unfolding with_row
changed-IsForest n b ms i old v rank found bound r up below (heights, ids, pos) =
    let own = find-IsRow i old ms.rows found in
    let is_row : (k q : ℕ) → IsRow k q (put i v ms.rows) → (0 < k) × ((q ≡ 0) ⊎ (rank q < rank k)) =
      (λ k q row. elim (put-IsRow i v ms.rows k q row) [
        | inl (same_k, same_q) ↦ rw (same_k, same_q) ((r i old.parent_id own).0, up)
        | inr old_row ↦ r k q old_row
      ]) in
    let is_id : (k q : ℕ) → IsRow k q (put i v ms.rows) → (k < ms.next_id) × (q < ms.next_id) =
      (λ k q row. elim (put-IsRow i v ms.rows k q row) [
        | inl (same_k, same_q) ↦ rw (same_k, same_q) ((ids i old.parent_id own).0, below)
        | inr old_row ↦ ids k q old_row
      ]) in
    ((rank, (is_row, bound)), is_id, pos)

-- A menu that keeps its parent, or that becomes a root.
pub kept-IsForest :
    (n : ℕ) (ms : Menus) (i : ℕ) (old v : Menu)
    → find i ms.rows ≡ some old
    → (v.parent_id ≡ 0) ⊎ (v.parent_id ≡ old.parent_id)
    → IsForest n ms
    → IsForest (n + n) (with_row i v ms)
kept-IsForest n ms i old v found keeps ((rank, (r, bound)), ids, pos) =
    let own = find-IsRow i old ms.rows found in
    changed-IsForest n (n + n) ms i old v rank found (λ k. omega (arith, bound k)) r
      (elim keeps [ inl root ↦ inl root | inr same ↦ rw same (r i old.parent_id own).1 ])
      (elim keeps [
        | inl root ↦ omega (arith, root, pos)
        | inr same ↦ omega (arith, same, (ids i old.parent_id own).1)
      ])
      ((rank, (r, bound)), ids, pos)

-- A menu that moves under one that is neither itself nor below it.
pub moved-IsForest :
    (n : ℕ) (ms : Menus) (i : ℕ) (old v w : Menu)
    → find i ms.rows ≡ some old
    → find v.parent_id ms.rows ≡ some w
    → v.parent_id ≢ i
    → is_descendant n ms.rows i v.parent_id ≡ false
    → IsForest n ms
    → IsForest (n + n) (with_row i v ms)
moved-IsForest n ms i old v w found parent ne apart ((rank, (r, bound)), ids, pos) =
    let own = find-IsRow i old ms.rows found in
    let above = (r i old.parent_id own).0 in
    changed-IsForest n (n + n) ms i old v (lifted n ms.rows rank r bound i v.parent_id above) found
      (lifted-bound n ms.rows rank r bound i v.parent_id above)
      (lifted-row n ms.rows rank r bound i v.parent_id above)
      (inr (lifted-parent n ms.rows rank r bound i v.parent_id above ne apart))
      (ids v.parent_id w.parent_id (find-IsRow v.parent_id w ms.rows parent)).0
      ((rank, (r, bound)), ids, pos)
