-- ===== src/Menus/Keeps.antt =====
-- The calls of backend/src/services/b14_rbac_service.py that change menus leave a forest.
use gaking.Base.{
  ℕ, suc, ◌+◌, ◌≤◌, ◌<◌, Bool, true, false, Option, none, some, ◌==◌, ==_iff, if◌then◌else◌, ◌≡◌,
  ◌≢◌, refl, ◌⊎◌, inl, inr, arith, Bool-cases, Option-cases,
}
use gaking.Base.Table.{Table, find, put, remove}
use gaking.Menus.Service.{
  Menu, Menus, Answer, returned, raised, is_descendant, create_menu, update_menu, update_found,
  save_update, check_parent, delete_menu, MenuUpdateRequest, updated_menu, given, saved,
  lacks_parent, is_some, is_idle, has_children, has_code,
}
use gaking.Menus.Forest.{IsRow}
use gaking.Menus.Acyclic.{
  IsForest, kept-IsForest, moved-IsForest, put-IsRow, remove-IsRow, find-IsRow, some_eq, none-some,
}

-- The menus that a call leaves, if it returns, form a forest.
abbrev pub LeavesForest : {A : Type 0} → ℕ → Answer A → Type 0
LeavesForest n (returned a ms) = IsForest n ms
LeavesForest n (raised e) = Unit

weaker : (n b : ℕ) (ms : Menus) → n ≤ b → IsForest n ms → IsForest b ms
weaker n b ms le ((rank, (r, bound)), ids, pos) =
    ((rank, (r, λ k. omega (arith, le, bound k))), ids, pos)

saved-LeavesForest :
    {A : Type 0} (n : ℕ) (commits : Bool) (a : A) (ms : Menus)
    → IsForest n ms
    → LeavesForest n (saved commits a ms)
unfolding saved
saved-LeavesForest n true a ms forest = forest
saved-LeavesForest n false a ms forest = tt

present :
    (p : ℕ) (t : Table Menu) → p ≢ 0 → lacks_parent p t ≡ false → (w : Menu) × (find p t ≡ some w)
unfolding lacks_parent is_some
present p t ne h = elim (Option-cases (find p t)) [
  | inl gone ↦ absurd (ground (arith, gone, ne, h))
  | inr (w, found) ↦ (w, found)
]

-- A menu keeps its parent, becomes a root, or moves under a menu that is not below it.
checked :
    (n i : ℕ) (m : Menu) (t : Table Menu) (o : Option ℕ)
    → check_parent n i m t o ≡ none
    → ((given m.parent_id o ≡ 0) ⊎ (given m.parent_id o ≡ m.parent_id))
      ⊎ (((w : Menu) × (find (given m.parent_id o) t ≡ some w))
          × (given m.parent_id o ≢ i)
          × (is_descendant n t i (given m.parent_id o) ≡ false))
unfolding check_parent given
checked n i m t none h = inl (inr refl)
checked n i m t (some p) h = elim (Bool-cases (p == 0)) [
  | inl root ↦ inl (inl ((==_iff p 0).0 root))
  | inr below ↦ elim (Bool-cases (p == m.parent_id)) [
    | inl same ↦ inl (inr ((==_iff p m.parent_id).0 same))
    | inr moves ↦ inr (
        let (w, found) =
          present p t (λ e. ground (arith, below, e)) (ground (arith, below, moves, h)) in
        ((w, found), (λ e. ground (arith, below, moves, h, e)), ground (arith, below, moves, h)))
  ]
]

update-LeavesForest :
    (n : ℕ) (commits : Bool) (i : ℕ) (o : Option Menu) (q : MenuUpdateRequest) (ms : Menus)
    → find i ms.rows ≡ o
    → IsForest n ms
    → LeavesForest (n + n) (update_found n commits i o q ms)
unfolding update_found save_update updated_menu put gaking.Menus.Acyclic.with_row
update-LeavesForest n commits i none q ms found forest = tt
update-LeavesForest n commits i (some m) q ms found forest =
    elim (Option-cases (check_parent n i m ms.rows q.parent_id)) [
      | inl ok ↦ rw ok (elim (Bool-cases (is_idle q)) [
        | inl idle ↦ rw idle (weaker n (n + n) ms (omega arith) forest)
        | inr changes ↦ rw changes (
            saved-LeavesForest (n + n) commits (updated_menu q m)
              (record ms { rows = put i (updated_menu q m) ms.rows })
              (elim (checked n i m ms.rows q.parent_id ok) [
                | inl keeps ↦ kept-IsForest n ms i m (updated_menu q m) found keeps forest
                | inr ((w, parent), ne, apart) ↦
                    moved-IsForest n ms i m (updated_menu q m) w found parent ne apart forest
              ]))
      ])
      | inr (e, refused) ↦ rw refused tt
    ]

-- An update that refuses a menu as its own parent and one below it as its parent leaves a forest, of at
-- most twice the height.
pub update_menu-IsForest :
    (n : ℕ) (commits : Bool) (i : ℕ) (q : MenuUpdateRequest) (ms : Menus)
    → IsForest n ms
    → LeavesForest (n + n) (update_menu n commits i q ms)
unfolding update_menu
update_menu-IsForest n commits i q ms forest =
    update-LeavesForest n commits i (find i ms.rows) q ms refl forest

-- The heights with a new menu, which stands over its parent.
raised_at : ℕ → ℕ → (ℕ → ℕ) → ℕ → ℕ
raised_at i p rank k = if k == i then suc (rank p) else rank k

other_height : (i p : ℕ) (rank : ℕ → ℕ) (k : ℕ) → k < i → raised_at i p rank k ≡ rank k
unfolding raised_at
other_height i p rank k lt = ground (arith, lt)

own_height : (i p : ℕ) (rank : ℕ → ℕ) → raised_at i p rank i ≡ suc (rank p)
unfolding raised_at
own_height i p rank = rw ((==_iff i i).1 refl) refl

high_bound :
    (i p : ℕ) (rank : ℕ → ℕ) (n k : ℕ) → ((k : ℕ) → rank k < n) → raised_at i p rank k < suc n
unfolding raised_at
high_bound i p rank n k bound = ground (arith, bound p, bound k)

added : Menu → Menus → Menus
added m ms = record { rows = put ms.next_id m ms.rows; next_id = suc ms.next_id }

added-IsForest :
    (n : ℕ) (m : Menu) (ms : Menus)
    → m.parent_id < ms.next_id
    → IsForest n ms
    → IsForest (suc n) (added m ms)
unfolding added
added-IsForest n m ms below ((rank, (r, bound)), ids, pos) =
    let high : ℕ → ℕ = raised_at ms.next_id m.parent_id rank in
    let is_row : (k q : ℕ)
        → IsRow k q (put ms.next_id m ms.rows)
        → (0 < k) × ((q ≡ 0) ⊎ (high q < high k)) =
      (λ k q row. elim (put-IsRow ms.next_id m ms.rows k q row) [
        | inl (same_k, same_q) ↦
            rw (same_k, same_q)
              (
                pos,
                inr (
                    rw
                      (
                        own_height ms.next_id m.parent_id rank,
                        other_height ms.next_id m.parent_id rank m.parent_id below,
                      )
                      (omega arith)),
              )
        | inr old_row ↦
            let (lt_k, lt_q) = ids k q old_row in
            rw
              (
                other_height ms.next_id m.parent_id rank k lt_k,
                other_height ms.next_id m.parent_id rank q lt_q,
              )
              (r k q old_row)
      ]) in
    let is_id : (k q : ℕ)
        → IsRow k q (put ms.next_id m ms.rows)
        → (k < suc ms.next_id) × (q < suc ms.next_id) =
      (λ k q row. elim (put-IsRow ms.next_id m ms.rows k q row) [
        | inl (same_k, same_q) ↦ (omega (arith, same_k), omega (arith, same_q, below))
        | inr old_row ↦ (omega (arith, (ids k q old_row).0), omega (arith, (ids k q old_row).1))
      ]) in
    ((high, (is_row, λ k. high_bound ms.next_id m.parent_id rank n k bound)), is_id, omega arith)

parent_below :
    (n : ℕ) (m : Menu) (ms : Menus)
    → lacks_parent m.parent_id ms.rows ≡ false
    → IsForest n ms
    → m.parent_id < ms.next_id
parent_below n m ms known (heights, ids, pos) = elim (Bool-cases (m.parent_id == 0)) [
  | inl root ↦ omega (arith, (==_iff m.parent_id 0).0 root, pos)
  | inr below ↦
      let (w, found) = present m.parent_id ms.rows (λ e. ground (arith, below, e)) known in
      (ids m.parent_id w.parent_id (find-IsRow m.parent_id w ms.rows found)).0
]

-- A new menu under none or under one of the forest leaves a forest that is at most one higher.
pub create_menu-IsForest :
    (n : ℕ) (commits : Bool) (m : Menu) (ms : Menus)
    → IsForest n ms
    → LeavesForest (suc n) (create_menu commits m ms)
unfolding create_menu added
create_menu-IsForest n commits m ms forest = elim (Bool-cases (has_code m.menu_code ms.rows)) [
  | inl taken ↦ rw taken tt
  | inr new ↦ elim (Bool-cases (lacks_parent m.parent_id ms.rows)) [
    | inl missing ↦ rw (new, missing) tt
    | inr known ↦
        rw (new, known)
          (saved-LeavesForest (suc n) commits ms.next_id (added m ms)
            (added-IsForest n m ms (parent_below n m ms known forest) forest))
  ]
]

-- A deleted menu leaves a forest.
pub delete_menu-IsForest :
    (n : ℕ) (commits : Bool) (i : ℕ) (ms : Menus)
    → IsForest n ms
    → LeavesForest n (delete_menu commits i ms)
unfolding delete_menu
delete_menu-IsForest n commits i ms forest = elim (Bool-cases (is_some (find i ms.rows))) [
  | inl there ↦ elim (Bool-cases (has_children i ms.rows)) [
    | inl parent ↦ rw (there, parent) tt
    | inr leaf ↦
        rw (there, leaf)
          (saved-LeavesForest n commits true (record ms { rows = remove i ms.rows })
            (let (heights, ids, pos) = forest in
              (
                (
                  heights.0,
                  ((λ k q row. heights.1.0 k q (remove-IsRow i ms.rows k q row)), heights.1.1),
                ),
                (λ k q row. ids k q (remove-IsRow i ms.rows k q row)),
                pos,
              )))
  ]
  | inr gone ↦ rw gone tt
]
