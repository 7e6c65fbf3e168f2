-- ===== src/Tests/Menus.antt =====
-- The theorems on the menus of backend/src/services/b14_rbac_service.py, at concrete inputs.
use gaking.Base.{
  ℕ, zero, suc, ◌+◌, ◌≡◌, ◌↔◌, ◌<◌, sym, ◌⊎◌, true, none, some, [], ◌∷◌, inl, inr, arith,
}
use gaking.Menus.Service.{Menu, Menus, MenuUpdateRequest, update_menu, is_descendant}
use gaking.Menus.Forest.{IsRow, Below}
use gaking.Menus.Acyclic.{IsForest, is_descendant_iff}
use gaking.Menus.Keeps.{LeavesForest, update_menu-IsForest}

abbrev menu : ℕ → Menu
menu p = record { parent_id = p; menu_code = "m"; menu_name = "n"; status = true }

-- menu 1 is a root, 2 hangs on it, 3 is another root
abbrev menus : Menus
menus = record { rows = (1, menu 0) ∷ (2, menu 1) ∷ (3, menu 0) ∷ []; next_id = 4 }

abbrev moves : MenuUpdateRequest
moves = record { parent_id = some 2; menu_name = none; status = none }

height : ℕ → ℕ
height (suc (suc zero)) = 2
height (suc (suc (suc k))) = 1
height (suc zero) = 1
height zero = 0

ranked : (k q : ℕ) → IsRow k q menus.rows → (0 < k) × ((q ≡ 0) ⊎ (height q < height k))
unfolding height
ranked k q (inl (own, parent)) = (omega (arith, own), inl (sym parent))
ranked k q (inr (inl (own, parent))) =
    (omega (arith, own), inr (rw (sym own, sym parent) (omega arith)))
ranked k q (inr (inr (inl (own, parent)))) = (omega (arith, own), inl (sym parent))
ranked k q (inr (inr (inr none_left))) = absurd none_left

low : (k : ℕ) → height k < 3
unfolding height
low (suc (suc zero)) = omega arith
low (suc (suc (suc k))) = omega arith
low (suc zero) = omega arith
low zero = omega arith

menus-IsForest : IsForest 3 menus
menus-IsForest = (
  (height, ((λ k q row. ranked k q row), (λ k. low k))),
  (λ k q row. ground (arith, row)),
  omega arith,
)

is_descendant_iff_example : (is_descendant 3 menus.rows 1 2 ≡ true) ↔ Below menus.rows 2 1
is_descendant_iff_example = is_descendant_iff 3 menus 1 2 menus-IsForest (omega arith)

update_menu-IsForest_example : LeavesForest (3 + 3) (update_menu 3 true 3 moves menus)
update_menu-IsForest_example = update_menu-IsForest 3 true 3 moves menus menus-IsForest
