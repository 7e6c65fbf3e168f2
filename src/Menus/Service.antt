-- ===== src/Menus/Service.antt =====
-- The menus of backend/src/services/b14_rbac_service.py and dao/admin_menu_dao.py: the rows that are not
-- deleted, by id. A field that only describes a menu is not modelled. The recursion over the children
-- runs on fuel.
use gaking.Base.{
  ℕ, zero, suc, Bool, true, false, Option, none, some, [], ◌∷◌, ◌==◌, ◌&&◌, ◌||◌, not, ltb,
  if◌then◌else◌,
}
use gaking.Base.Table.{Table, find, put, remove}
use Prim.Native.String.{String}
use text.Mathlib.Text.{◌==◌ as str_eq}

pub record Menu : Type 0 where
  pub parent_id : ℕ
  pub menu_code : String
  pub menu_name : String
  pub status : Bool

pub record Menus : Type 0 where
  pub rows : Table Menu
  pub next_id : ℕ

pub data MenuError : Type 0 where
  code_taken parent_missing menu_missing own_parent cycle has_children_left commit_failed :
      MenuError

-- What a call returns or raises, and the menus it leaves.
pub data Answer (A : Type 0) : Type 0 where
  returned : A → Menus → Answer A
  raised : MenuError → Answer A

unfoldable pub has_code : String → Table Menu → Bool
has_code code [] = false
has_code code (e ∷ t) = str_eq e.1.menu_code code || has_code code t

unfoldable pub is_some : Option Menu → Bool
is_some none = false
is_some (some m) = true

-- `request.parent_id > 0`, and there is no such menu
unfoldable pub lacks_parent : ℕ → Table Menu → Bool
unfolding is_some
lacks_parent p t = ltb 0 p && not (is_some (find p t))

-- whether the commit succeeds, which `create`, `update_by_id` and `logic_delete_by_id` end with
unfoldable pub saved : {A : Type 0} → Bool → A → Menus → Answer A
saved true a ms = returned a ms
saved false a ms = raised commit_failed

unfoldable pub create_menu : Bool → Menu → Menus → Answer ℕ
unfolding has_code lacks_parent saved
create_menu commits m ms =
    if has_code m.menu_code ms.rows
    then raised code_taken
    else (if lacks_parent m.parent_id ms.rows
        then raised parent_missing
        else saved commits ms.next_id
            (record { rows = put ms.next_id m ms.rows; next_id = suc ms.next_id }))

-- `for child in list_children(parent)`, some of which passes a test
unfoldable pub any_child : (ℕ → Bool) → ℕ → Table Menu → Bool
any_child p parent [] = false
any_child p parent (e ∷ t) =
    let rest = any_child p parent t in if e.1.parent_id == parent then p e.0 || rest else rest

-- `_is_descendant`
unfoldable pub is_descendant : ℕ → Table Menu → ℕ → ℕ → Bool
is_descendant zero t ancestor candidate = false
is_descendant (suc n) t ancestor candidate =
    any_child (λ k. (k == candidate) || is_descendant n t k candidate) ancestor t

-- A field that is None is left as it is.
pub record MenuUpdateRequest : Type 0 where
  pub parent_id : Option ℕ
  pub menu_name : Option String
  pub status : Option Bool

unfoldable pub given : {A : Type 0} → A → Option A → A
given a none = a
given a (some b) = b

unfoldable pub updated_menu : MenuUpdateRequest → Menu → Menu
unfolding given
updated_menu q m = record m {
  parent_id = given m.parent_id q.parent_id;
  menu_name = given m.menu_name q.menu_name;
  status = given m.status q.status;
}

-- the checks of a new parent
unfoldable pub check_parent : ℕ → ℕ → Menu → Table Menu → Option ℕ → Option MenuError
unfolding is_descendant lacks_parent
check_parent fuel i m t none = none
check_parent fuel i m t (some p) =
    if p == 0
    then none
    else (if p == i
        then some own_parent
        else (if lacks_parent p t
            then some parent_missing
            else (if not (p == m.parent_id) && is_descendant fuel t i p then some cycle else none)))

-- `if not update_data: return menu`
none_given : Option ℕ → Option String → Option Bool → Bool
none_given none none none = true
none_given _ _ _ = false

unfoldable pub is_idle : MenuUpdateRequest → Bool
unfolding none_given
is_idle q = none_given q.parent_id q.menu_name q.status

unfoldable pub save_update :
    Option MenuError → Bool → ℕ → Menu → MenuUpdateRequest → Menus → Answer Menu
unfolding is_idle updated_menu saved
save_update (some e) commits i m q ms = raised e
save_update none commits i m q ms =
    if is_idle q
    then returned m ms
    else saved commits (updated_menu q m) (record ms { rows = put i (updated_menu q m) ms.rows })

unfoldable pub update_found : ℕ → Bool → ℕ → Option Menu → MenuUpdateRequest → Menus → Answer Menu
unfolding check_parent save_update
update_found fuel commits i none q ms = raised menu_missing
update_found fuel commits i (some m) q ms =
    save_update (check_parent fuel i m ms.rows q.parent_id) commits i m q ms

unfoldable pub update_menu : ℕ → Bool → ℕ → MenuUpdateRequest → Menus → Answer Menu
unfolding update_found
update_menu fuel commits i q ms = update_found fuel commits i (find i ms.rows) q ms

-- `has_children`
unfoldable pub has_children : ℕ → Table Menu → Bool
unfolding any_child
has_children i t = any_child (λ k. true) i t

unfoldable pub delete_menu : Bool → ℕ → Menus → Answer Bool
unfolding has_children is_some saved
delete_menu commits i ms =
    if is_some (find i ms.rows)
    then (if has_children i ms.rows
        then raised has_children_left
        else saved commits true (record ms { rows = remove i ms.rows }))
    else raised menu_missing
