-- ===== src/Sync/Upsert.antt =====
-- What `batch_upsert_orders` of backend/src/dao/order_sync_dao.py adds to the orders.
use gaking.Base.{
  ℕ, suc, Bool, true, false, some, List, [], ◌∷◌, ◌||◌, ◌≡◌, ◌⊎◌, refl, if◌then◌else◌, inl, inr,
  arith,
}
use gaking.Base.Table.{Table, find}
use gaking.Store.Types.{Order}
use gaking.Store.Session.{Session}
use gaking.Sync.Persist.{has_no}
use Prim.Native.String.{String}
use text.Mathlib.Text.{◌==◌ as str_eq}

-- A batch has an order of a number.
unfoldable pub reports : String → List Order → Bool
reports x [] = false
reports x (o ∷ os) = str_eq o.out_order_no x || reports x os

or_intro : (a b : Bool) → (a ≡ true) ⊎ (b ≡ true) → (a || b) ≡ true
or_intro a b (inl h) = ground (arith, h)
or_intro a b (inr h) = ground (arith, h)

or_elim : (a b : Bool) → (a || b) ≡ true → (a ≡ true) ⊎ (b ≡ true)
or_elim true b h = inl refl
or_elim false b h = inr h

-- How many orders of a batch the table lacks.
unfoldable pub lacking : List Order → Table Order → ℕ
lacking [] t = 0
lacking (o ∷ os) t = let rest = lacking os t in if has_no o.out_order_no t then rest else suc rest

-- Orders of just the numbers that were there or that a batch has, and the rows that were there.
abbrev pub Gains : List Order → Table Order → Table Order → Type 0
Gains os t t' =
    ((x : String) → has_no x t' ≡ (has_no x t || reports x os))
    × ((i : ℕ) (o : Order) → find i t ≡ some o → find i t' ≡ some o)
