-- ===== src/Sync/Index.antt =====
-- The index of the orders that dao/order_sync_dao.py of backend/src writes: unique channel numbers, and a
-- key that is free.
use gaking.Base.{
  ℕ, suc, Bool, true, false, none, some, List, [], ◌∷◌, ◌||◌, ◌≡◌, refl, sym, ap, ◌∙◌, subst, inl,
  inr, arith, Bool-cases, ◌==◌,
}
use gaking.Base.Table.{Table, find, put, KeysBelow, put-KeysBelow, KeysBelow-suc, find-KeysBelow}
use gaking.Store.Types.{Order}
use gaking.Store.Session.{Tables}
use gaking.Sync.Persist.{has_no, add_order, add_orders, clashes, StatusUpdate, updated, update_rows}
use Prim.Native.String.{String}
use text.Mathlib.Text.{◌==◌ as str_eq}
use text.Mathlib.TextEquality.{eq_iff}

true-false : ¬ (true ≡ false)
true-false h = cc

none-some : {A : Type 0} {a : A} → ¬ (some a ≡ none)
none-some h = cc

pub or_false : (a : Bool) → (a || false) ≡ a
or_false true = refl
or_false false = refl

pub or_assoc : (a b c : Bool) → (a || (b || c)) ≡ ((a || b) || c)
or_assoc true b c = refl
or_assoc false b c = refl

pub or_none : (a b : Bool) → (a || b) ≡ false → (a ≡ false) × (b ≡ false)
or_none true b h = absurd (true-false h)
or_none false b h = (refl, h)

str_eq_sym : (a b : String) → str_eq a b ≡ str_eq b a
str_eq_sym a b = elim (Bool-cases (str_eq a b)) [
  | inl same ↦ subst (λ x. str_eq a x ≡ str_eq x a) ((eq_iff a b).0 same) refl
  | inr other ↦ elim (Bool-cases (str_eq b a)) [
    | inr too ↦ other ∙ sym too
    | inl same ↦ absurd (true-false (sym ((eq_iff a b).1 (sym ((eq_iff b a).0 same))) ∙ other))
  ]
]

-- No two rows have the same channel number.
abbrev pub IsUnique : Table Order → Type 0
IsUnique [] = Unit
IsUnique (e ∷ t) = (has_no e.1.out_order_no t ≡ false) × IsUnique t

pub has_no-put :
    (x : String) (k : ℕ) (o : Order) (t : Table Order)
    → find k t ≡ none
    → has_no x (put k o t) ≡ (has_no x t || str_eq o.out_order_no x)
unfolding has_no put find
has_no-put x k o [] h = or_false (str_eq o.out_order_no x)
has_no-put x k o (e ∷ t) h = elim (Bool-cases (e.0 == k)) [
  | inl same ↦ absurd (none-some (rw same at h))
  | inr other ↦ rw other (
      ap (λ b. str_eq e.1.out_order_no x || b) (has_no-put x k o t (rw other at h))
      ∙ or_assoc (str_eq e.1.out_order_no x) (has_no x t) (str_eq o.out_order_no x))
]

put-IsUnique :
    (k : ℕ) (o : Order) (t : Table Order)
    → find k t ≡ none
    → has_no o.out_order_no t ≡ false
    → IsUnique t
    → IsUnique (put k o t)
unfolding has_no put find
put-IsUnique k o [] h new u = (refl, tt)
put-IsUnique k o (e ∷ t) h new u = elim (Bool-cases (e.0 == k)) [
  | inl same ↦ absurd (none-some (rw same at h))
  | inr other ↦
      let free : find k t ≡ none = rw other at h in
      let (apart, absent) =
        or_none (str_eq e.1.out_order_no o.out_order_no) (has_no o.out_order_no t) new in
      rw other (
        has_no-put e.1.out_order_no k o t free
            ∙ rw (u.0, str_eq_sym o.out_order_no e.1.out_order_no, apart) refl,
        put-IsUnique k o t free absent u.1,
      )
]

-- Unique numbers, and the next key is free.
abbrev pub IsIndexed : Tables → Type 0
IsIndexed t = IsUnique t.orders × KeysBelow t.next_order t.orders

pub add_order-IsIndexed :
    (o : Order) (t : Tables)
    → has_no o.out_order_no t.orders ≡ false
    → IsIndexed t
    → IsIndexed (add_order o t)
add_order-IsIndexed o t new (u, below) = (
  put-IsUnique t.next_order o t.orders (find-KeysBelow t.next_order t.orders below) new u,
  put-KeysBelow (suc t.next_order) t.next_order o t.orders (omega arith)
      (KeysBelow-suc t.next_order t.orders below),
)

clashes_same :
    (os : List Order) (t u : Table Order)
    → ((x : String) → has_no x t ≡ has_no x u)
    → clashes os t ≡ clashes os u
unfolding clashes has_no
clashes_same [] t u h = refl
clashes_same (o ∷ os) t u h =
    rw
      (
        h o.out_order_no,
        clashes_same os ((0, o) ∷ t) ((0, o) ∷ u)
            (λ x. ap (λ b. str_eq o.out_order_no x || b) (h x)),
      )
      refl

or_comm : (a b : Bool) → (a || b) ≡ (b || a)
or_comm true true = refl
or_comm true false = refl
or_comm false true = refl
or_comm false false = refl

pub add_orders-IsIndexed :
    (os : List Order) (t : Tables)
    → clashes os t.orders ≡ false
    → IsIndexed t
    → IsIndexed (add_orders os t)
unfolding clashes add_orders has_no
add_orders-IsIndexed [] t free h = h
add_orders-IsIndexed (o ∷ os) t free h =
    let (new, rest) =
      or_none (has_no o.out_order_no t.orders) (clashes os ((0, o) ∷ t.orders)) free in
    add_orders-IsIndexed os (add_order o t)
      (clashes_same os (put t.next_order o t.orders) ((0, o) ∷ t.orders) (λ x.
          has_no-put x t.next_order o t.orders (find-KeysBelow t.next_order t.orders h.1)
          ∙ or_comm (has_no x t.orders) (str_eq o.out_order_no x))
        ∙ rest)
      (add_order-IsIndexed o t new h)

has_no-update_rows :
    (x : String) (u : StatusUpdate) (t : Table Order) → has_no x (update_rows u t) ≡ has_no x t
unfolding has_no update_rows updated
has_no-update_rows x u [] = refl
has_no-update_rows x u (e ∷ t) = elim (Bool-cases (str_eq e.1.out_order_no u.out_order_no)) [
  | inl same ↦ rw same (ap (λ b. str_eq e.1.out_order_no x || b) (has_no-update_rows x u t))
  | inr other ↦ rw other (ap (λ b. str_eq e.1.out_order_no x || b) (has_no-update_rows x u t))
]

pub update_rows-IsUnique :
    (u : StatusUpdate) (t : Table Order) → IsUnique t → IsUnique (update_rows u t)
unfolding update_rows updated
update_rows-IsUnique u [] h = tt
update_rows-IsUnique u (e ∷ t) h = elim (Bool-cases (str_eq e.1.out_order_no u.out_order_no)) [
  | inl same ↦ rw same (has_no-update_rows e.1.out_order_no u t ∙ h.0, update_rows-IsUnique u t h.1)
  | inr other ↦
      rw other (has_no-update_rows e.1.out_order_no u t ∙ h.0, update_rows-IsUnique u t h.1)
]

pub update_rows-KeysBelow :
    (n : ℕ) (u : StatusUpdate) (t : Table Order) → KeysBelow n t → KeysBelow n (update_rows u t)
unfolding update_rows
update_rows-KeysBelow n u [] h = tt
update_rows-KeysBelow n u (e ∷ t) h = elim (Bool-cases (str_eq e.1.out_order_no u.out_order_no)) [
  | inl same ↦ rw same (h.0, update_rows-KeysBelow n u t h.1)
  | inr other ↦ rw other (h.0, update_rows-KeysBelow n u t h.1)
]
