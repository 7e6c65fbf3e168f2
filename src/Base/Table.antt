-- ===== src/Base/Table.antt =====
-- A database table seen through its active rows: an association list from a key to a row.
-- A second row of the same key is hidden by the first, and `put` replaces the first.
use gaking.Base.Tests.{◌==◌, if◌then◌else◌, Bool-cases}
use gaking.Base.Int.{ℤ, pos, ◌+ℤ◌, ◌≤ℤ◌, int_laws}
use Prim.Native.Nat.{ℕ, suc, ◌<◌}
use mathlib.Core.Path.{◌≡◌, refl, sym, subst}
use mathlib.Core.Logic.{◌≢◌, ◌⊎◌, inl, inr}
use mathlib.Core.Bool.{Bool}
use mathlib.Core.Option.{Option, none, some}
use mathlib.Core.List.{List, [], ◌∷◌, ◌++◌}
use native.Mathlib.Omega.{arith}

abbrev pub Table {ℓ} : Type ℓ → Type ℓ
Table V = List (ℕ × V)

none-some {ℓ} : {A : Type ℓ} {a : A} → ¬ (none ≡ some a)
none-some h = cc

-- What a query for at most one row tells apart.
pub List-cases {ℓ} :
    {A : Type ℓ} (l : List A)
    → (l ≡ [])
      ⊎ ((v : A) × (l ≡ v ∷ []))
      ⊎ ((v : A) × (w : A) × (rest : List A) × (l ≡ v ∷ w ∷ rest))
List-cases [] = inl refl
List-cases (v ∷ []) = inr (inl (v, refl))
List-cases (v ∷ w ∷ rest) = inr (inr (v, w, rest, refl))

module _ {ℓ} {V : Type ℓ} where
  unfoldable pub find : ℕ → Table V → Option V
  find k [] = none
  find k (e ∷ t) = if e.0 == k then some e.1 else find k t

  unfoldable pub put : ℕ → V → Table V → Table V
  put k v [] = (k, v) ∷ []
  put k v (e ∷ t) = if e.0 == k then (k, v) ∷ t else e ∷ put k v t

  pub find-put :
      (k j : ℕ) (v : V) (t : Table V) → find j (put k v t) ≡ (if k == j then some v else find j t)
  unfolding find put
  find-put k j v [] = refl
  find-put k j v (e ∷ t) = ground (arith, find-put k j v t)

  pub find-put_self : (k : ℕ) (v : V) (t : Table V) → find k (put k v t) ≡ some v
  find-put_self k v t = ground (arith, find-put k k v t)

  pub find-put_ne : (k j : ℕ) (v : V) (t : Table V) → k ≢ j → find j (put k v t) ≡ find j t
  find-put_ne k j v t h = ground (arith, find-put k j v t)

  -- `SELECT … WHERE`: the rows that pass a test, with their keys, in the order of the table.
  unfoldable pub rows_where : (V → Bool) → Table V → List (ℕ × V)
  rows_where p [] = []
  rows_where p (e ∷ t) = let rest = rows_where p t in if p e.1 then e ∷ rest else rest

  pub rows_where-put_new :
      (p : V → Bool) (k : ℕ) (v : V) (t : Table V)
      → find k t ≡ none
      → rows_where p (put k v t) ≡ rows_where p t ++ (if p v then (k, v) ∷ [] else [])
  unfolding find put rows_where
  rows_where-put_new p k v [] h = refl
  rows_where-put_new p k v (e ∷ t) h = elim (Bool-cases (e.0 == k)) [
    | inl same ↦ absurd (none-some (sym (rw same at h)))
    | inr other ↦ elim (Bool-cases (p e.1)) [
      | inl passes ↦ ground (arith, other, passes, rows_where-put_new p k v t (rw other at h))
      | inr fails ↦ ground (arith, other, fails, rows_where-put_new p k v t (rw other at h))
    ]
  ]

  -- The sum of an amount over all rows.
  unfoldable pub sum_by : (V → ℤ) → Table V → ℤ
  sum_by f [] = pos 0
  sum_by f (e ∷ t) = f e.1 +ℤ sum_by f t

  pub sum_by-put :
      (f : V → ℤ) (k : ℕ) (v old : V) (t : Table V)
      → find k t ≡ some old
      → sum_by f (put k v t) +ℤ f old ≡ sum_by f t +ℤ f v
  unfolding find put sum_by
  sum_by-put f k v old [] h = cc
  sum_by-put f k v old (e ∷ t) h = grind (int_laws, sum_by-put f k v old t)

  pub sum_by-put_new :
      (f : V → ℤ) (k : ℕ) (v : V) (t : Table V)
      → find k t ≡ none
      → sum_by f (put k v t) ≡ sum_by f t +ℤ f v
  unfolding find put sum_by
  sum_by-put_new f k v [] h = omega int_laws
  sum_by-put_new f k v (e ∷ t) h = grind (int_laws, sum_by-put_new f k v t)

  -- All keys lie below a bound, as those of an auto-increment column do.
  abbrev pub KeysBelow : ℕ → Table V → Type 0
  KeysBelow n [] = Unit
  KeysBelow n (e ∷ t) = (e.0 < n) × KeysBelow n t

  pub find-KeysBelow : (n : ℕ) (t : Table V) → KeysBelow n t → find n t ≡ none
  unfolding find
  find-KeysBelow n [] h = refl
  find-KeysBelow n (e ∷ t) h = ground (arith, find-KeysBelow n t h.1)

  pub put-KeysBelow :
      (n k : ℕ) (v : V) (t : Table V) → k < n → KeysBelow n t → KeysBelow n (put k v t)
  unfolding put
  put-KeysBelow n k v [] lt h = (lt, tt)
  put-KeysBelow n k v (e ∷ t) lt h = ground (arith, put-KeysBelow n k v t lt h.1)

  pub KeysBelow-suc : (n : ℕ) (t : Table V) → KeysBelow n t → KeysBelow (suc n) t
  KeysBelow-suc n [] h = tt
  KeysBelow-suc n (e ∷ t) h = (omega arith, KeysBelow-suc n t h.1)

  pub find_below : (n i : ℕ) (t : Table V) {v : V} → KeysBelow n t → find i t ≡ some v → i < n
  unfolding find
  find_below n i [] h e = absurd (none-some e)
  find_below n i (x ∷ t) h e = elim (Bool-cases (x.0 == i)) [
    | inl same ↦ ground (arith, h.0, same)
    | inr other ↦ find_below n i t h.1 (rw other at e)
  ]

  -- `DELETE`: no row of the key is left.
  unfoldable pub remove : ℕ → Table V → Table V
  remove k [] = []
  remove k (e ∷ t) = let rest = remove k t in if e.0 == k then rest else e ∷ rest

  pub find-remove :
      (k j : ℕ) (t : Table V) → find j (remove k t) ≡ (if k == j then none else find j t)
  unfolding find remove
  find-remove k j [] = ground arith
  find-remove k j (e ∷ t) = ground (arith, find-remove k j t)

  pub sum_by_nonneg : (f : V → ℤ) (t : Table V) → ((v : V) → pos 0 ≤ℤ f v) → pos 0 ≤ℤ sum_by f t
  unfolding sum_by
  sum_by_nonneg f [] h = omega int_laws
  sum_by_nonneg f (e ∷ t) h = omega (int_laws, h e.1, sum_by_nonneg f t h)

some_eq {ℓ} : {A : Type ℓ} {a b : A} → some a ≡ some b → a ≡ b
some_eq h = cc

-- A property of every row.
module _ {ℓ κ} {V : Type ℓ} (P : V → Type κ) where
  abbrev pub Rows : Table V → Type κ
  Rows [] = Unit
  Rows (e ∷ t) = P e.1 × Rows t

  pub find-Rows : (k : ℕ) (t : Table V) {v : V} → Rows t → find k t ≡ some v → P v
  unfolding find
  find-Rows k [] h e = cc
  find-Rows k (x ∷ t) h e = elim (Bool-cases (x.0 == k)) [
    | inl same ↦ subst P (some_eq (rw same at e)) h.0
    | inr other ↦ find-Rows k t h.1 (rw other at e)
  ]

  pub put-Rows : (k : ℕ) (v : V) (t : Table V) → P v → Rows t → Rows (put k v t)
  unfolding put
  put-Rows k v [] p h = (p, tt)
  put-Rows k v (x ∷ t) p h = elim (Bool-cases (x.0 == k)) [
    | inl same ↦ rw same (p, h.1)
    | inr other ↦ rw other (h.0, put-Rows k v t p h.1)
  ]
