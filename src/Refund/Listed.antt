-- ===== src/Refund/Listed.antt =====
-- The keys that the queries of backend/src/dao/b07_1_reverse_commission_dao.py list.
use gaking.Base.{
  ℕ, zero, suc, Bool, false, none, some, List, [], ◌∷◌, ◌==◌, ==_iff, ◌≡◌, refl, inl, inr, arith,
  Bool-cases,
}
use gaking.Base.Listed.{Listed}
use gaking.Base.Table.{Table, find, put, rows_where}
use gaking.Refund.ReverseBatch.{keys, take}

-- At most one row has the key, as of a primary key.
abbrev pub Once : {V : Type 0} → ℕ → Table V → Type 0
Once i [] = Unit
Once i (e ∷ t) = (e.0 ≡ i → find i t ≡ none) × Once i t

pub put-Once : {V : Type 0} (i : ℕ) (v : V) (t : Table V) → Once i t → Once i (put i v t)
unfolding put find
put-Once i v [] h = (λ _. refl, tt)
put-Once i v (e ∷ t) h = elim (Bool-cases (e.0 == i)) [
  | inl same ↦ rw same ((λ _. h.0 ((==_iff e.0 i).0 same)), h.1)
  | inr other ↦ rw other ((λ same. absurd (ground (arith, same, other))), put-Once i v t h.1)
]

absent-Listed :
    {V : Type 0} (p : V → Bool) (i : ℕ) (t : Table V)
    → find i t ≡ none
    → ¬ Listed i (keys (rows_where p t))
unfolding rows_where keys find
absent-Listed p i [] h l = l
absent-Listed p i (e ∷ t) h l = elim (Bool-cases (e.0 == i)) [
  | inl same ↦ ground (arith, same, h)
  | inr other ↦ elim (Bool-cases (p e.1)) [
    | inl passes ↦ elim (rw passes at l) [
      | inl same ↦ ground (arith, same, other)
      | inr later ↦ absent-Listed p i t (rw other at h) later
    ]
    | inr fails ↦ absent-Listed p i t (rw other at h) (rw fails at l)
  ]
]

-- A query does not list the key of a row that fails its test.
pub failing-Listed :
    {V : Type 0} (p : V → Bool) (i : ℕ) (v : V) (t : Table V)
    → Once i t
    → find i t ≡ some v
    → p v ≡ false
    → ¬ Listed i (keys (rows_where p t))
unfolding rows_where keys find
failing-Listed p i v [] o h f l = l
failing-Listed p i v (e ∷ t) o h f l = elim (Bool-cases (e.0 == i)) [
  | inl same ↦
      let fails : p e.1 ≡ false = ground (arith, same, h, f) in
      absent-Listed p i t (o.0 ((==_iff e.0 i).0 same)) (rw fails at l)
  | inr other ↦ elim (Bool-cases (p e.1)) [
    | inl passes ↦ elim (rw passes at l) [
      | inl same ↦ ground (arith, same, other)
      | inr later ↦ failing-Listed p i v t o.1 (rw other at h) f later
    ]
    | inr fails ↦ failing-Listed p i v t o.1 (rw other at h) f (rw fails at l)
  ]
]

pub take-Listed : (i n : ℕ) (is : List ℕ) → Listed i (take n is) → Listed i is
unfolding take
take-Listed i zero is h = absurd h
take-Listed i (suc n) [] h = h
take-Listed i (suc n) (j ∷ js) (inl same) = inl same
take-Listed i (suc n) (j ∷ js) (inr later) = inr (take-Listed i n js later)
