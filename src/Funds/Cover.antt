-- ===== src/Funds/Cover.antt =====
-- What is promised out of a user's frozen balance: the withdrawals under way
-- (backend/src/services/withdraw_service.py) and the commissions frozen until they are settled
-- (backend/src/services/commission_settlement_b12_service.py).
use gaking.Base.{
  ℕ, ◌≡◌, [], ◌∷◌, ap, inl, inr, Bool, true, false, Option, none, some, ◌==◌, if◌then◌else◌, arith,
  Bool-cases, ==_iff, subst, sym,
}
use gaking.Base.Int.{ℤ, pos, ◌+ℤ◌, ◌≤ℤ◌, int_laws}
use gaking.Base.Table.{Table, find, put, find-put, sum_by, KeysBelow, Rows}
use gaking.Store.Types.{Account, WithdrawApply, WithdrawStatus, SettlementRecord}
use gaking.Store.Session.{Tables}
use gaking.Settlement.Machine.{settlable, value, same_value}

-- An application that is neither paid nor rejected.
unfoldable pub is_open : WithdrawStatus → Bool
is_open WithdrawStatus.success = false
is_open WithdrawStatus.rejected = false
is_open _ = true

-- what an application claims of the frozen balance of user `u`
unfoldable pub claim : ℕ → WithdrawApply → ℤ
unfolding is_open
claim u a = if a.user_id == u then (if is_open a.status then a.apply_amount else pos 0) else pos 0

-- what a settlement record holds of it
unfoldable pub hold : ℕ → SettlementRecord → ℤ
unfolding value same_value
hold u st =
    if st.user_id == u
    then (if same_value st.settlement_status (value settlable) then st.user_commission else pos 0)
    else pos 0

abbrev pub frozen_of : Option Account → ℤ
frozen_of none = pos 0
frozen_of (some a) = a.frozen_balance

pub frozen-put_own :
    (u v : ℕ) (b : Account) (t : Table Account)
    → (v == u) ≡ true
    → frozen_of (find u (put v b t)) ≡ b.frozen_balance
frozen-put_own u v b t own = ground (arith, find-put v u b t, own)

pub frozen-put_other :
    (u v : ℕ) (b : Account) (t : Table Account)
    → (v == u) ≡ false
    → frozen_of (find u (put v b t)) ≡ frozen_of (find u t)
frozen-put_other u v b t other = ground (arith, find-put v u b t, other)

pub frozen-found :
    (u v : ℕ) (b : Account) (t : Table Account)
    → (v == u) ≡ true
    → find v t ≡ some b
    → frozen_of (find u t) ≡ b.frozen_balance
frozen-found u v b t own found =
    let same : v ≡ u = (==_iff v u).0 own in
    ap frozen_of (subst (λ k. find k t ≡ some b) same found)

pub frozen-found_row :
    (u v : ℕ) (t : Table Account) → (v == u) ≡ true → frozen_of (find u t) ≡ frozen_of (find v t)
frozen-found_row u v t own =
    let same : v ≡ u = (==_iff v u).0 own in ap (λ k. frozen_of (find k t)) (sym same)

-- The frozen balance of user `u` is at least the open claims on it and the held commissions.
abbrev pub IsCovered : ℕ → Tables → Type 0
IsCovered u t =
    sum_by (claim u) t.applies +ℤ sum_by (hold u) t.settlements ≤ℤ frozen_of (find u t.accounts)

abbrev pub IsNonneg : WithdrawApply → Type 0
IsNonneg a = pos 0 ≤ℤ a.apply_amount

abbrev pub IsHeld : SettlementRecord → Type 0
IsHeld st = pos 0 ≤ℤ st.user_commission

-- Covered, with no negative amount and no id that an auto-increment column would give again.
abbrev pub IsFunded : ℕ → Tables → Type 0
IsFunded u t =
    IsCovered u t
    × Rows IsNonneg t.applies
    × Rows IsHeld t.settlements
    × KeysBelow t.next_apply t.applies
    × KeysBelow t.next_settlement t.settlements

pub claim_nonneg : (u : ℕ) (a : WithdrawApply) → IsNonneg a → pos 0 ≤ℤ claim u a
unfolding claim
claim_nonneg u a h = ground arith

pub hold_nonneg : (u : ℕ) (st : SettlementRecord) → IsHeld st → pos 0 ≤ℤ hold u st
unfolding hold
hold_nonneg u st h = ground arith

pub claim-own_user :
    (a : WithdrawApply) → is_open a.status ≡ true → claim a.user_id a ≡ a.apply_amount
unfolding claim
claim-own_user a opens = ground (arith, opens)

pub claims_nonneg :
    (u : ℕ) (t : Table WithdrawApply) → Rows IsNonneg t → pos 0 ≤ℤ sum_by (claim u) t
unfolding sum_by
claims_nonneg u [] h = omega int_laws
claims_nonneg u (e ∷ t) h = omega (int_laws, claim_nonneg u e.1 h.0, claims_nonneg u t h.1)

pub holds_nonneg : (u : ℕ) (t : Table SettlementRecord) → Rows IsHeld t → pos 0 ≤ℤ sum_by (hold u) t
unfolding sum_by
holds_nonneg u [] h = omega int_laws
holds_nonneg u (e ∷ t) h = omega (int_laws, hold_nonneg u e.1 h.0, holds_nonneg u t h.1)

-- One application claims no more than all of them, one record holds no more than all of them.
pub claim_le :
    (u i : ℕ) (t : Table WithdrawApply) {a : WithdrawApply}
    → Rows IsNonneg t
    → find i t ≡ some a
    → claim u a ≤ℤ sum_by (claim u) t
unfolding sum_by find
claim_le u i [] h e = cc
claim_le u i (x ∷ t) h e = elim (Bool-cases (x.0 == i)) [
  | inl same ↦ grind (int_laws, claims_nonneg u t h.1, same, e)
  | inr other ↦ grind (int_laws, claim_nonneg u x.1 h.0, claim_le u i t h.1 (rw other at e))
]

pub hold_le :
    (u i : ℕ) (t : Table SettlementRecord) {st : SettlementRecord}
    → Rows IsHeld t
    → find i t ≡ some st
    → hold u st ≤ℤ sum_by (hold u) t
unfolding sum_by find
hold_le u i [] h e = cc
hold_le u i (x ∷ t) h e = elim (Bool-cases (x.0 == i)) [
  | inl same ↦ grind (int_laws, holds_nonneg u t h.1, same, e)
  | inr other ↦ grind (int_laws, hold_nonneg u x.1 h.0, hold_le u i t h.1 (rw other at e))
]
