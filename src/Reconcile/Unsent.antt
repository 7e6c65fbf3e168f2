-- ===== src/Reconcile/Unsent.antt =====
-- The differences that backend/src/services/reconciliation_b13_service.py writes have sent no alert yet.
use gaking.Base.{ℕ, false, Option, none, some, List, [], ◌∷◌, ◌++◌, ◌≡◌, refl, inl, inr, Bool-cases}
use gaking.Base.Int.{ℤ, pos, ltb_ℤ, leb_ℤ}
use gaking.Base.Table.{Table, find}
use gaking.Store.Types.{Account, Order, SettlementRecord}
use gaking.Store.Reconciliation.{Diff, DiffType, Side}
use gaking.Store.Session.{Tables}
use gaking.Reconcile.Query.{Columns, users, unsettled_orders, orphan_settlements}
use gaking.Reconcile.Check.{
  build_diff, compare_amounts, check_account, check_user, check_users, order_diffs,
  settlement_diffs, differences, distance, tolerance, ordered_amount, settled_amount,
  withdrawn_amount,
}

-- No alert of these differences has been sent.
abbrev pub Unsent : List Diff → Type 0
Unsent [] = Unit
Unsent (d ∷ ds) = (d.alert_sent ≡ false) × Unsent ds

++-Unsent : (xs ys : List Diff) → Unsent xs → Unsent ys → Unsent (xs ++ ys)
++-Unsent [] ys h k = k
++-Unsent (x ∷ xs) ys h k = (h.0, ++-Unsent xs ys h.1 k)

compare_amounts-Unsent :
    (id u : ℕ) (type : DiffType) (source target : Side) (a b : ℤ)
    → Unsent (compare_amounts id u type source target a b)
unfolding compare_amounts build_diff
compare_amounts-Unsent id u type source target a b =
    elim (Bool-cases (leb_ℤ (distance a b) tolerance)) [
      | inl close ↦ rw close tt
      | inr apart ↦ rw apart (refl, tt)
    ]

check_account-Unsent : (id u : ℕ) (x w : ℤ) (o : Option Account) → Unsent (check_account id u x w o)
unfolding check_account build_diff
check_account-Unsent id u x w none = elim (Bool-cases (ltb_ℤ (pos 0) w)) [
  | inl paid ↦ rw paid (refl, tt)
  | inr unpaid ↦ rw unpaid tt
]
check_account-Unsent id u x w (some a) =
    ++-Unsent
      (compare_amounts id u DiffType.settlement_account_mismatch Side.settlement Side.account x
        a.total_balance)
      _
      (compare_amounts-Unsent id u DiffType.settlement_account_mismatch Side.settlement Side.account
        x a.total_balance)
      (compare_amounts-Unsent id u DiffType.account_withdraw_mismatch Side.account Side.withdraw
        a.cumulative_withdrawn w)

check_users-Unsent :
    (id : ℕ) (c : Columns) (date : ℕ) (t : Tables) (us : List ℕ)
    → Unsent (check_users id c date t us)
unfolding check_users check_user
check_users-Unsent id c date t [] = tt
check_users-Unsent id c date t (u ∷ us) =
    let x = settled_amount c date t u in
    let o = ordered_amount c date t u in
    let orders =
      compare_amounts id u DiffType.order_settlement_mismatch Side.order Side.settlement o x in
    let account = check_account id u x (withdrawn_amount date t u) (find u t.accounts) in
    ++-Unsent (orders ++ account) (check_users id c date t us)
      (++-Unsent orders account
        (compare_amounts-Unsent id u DiffType.order_settlement_mismatch Side.order Side.settlement o
          x)
        (check_account-Unsent id u x (withdrawn_amount date t u) (find u t.accounts)))
      (check_users-Unsent id c date t us)

order_diffs-Unsent : (id : ℕ) (t : Table Order) → Unsent (order_diffs id t)
unfolding order_diffs build_diff
order_diffs-Unsent id [] = tt
order_diffs-Unsent id (e ∷ t) = (refl, order_diffs-Unsent id t)

settlement_diffs-Unsent : (id : ℕ) (t : Table SettlementRecord) → Unsent (settlement_diffs id t)
unfolding settlement_diffs build_diff
settlement_diffs-Unsent id [] = tt
settlement_diffs-Unsent id (e ∷ t) = (refl, settlement_diffs-Unsent id t)

pub differences-Unsent :
    (id : ℕ) (c : Columns) (date : ℕ) (t : Tables) → Unsent (differences id c date t)
unfolding differences
differences-Unsent id c date t =
    ++-Unsent (check_users id c date t (users c date t)) _
      (check_users-Unsent id c date t (users c date t))
      (++-Unsent (order_diffs id (unsettled_orders c date t))
        (settlement_diffs id (orphan_settlements c date t))
        (order_diffs-Unsent id (unsettled_orders c date t))
        (settlement_diffs-Unsent id (orphan_settlements c date t)))
