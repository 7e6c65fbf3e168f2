-- ===== src/Reconcile/Balance.antt =====
-- When the comparison of backend/src/services/reconciliation_b13_service.py finds no difference.
use gaking.Base.{
  ℕ, true, false, Option, none, some, List, [], ◌∷◌, ◌++◌, ◌≡◌, refl, ◌↔◌, inl, inr, subst, arith,
  Bool-cases,
}
use gaking.Base.Int.{ℤ, pos, ◌+ℤ◌, ◌≤ℤ◌, ltb_ℤ, leb_ℤ, int_laws}
use gaking.Base.Listed.{Listed}
use gaking.Base.Table.{Table, find}
use gaking.Store.Types.{Account, Order, SettlementRecord}
use gaking.Store.Reconciliation.{DiffType, Side}
use gaking.Store.Session.{Tables}
use gaking.Reconcile.Query.{Columns, users, unsettled_orders, orphan_settlements}
use gaking.Reconcile.Check.{
  tolerance, distance, compare_amounts, check_account, check_user, check_users, order_diffs,
  settlement_diffs, differences, ordered_amount, settled_amount, withdrawn_amount,
}

-- No more than a cent apart.
abbrev pub Close : ℤ → ℤ → Type 0
Close a b = (a ≤ℤ b +ℤ tolerance) × (b ≤ℤ a +ℤ tolerance)

-- What an account has to agree with. Of a user without one it is only asked that no withdrawal was paid:
-- nothing is asked of the settlements.
abbrev pub AccountAgrees : ℤ → ℤ → Option Account → Type 0
AccountAgrees settled withdrawn (some a) =
    Close settled a.total_balance × Close a.cumulative_withdrawn withdrawn
AccountAgrees settled withdrawn none = withdrawn ≤ℤ pos 0

abbrev pub UserAgrees : Columns → ℕ → Tables → ℕ → Type 0
UserAgrees c date t u =
    Close (ordered_amount c date t u) (settled_amount c date t u)
    × AccountAgrees (settled_amount c date t u) (withdrawn_amount date t u) (find u t.accounts)

-- What the service compares agrees, of the users with a row of the day and of the rows that stand alone. The
-- transfers of WeChat are not compared.
abbrev pub Agrees : Columns → ℕ → Tables → Type 0
Agrees c date t =
    ((u : ℕ) → Listed u (users c date t) → UserAgrees c date t u)
    × (unsettled_orders c date t ≡ [])
    × (orphan_settlements c date t ≡ [])

++-nil-left : {A : Type 0} (xs ys : List A) → xs ++ ys ≡ [] → xs ≡ []
++-nil-left [] ys h = refl
++-nil-left (x ∷ xs) ys h = cc

++-nil-right : {A : Type 0} (xs ys : List A) → xs ++ ys ≡ [] → ys ≡ []
++-nil-right [] ys h = h
++-nil-right (x ∷ xs) ys h = cc

near : (a b : ℤ) → leb_ℤ (distance a b) tolerance ≡ true → Close a b
unfolding distance
near a b h = elim (Bool-cases (ltb_ℤ a b)) [
  | inl less ↦ let k = rw less at h in grind int_laws
  | inr more ↦ let k = rw more at h in grind int_laws
]

far : (a b : ℤ) → leb_ℤ (distance a b) tolerance ≡ false → ¬ Close a b
unfolding distance
far a b h c = elim (Bool-cases (ltb_ℤ a b)) [
  | inl less ↦ let k = rw less at h in grind int_laws
  | inr more ↦ let k = rw more at h in grind int_laws
]

compare_amounts-Close :
    (id u : ℕ) (type : DiffType) (source target : Side) (a b : ℤ)
    → compare_amounts id u type source target a b ≡ []
    → Close a b
unfolding compare_amounts
compare_amounts-Close id u type source target a b h =
    elim (Bool-cases (leb_ℤ (distance a b) tolerance)) [
      | inl close ↦ near a b close
      | inr apart ↦ absurd (ground (arith, apart, h))
    ]

Close-compare_amounts :
    (id u : ℕ) (type : DiffType) (source target : Side) (a b : ℤ)
    → Close a b
    → compare_amounts id u type source target a b ≡ []
unfolding compare_amounts
Close-compare_amounts id u type source target a b c =
    elim (Bool-cases (leb_ℤ (distance a b) tolerance)) [
      | inl close ↦ rw close refl
      | inr apart ↦ absurd (far a b apart c)
    ]

check_account-Agrees :
    (id u : ℕ) (settled withdrawn : ℤ) (o : Option Account)
    → check_account id u settled withdrawn o ≡ []
    → AccountAgrees settled withdrawn o
unfolding check_account
check_account-Agrees id u settled withdrawn none h = elim (Bool-cases (ltb_ℤ (pos 0) withdrawn)) [
  | inl paid ↦ absurd (ground (arith, paid, h))
  | inr unpaid ↦ grind int_laws
]
check_account-Agrees id u settled withdrawn (some a) h = (
  compare_amounts-Close id u DiffType.settlement_account_mismatch Side.settlement Side.account
      settled a.total_balance (++-nil-left _ _ h),
  compare_amounts-Close id u DiffType.account_withdraw_mismatch Side.account Side.withdraw
      a.cumulative_withdrawn withdrawn
      (++-nil-right
        (compare_amounts id u DiffType.settlement_account_mismatch Side.settlement Side.account
          settled a.total_balance)
        _ h),
)

Agrees-check_account :
    (id u : ℕ) (settled withdrawn : ℤ) (o : Option Account)
    → AccountAgrees settled withdrawn o
    → check_account id u settled withdrawn o ≡ []
unfolding check_account
Agrees-check_account id u settled withdrawn none h = elim (Bool-cases (ltb_ℤ (pos 0) withdrawn)) [
  | inl paid ↦ absurd (grind int_laws)
  | inr unpaid ↦ rw unpaid refl
]
Agrees-check_account id u settled withdrawn (some a) (total, paid) =
    rw
      (
        Close-compare_amounts id u DiffType.settlement_account_mismatch Side.settlement Side.account
            settled a.total_balance total,
        Close-compare_amounts id u DiffType.account_withdraw_mismatch Side.account Side.withdraw
            a.cumulative_withdrawn withdrawn paid,
      )
      refl

check_users-Agrees :
    (id : ℕ) (c : Columns) (date : ℕ) (t : Tables) (us : List ℕ)
    → check_users id c date t us ≡ []
    → (u : ℕ) → Listed u us
    → UserAgrees c date t u
unfolding check_users check_user
check_users-Agrees id c date t [] h u l = absurd l
check_users-Agrees id c date t (v ∷ us) h u (inl same) =
    let mine = ++-nil-left (check_user id c date t v) (check_users id c date t us) h in
    let orders =
      compare_amounts id v DiffType.order_settlement_mismatch Side.order Side.settlement
        (ordered_amount c date t v) (settled_amount c date t v) in
    let account =
      check_account id v (settled_amount c date t v) (withdrawn_amount date t v)
        (find v t.accounts) in
    subst (UserAgrees c date t) same (
      compare_amounts-Close id v DiffType.order_settlement_mismatch Side.order Side.settlement
          (ordered_amount c date t v) (settled_amount c date t v) (++-nil-left orders account mine),
      check_account-Agrees id v (settled_amount c date t v) (withdrawn_amount date t v)
          (find v t.accounts) (++-nil-right orders account mine),
    )
check_users-Agrees id c date t (v ∷ us) h u (inr later) =
    check_users-Agrees id c date t us
      (++-nil-right (check_user id c date t v) (check_users id c date t us) h) u later

Agrees-check_users :
    (id : ℕ) (c : Columns) (date : ℕ) (t : Tables) (us : List ℕ)
    → ((u : ℕ) → Listed u us → UserAgrees c date t u)
    → check_users id c date t us ≡ []
unfolding check_users check_user
Agrees-check_users id c date t [] h = refl
Agrees-check_users id c date t (v ∷ us) h =
    let (orders, account) = h v (inl refl) in
    rw
      (
        Close-compare_amounts id v DiffType.order_settlement_mismatch Side.order Side.settlement
            (ordered_amount c date t v) (settled_amount c date t v) orders,
        Agrees-check_account id v (settled_amount c date t v) (withdrawn_amount date t v)
            (find v t.accounts) account,
        Agrees-check_users id c date t us (λ u l. h u (inr l)),
      )
      refl

order_diffs-nil : (id : ℕ) (t : Table Order) → order_diffs id t ≡ [] → t ≡ []
unfolding order_diffs
order_diffs-nil id [] h = refl
order_diffs-nil id (e ∷ t) h = cc

settlement_diffs-nil : (id : ℕ) (t : Table SettlementRecord) → settlement_diffs id t ≡ [] → t ≡ []
unfolding settlement_diffs
settlement_diffs-nil id [] h = refl
settlement_diffs-nil id (e ∷ t) h = cc

-- The comparison of a day finds nothing just where what it compares agrees.
pub differences_iff :
    (id : ℕ) (c : Columns) (date : ℕ) (t : Tables)
    → (differences id c date t ≡ []) ↔ Agrees c date t
unfolding differences order_diffs settlement_diffs
differences_iff id c date t =
    let checks = check_users id c date t (users c date t) in
    let lone = order_diffs id (unsettled_orders c date t) in
    let orphans = settlement_diffs id (orphan_settlements c date t) in
    (
      (λ h.
          let rest = ++-nil-right checks (lone ++ orphans) h in
          (
            check_users-Agrees id c date t (users c date t)
                (++-nil-left checks (lone ++ orphans) h),
            order_diffs-nil id (unsettled_orders c date t) (++-nil-left lone orphans rest),
            settlement_diffs-nil id (orphan_settlements c date t) (++-nil-right lone orphans rest),
          )),
      (λ (agree, settled, owned).
          rw (Agrees-check_users id c date t (users c date t) agree, settled, owned) refl),
    )
