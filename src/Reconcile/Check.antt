-- ===== src/Reconcile/Check.antt =====
-- backend/src/services/reconciliation_b13_service.py: the comparison of the four sides, and the differences.
use gaking.Base.{ℕ, suc, Bool, true, false, Option, none, some, List, [], ◌∷◌, ◌++◌, if◌then◌else◌}
use gaking.Base.Int.{ℤ, pos, ◌-ℤ◌, ltb_ℤ, leb_ℤ}
use gaking.Base.Table.{Table, find}
use gaking.Store.Types.{Account, Order, SettlementRecord}
use gaking.Store.Reconciliation.{Diff, DiffType, DiffStatus, AlertLevel, Side}
use gaking.Store.Session.{Tables}
use gaking.Reconcile.Query.{
  Columns, orders_of, settlements_of, withdraws_of, amount_of, users, unsettled_orders,
  orphan_settlements,
}

-- DIFF_ALERT_LEVEL_MAP
unfoldable pub alert_level_of : DiffType → AlertLevel
alert_level_of DiffType.order_settlement_mismatch = AlertLevel.warning
alert_level_of DiffType.settlement_account_mismatch = AlertLevel.critical
alert_level_of DiffType.account_withdraw_mismatch = AlertLevel.critical
alert_level_of DiffType.withdraw_transfer_mismatch = AlertLevel.critical
alert_level_of DiffType.single_side_order = AlertLevel.info
alert_level_of DiffType.single_side_settlement = AlertLevel.warning
alert_level_of DiffType.single_side_withdraw = AlertLevel.critical

-- RECONCILIATION_TOLERANCE, one cent
abbrev pub tolerance : ℤ
tolerance = pos 1

-- `abs(source_amount - target_amount)`
unfoldable pub distance : ℤ → ℤ → ℤ
distance a b = if ltb_ℤ a b then b -ℤ a else a -ℤ b

unfoldable pub build_diff : ℕ → ℕ → DiffType → Side → Side → ℤ → ℤ → Option ℕ → Option ℕ → Diff
unfolding distance alert_level_of
build_diff id u type source target a b order_id settlement_id = record {
  reconciliation_id = id;
  user_id = u;
  order_id = order_id;
  settlement_id = settlement_id;
  diff_type = type;
  source_type = source;
  target_type = target;
  source_amount = a;
  target_amount = b;
  diff_amount = distance a b;
  alert_level = alert_level_of type;
  alert_sent = false;
  status = DiffStatus.pending;
  review_user_id = none;
  review_remark = "";
  reviewed_at = none;
}

-- `_compare_amounts`, as a list of at most one difference
unfoldable pub compare_amounts : ℕ → ℕ → DiffType → Side → Side → ℤ → ℤ → List Diff
unfolding distance build_diff
compare_amounts id u type source target a b =
    if leb_ℤ (distance a b) tolerance
    then []
    else build_diff id u type source target a b none none ∷ []

-- checks 2 and 3, or the withdrawal without an account
unfoldable pub check_account : ℕ → ℕ → ℤ → ℤ → Option Account → List Diff
unfolding compare_amounts
check_account id u settled withdrawn (some a) =
    compare_amounts id u DiffType.settlement_account_mismatch Side.settlement Side.account settled
      a.total_balance
    ++ compare_amounts id u DiffType.account_withdraw_mismatch Side.account Side.withdraw
        a.cumulative_withdrawn withdrawn
check_account id u settled withdrawn none =
    if ltb_ℤ (pos 0) withdrawn
    then build_diff id u DiffType.single_side_withdraw Side.withdraw Side.account withdrawn (pos 0)
        none none
      ∷ []
    else []

unfoldable pub ordered_amount : Columns → ℕ → Tables → ℕ → ℤ
unfolding amount_of orders_of
ordered_amount c date t u =
    amount_of (λ o. o.user_id) (λ o. o.user_commission) u (orders_of c date t)

unfoldable pub settled_amount : Columns → ℕ → Tables → ℕ → ℤ
unfolding amount_of settlements_of
settled_amount c date t u =
    amount_of (λ st. st.user_id) (λ st. st.user_commission) u (settlements_of c date t)

unfoldable pub withdrawn_amount : ℕ → Tables → ℕ → ℤ
unfolding amount_of withdraws_of
withdrawn_amount date t u =
    amount_of (λ w. w.user_id) (λ w. w.actual_amount) u (withdraws_of date t)

-- the checks of one user
unfoldable pub check_user : ℕ → Columns → ℕ → Tables → ℕ → List Diff
unfolding compare_amounts check_account ordered_amount settled_amount withdrawn_amount
check_user id c date t u =
    compare_amounts id u DiffType.order_settlement_mismatch Side.order Side.settlement
      (ordered_amount c date t u) (settled_amount c date t u)
    ++ check_account id u (settled_amount c date t u) (withdrawn_amount date t u)
        (find u t.accounts)

unfoldable pub check_users : ℕ → Columns → ℕ → Tables → List ℕ → List Diff
unfolding check_user
check_users id c date t [] = []
check_users id c date t (u ∷ us) = check_user id c date t u ++ check_users id c date t us

-- `_detect_single_side_orders`
unfoldable pub order_diffs : ℕ → Table Order → List Diff
unfolding build_diff
order_diffs id [] = []
order_diffs id ((i, o) ∷ t) =
    build_diff id o.user_id DiffType.single_side_order Side.order Side.settlement o.user_commission
      (pos 0) (some i) none
    ∷ order_diffs id t

-- `_detect_single_side_settlements`
unfoldable pub settlement_diffs : ℕ → Table SettlementRecord → List Diff
unfolding build_diff
settlement_diffs id [] = []
settlement_diffs id ((i, st) ∷ t) =
    build_diff id st.user_id DiffType.single_side_settlement Side.settlement Side.order
      st.user_commission (pos 0) (some st.order_id) (some i)
    ∷ settlement_diffs id t

-- all differences of a day
unfoldable pub differences : ℕ → Columns → ℕ → Tables → List Diff
unfolding check_users users order_diffs settlement_diffs unsettled_orders orphan_settlements
differences id c date t =
    check_users id c date t (users c date t)
    ++ (order_diffs id (unsettled_orders c date t)
        ++ settlement_diffs id (orphan_settlements c date t))

unfoldable pub no_diffs : List Diff → Bool
no_diffs [] = true
no_diffs (d ∷ ds) = false

-- `matched_count`: the users without a difference
unfoldable pub matched : Columns → ℕ → Tables → List ℕ → ℕ
unfolding check_user no_diffs
matched c date t [] = 0
matched c date t (u ∷ us) =
    let rest = matched c date t us in if no_diffs (check_user 0 c date t u) then suc rest else rest

unfoldable pub is_critical : AlertLevel → Bool
is_critical AlertLevel.critical = true
is_critical _ = false

unfoldable pub critical_count : List Diff → ℕ
unfolding is_critical
critical_count [] = 0
critical_count (d ∷ ds) =
    let rest = critical_count ds in if is_critical d.alert_level then suc rest else rest
