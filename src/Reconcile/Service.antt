-- ===== src/Reconcile/Service.antt =====
-- backend/src/services/reconciliation_b13_service.py: a run with its lock, its breaker and its batch, and
-- the review of differences. The cache key that a run writes is read nowhere, and not modelled.
use gaking.Base.{
  ℕ, suc, ◌+◌, Bool, true, false, Option, none, some, List, [], ◌∷◌, not, if◌then◌else◌,
}
use gaking.Base.Int.{pos}
use gaking.Base.Table.{find, put, sum_by}
use gaking.Store.Reconciliation.{Batch, BatchStatus, ReconciliationType, Diff, DiffStatus}
use gaking.Store.Session.{
  Tables, Error, Result, ok, err, Action, ◌>>=◌, ◌>>◌, pure, raise, gets, or_raise, raise_if,
  modify, commit,
}
use gaking.Accounts.Dao.{attempt}
use gaking.Settlement.Freeze.{check_breaker, breaker_success, breaker_failure}
use gaking.Reconcile.Query.{Columns, users, orders_of, settlements_of, withdraws_of, count_of}
use gaking.Reconcile.Check.{differences, no_diffs, matched, is_critical, critical_count}
use Prim.Native.String.{String}

-- What a run finds outside of the database.
pub record ReconcileEnv : Type 0 where
  pub lock_granted : Bool
  pub now : ℕ
  pub columns : Columns

unfoldable pub length : {A : Type 0} → List A → ℕ
length [] = 0
length (x ∷ xs) = suc (length xs)

unfoldable pub order_counts : Columns → ℕ → Tables → List ℕ → ℕ
unfolding count_of orders_of
order_counts c date t [] = 0
order_counts c date t (u ∷ us) =
    count_of (λ o. o.user_id) u (orders_of c date t) + order_counts c date t us

unfoldable pub new_batch : ℕ → ReconciliationType → Option ℕ → Batch
new_batch date type operator = record {
  reconcile_date = date;
  reconcile_type = type;
  status = BatchStatus.running;
  operator_id = operator;
  user_count = 0;
  order_count = 0;
  matched_count = 0;
  diff_count = 0;
  total_order_commission = pos 0;
  total_settlement_commission = pos 0;
  total_account_balance = pos 0;
  total_withdrawn = pos 0;
}

unfoldable pub final_status : List Diff → BatchStatus
unfolding no_diffs
final_status ds = if no_diffs ds then BatchStatus.success else BatchStatus.partly

-- the columns that `update_by_id` writes at the end, from the tables that were compared
unfoldable pub closed : Columns → ℕ → Tables → List Diff → Batch → Batch
unfolding final_status length users order_counts matched orders_of settlements_of withdraws_of
    sum_by
closed c date t ds b =
    let us = users c date t in
    record b {
      status = final_status ds;
      user_count = length us;
      order_count = order_counts c date t us;
      matched_count = matched c date t us;
      diff_count = length ds;
      total_order_commission = sum_by (λ o. o.user_commission) (orders_of c date t);
      total_settlement_commission = sum_by (λ st. st.user_commission) (settlements_of c date t);
      total_account_balance = sum_by (λ a. a.total_balance) t.accounts;
      total_withdrawn = sum_by (λ w. w.actual_amount) (withdraws_of date t);
    }

-- `record_dao.create`
unfoldable pub create_batch : Batch → Action ℕ
create_batch b = do
  id ← gets (λ t. t.next_batch)
  modify (λ t. record t { batches = put t.next_batch b t.batches; next_batch = suc t.next_batch })
  commit
  pure id

unfoldable pub add_diffs : List Diff → Tables → Tables
add_diffs [] t = t
add_diffs (d ∷ ds) t =
    add_diffs ds (record t { diffs = put t.next_diff d t.diffs; next_diff = suc t.next_diff })

-- `_send_alert`: the mark on the dict of a difference
unfoldable pub send_alert : Diff → Diff
send_alert d = record d { alert_sent = true }

unfoldable pub send_alerts : List Diff → List Diff
unfolding send_alert
send_alerts [] = []
send_alerts (d ∷ ds) = (if is_critical d.alert_level then send_alert d else d) ∷ send_alerts ds

-- `if diffs: batch_create(diffs)`, and the alerts: the dicts as they are then. The rows were made of them
-- before.
unfoldable pub save_diffs : List Diff → Action (List Diff)
unfolding add_diffs send_alerts
save_diffs [] = pure []
save_diffs (d ∷ ds) = modify (add_diffs (d ∷ ds)) >> commit >> pure (send_alerts (d ∷ ds))

unfoldable pub close_batch : ℕ → (Batch → Batch) → Option Batch → Action (Unit {0})
close_batch id f none = pure tt
close_batch id f (some b) = modify (λ t. record t { batches = put id (f b) t.batches }) >> commit

-- What a run returns.
pub record Report : Type 0 where
  pub reconciliation_id : ℕ
  pub status : BatchStatus
  pub diff_count : ℕ
  pub critical_diff_count : ℕ

-- steps 5 to 7, on the tables as they are compared
unfoldable pub settle_batch : Columns → ℕ → ℕ → Tables → Action Report
unfolding differences closed save_diffs close_batch critical_count
settle_batch c date id t = do
  let ds = differences id c date t
  dicts ← save_diffs ds
  row ← gets (λ t. find id t.batches)
  close_batch id (closed c date t ds) row
  pure (record {
    reconciliation_id = id;
    status = final_status ds;
    diff_count = length ds;
    critical_diff_count = critical_count dicts;
  })

unfoldable pub reconcile_body : ReconcileEnv → ℕ → ReconciliationType → Option ℕ → Action Report
unfolding check_breaker create_batch new_batch settle_batch
reconcile_body env date type operator = do
  check_breaker env.now
  id ← create_batch (new_batch date type operator)
  t ← gets (λ t. t)
  report ← settle_batch env.columns date id t
  breaker_success env.now
  pure report

-- The batch is to be marked as FAILED. The call names an argument, reconcile_date, that the DAO does not
-- have, and the TypeError is dropped.
unfoldable pub mark_failed : Action (Result (Unit {0}))
mark_failed = attempt (raise Error.unexpected_argument)

unfoldable pub or_failed : ReconcileEnv → Result Report → Action Report
unfolding mark_failed
or_failed env (ok r) s = (ok r, s)
or_failed env (err e) s = (mark_failed >> raise e) (breaker_failure env.now s)

unfoldable pub run_reconciliation : ReconcileEnv → ℕ → ReconciliationType → Option ℕ → Action Report
unfolding reconcile_body or_failed
run_reconciliation env date type operator = do
  raise_if (not env.lock_granted) Error.busy
  r ← attempt (reconcile_body env date type operator)
  or_failed env r

unfoldable pub retry_reconciliation : ReconcileEnv → ℕ → ℕ → Action Report
unfolding run_reconciliation
retry_reconciliation env id operator = do
  b ← or_raise (← gets (λ t. find id t.batches)) Error.row_missing
  run_reconciliation env b.reconcile_date ReconciliationType.manual (some operator)

-- DIFF_TRANSITIONS
unfoldable pub allows : DiffStatus → DiffStatus → Bool
allows DiffStatus.pending DiffStatus.reviewing = true
allows DiffStatus.pending DiffStatus.resolved = true
allows DiffStatus.pending DiffStatus.ignored = true
allows DiffStatus.reviewing DiffStatus.resolved = true
allows DiffStatus.reviewing DiffStatus.ignored = true
allows _ _ = false

-- DIFF_TERMINAL_STATES
unfoldable pub is_terminal : DiffStatus → Bool
is_terminal DiffStatus.resolved = true
is_terminal DiffStatus.ignored = true
is_terminal _ = false

unfoldable pub reviewed : DiffStatus → String → ℕ → ℕ → Diff → Diff
unfolding is_terminal
reviewed action remark operator now d = record d {
  status = action;
  review_user_id = some operator;
  review_remark = remark;
  reviewed_at = if is_terminal action then some now else d.reviewed_at;
}

unfoldable pub review_diff : ℕ → DiffStatus → String → ℕ → ℕ → Action DiffStatus
unfolding is_terminal allows reviewed
review_diff id action remark operator now = do
  d ← or_raise (← gets (λ t. find id t.diffs)) Error.row_missing
  raise_if (is_terminal d.status) Error.terminal_status
  raise_if (not (allows d.status action)) Error.illegal_transition
  modify (λ t. record t { diffs = put id (reviewed action remark operator now d) t.diffs })
  commit
  pure action
