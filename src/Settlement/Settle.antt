-- ===== src/Settlement/Settle.antt =====
-- `settle_single_order`, `process_single_refund` and their batches, of
-- backend/src/services/commission_settlement_service.py. `split_of` is what `_resolve_split` returns
-- or raises for an order.
use gaking.Base.{ℕ, ◌+◌, Bool, true, false, Option, List, [], ◌∷◌, not, ◌==◌, ◌&&◌, if◌then◌else◌}
use gaking.Base.Int.{ℤ, ltb_ℤ}
use gaking.Base.Table.{find, put, rows_where}
use gaking.Store.Types.{Order, CommissionFlow, FlowType, TransferStatus}
use gaking.Store.Session.{
  Tables, Error, Result, ok, err, Action, ◌>>=◌, ◌>>◌, pure, raise, gets, or_raise, raise_if,
  modify, commit,
}
use gaking.Accounts.Dao.{attempt}
use gaking.Orders.Status
use gaking.Settlement.Rules.{CommissionSplit, CommissionResult, calculate}
use gaking.Settlement.Atomic.{settle_order_commission_atomic, deduct_on_refund_atomic}
use Prim.Native.String.{String}

unfoldable pub is_order_flow : FlowType → Bool
is_order_flow FlowType.order = true
is_order_flow _ = false

unfoldable pub is_deduct_flow : FlowType → Bool
is_deduct_flow FlowType.deduct = true
is_deduct_flow _ = false

unfoldable pub is_arrived : TransferStatus → Bool
is_arrived TransferStatus.success = true
is_arrived _ = false

-- the flows of an order that pass a test of their type, oldest first
unfoldable pub flows_of : (FlowType → Bool) → ℕ → Tables → List (ℕ × CommissionFlow)
flows_of p order_id t = rows_where (λ f. f.order_id == order_id && p f.flow_type) t.flows

-- The dictionary that a call returns.
pub data SettleOutcome : Type 0 where
  skipped : SettleOutcome
  settled_flow : ℕ → ℤ → SettleOutcome
  deducted_flow : Option ℕ → ℤ → SettleOutcome

-- `order_flows[0].transfer_status == TRANSFER_STATUS_SUCCESS`, false without a flow
unfoldable pub has_arrived : List (ℕ × CommissionFlow) → Bool
unfolding is_arrived
has_arrived [] = false
has_arrived (f ∷ fs) = is_arrived f.1.transfer_status

lift : {A : Type 0} → Result A → Action A
lift (ok a) = pure a
lift (err e) = raise e

same_amount : ℤ → ℤ → Bool
same_amount a b = not (ltb_ℤ a b) && not (ltb_ℤ b a)

unfoldable pub with_commission : CommissionResult → Order → Order
with_commission result o = record o {
  user_commission = result.user_commission;
  platform_commission = result.platform_commission;
}

-- the order's commission columns are brought in line, in a transaction of their own
calibrate : ℕ → Order → CommissionResult → Action Order
unfolding same_amount with_commission commit
calibrate order_id o result =
    if same_amount o.user_commission result.user_commission then pure o else (do
      modify (λ t. record t { orders = put order_id (with_commission result o) t.orders })
      commit
      pure (with_commission result o))

settle_rest : Result CommissionSplit → ℕ → Order → String → Action SettleOutcome
unfolding lift calibrate
settle_rest split order_id o batch = do
  rates ← lift split
  let result = calculate o.total_commission rates
  row ← calibrate order_id o result
  flow_id ← settle_order_commission_atomic order_id row result.user_commission batch
  pure (settled_flow flow_id result.user_commission)

module _ (split_of : Order → Result CommissionSplit) where
  unfoldable pub settle_single_order : ℕ → String → Action SettleOutcome
  unfolding flows_of is_order_flow has_arrived settle_rest Status.value
  settle_single_order order_id batch = do
    o ← or_raise (← gets (λ t. find order_id t.orders)) Error.order_missing
    raise_if (not (o.order_status == Status.value Status.settled)) Error.order_status
    order_flows ← gets (flows_of is_order_flow order_id)
    if has_arrived order_flows then pure skipped else settle_rest (split_of o) order_id o batch

deduct_first : List (ℕ × CommissionFlow) → Bool → ℕ → Order → Action SettleOutcome
deduct_first [] any order_id o = pure skipped
deduct_first (f ∷ fs) true order_id o = pure skipped
deduct_first (f ∷ fs) false order_id o = do
  flow_id ← deduct_on_refund_atomic order_id o f.0 f.1
  pure (deducted_flow flow_id f.1.amount)

is_nonempty : {A : Type 0} → List A → Bool
is_nonempty [] = false
is_nonempty (x ∷ xs) = true

unfoldable pub process_single_refund : ℕ → Action SettleOutcome
unfolding flows_of is_order_flow is_deduct_flow deduct_first is_nonempty Status.value
process_single_refund order_id = do
  o ← or_raise (← gets (λ t. find order_id t.orders)) Error.order_missing
  raise_if (not (o.order_status == Status.value Status.refunded)) Error.order_status
  order_flows ← gets (flows_of is_order_flow order_id)
  deduct_flows ← gets (flows_of is_deduct_flow order_id)
  deduct_first order_flows (is_nonempty deduct_flows) order_id o

-- The counters of a batch.
pub record BatchResult : Type 0 where
  pub total : ℕ
  pub success_count : ℕ
  pub failed_count : ℕ
  pub skipped_count : ℕ

unfoldable pub count : Result SettleOutcome → BatchResult → BatchResult
count (ok skipped) b = record b { skipped_count = b.skipped_count + 1 }
count (ok _) b = record b { success_count = b.success_count + 1 }
count (err e) b = record b { failed_count = b.failed_count + 1 }

-- the loop of both batches over the orders that the query gave: a call that raises is counted
unfoldable pub run_batch : (ℕ → Action SettleOutcome) → List ℕ → BatchResult → Action BatchResult
unfolding count
run_batch call [] b = pure b
run_batch call (i ∷ is) b = do r ← attempt (call i); run_batch call is (count r b)
