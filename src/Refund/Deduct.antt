-- ===== src/Refund/Deduct.antt =====
-- backend/src/services/refund_deduction_service.py: the tests, the deduction and its log.
use gaking.Base.{ℕ, Bool, true, false, Option, none, some, [], ◌∷◌, not}
use gaking.Base.Int.{ℤ, pos, ◌-ℤ◌}
use gaking.Base.Table.{find, put}
use gaking.Store.Types.{Account, Order, CommissionFlow, TransferStatus, RefundLog}
use gaking.Store.Session.{
  Error, Action, ◌>>=◌, ◌>>◌, pure, gets, or_raise, raise_if, modify, commit, commit_bare,
}
use gaking.Orders.Status
use gaking.Settlement.Settle.{flows_of, is_order_flow, is_deduct_flow}
use gaking.Settlement.Atomic.{deduct_on_refund_atomic, is_pending_transfer}
use gaking.Refund.Validate.{Flows, pre_validate_deduct}

-- RefundDeductionExecuteResponse
pub record Deduction : Type 0 where
  pub deduct_flow_id : Option ℕ
  pub deduct_amount : ℤ
  pub old_available_balance : ℤ
  pub new_available_balance : ℤ

pub data Response : Type 0 where
  skipped : Response
  success : Deduction → Response

-- `available_balance` and `total_balance`, 0 without an account
unfoldable pub balances : Option Account → ℤ × ℤ
balances none = (pos 0, pos 0)
balances (some a) = (a.available_balance, a.total_balance)

-- the balances after the deduction; without an account the available one counts as unchanged
unfoldable pub balances_after : ℤ → ℤ × ℤ → Option Account → ℤ × ℤ
balances_after amount (available, total) none = (available, total -ℤ amount)
balances_after amount old (some a) = (a.available_balance, a.total_balance)

-- `create_log`
unfoldable pub create_log : RefundLog → Action (Unit {0})
create_log e = modify (λ t. record t { refund_logs = e ∷ t.refund_logs }) >> commit_bare

unfoldable pub log_entry : ℕ → ℕ → Order → ℤ → TransferStatus → ℤ × ℤ → ℤ × ℤ → Option ℕ → RefundLog
unfolding Status.value
log_entry order_id operator o amount status old new flow_id = record {
  order_id = order_id;
  operator_id = operator;
  operation_type = "DEDUCT";
  order_status_before = o.order_status;
  order_status_after = Status.value Status.refunded;
  deduct_amount = amount;
  flow_transfer_status = status;
  old_available_balance = old.0;
  new_available_balance = new.0;
  old_total_balance = old.1;
  new_total_balance = new.1;
  deduct_flow_id = flow_id;
}

-- `order_dao.update_by_id(order_id, {"order_status": REFUNDED})`
unfoldable pub set_refunded : ℕ → Option Order → Action (Unit {0})
unfolding Status.value
set_refunded order_id none = pure tt
set_refunded order_id (some o) = do
  modify (λ t. record t {
    orders = put order_id (record o { order_status = Status.value Status.refunded }) t.orders;
  })
  commit

-- the order and the log, after a deduction
unfoldable pub log_deduction : RefundLog → Response → Action Response
unfolding create_log
log_deduction e r = create_log e >> pure r

unfoldable pub answer_pending : ℕ → ℕ → Order → CommissionFlow → ℤ × ℤ → Action Response
unfolding log_entry log_deduction
answer_pending order_id operator o f old =
    log_deduction (log_entry order_id operator o f.amount TransferStatus.failed old old none) (
      success (record {
        deduct_flow_id = none;
        deduct_amount = f.amount;
        old_available_balance = old.0;
        new_available_balance = old.0;
      }))

unfoldable pub finish_pending :
    ℕ → ℕ → Order → CommissionFlow → ℤ × ℤ → Option Order → Action Response
unfolding set_refunded answer_pending
finish_pending order_id operator o f old row =
    set_refunded order_id row >> answer_pending order_id operator o f old

-- The flow is still pending. It is read again for the log, and has been marked as failed by then.
unfoldable pub execute_pending : ℕ → ℕ → Order → ℕ → CommissionFlow → ℤ × ℤ → Action Response
unfolding finish_pending
execute_pending order_id operator o flow_id f old = do
  _ ← deduct_on_refund_atomic order_id o flow_id f
  row ← gets (λ t. find order_id t.orders)
  finish_pending order_id operator o f old row

unfoldable pub finish_arrived :
    ℕ → ℕ → Order → CommissionFlow → ℤ × ℤ → ℕ → Option Account → Action Response
unfolding balances_after log_entry log_deduction
finish_arrived order_id operator o f old id account =
    let new = balances_after f.amount old account in
    log_deduction (log_entry order_id operator o f.amount f.transfer_status old new (some id)) (
      success (record {
        deduct_flow_id = some id;
        deduct_amount = f.amount;
        old_available_balance = old.0;
        new_available_balance = new.0;
      }))

-- what follows the deduction of an arrived amount
unfoldable pub read_arrived : ℕ → ℕ → Order → CommissionFlow → ℤ × ℤ → Option ℕ → Action Response
unfolding finish_arrived
read_arrived order_id operator o f old deduct_flow_id = do
  id ← or_raise deduct_flow_id Error.flow_missing
  account ← gets (λ t. find o.user_id t.accounts)
  finish_arrived order_id operator o f old id account

unfoldable pub execute_arrived : ℕ → ℕ → Order → ℕ → CommissionFlow → ℤ × ℤ → Action Response
unfolding read_arrived
execute_arrived order_id operator o flow_id f old =
    deduct_on_refund_atomic order_id o flow_id f >>= read_arrived order_id operator o f old

unfoldable pub execute_branch : Bool → ℕ → ℕ → Order → ℕ → CommissionFlow → ℤ × ℤ → Action Response
unfolding execute_pending execute_arrived
execute_branch true order_id operator o flow_id f old =
    execute_pending order_id operator o flow_id f old
execute_branch false order_id operator o flow_id f old =
    execute_arrived order_id operator o flow_id f old

-- steps 2 to 4: the two early returns, and the deduction of the first flow
unfoldable pub execute_first : ℕ → ℕ → Order → Flows → Flows → Action Response
unfolding execute_branch balances is_pending_transfer
execute_first order_id operator o [] deduct_flows = pure skipped
execute_first order_id operator o (f ∷ fs) (d ∷ ds) = pure skipped
execute_first order_id operator o (f ∷ fs) [] = do
  account ← gets (λ t. find o.user_id t.accounts)
  execute_branch (is_pending_transfer f.1.transfer_status) order_id operator o f.0 f.1
      (balances account)

unfoldable pub execute_checked : ℕ → ℕ → Action Response
unfolding execute_first flows_of is_order_flow is_deduct_flow
execute_checked order_id operator = do
  o ← or_raise (← gets (λ t. find order_id t.orders)) Error.order_missing
  order_flows ← gets (flows_of is_order_flow order_id)
  deduct_flows ← gets (flows_of is_deduct_flow order_id)
  execute_first order_id operator o order_flows deduct_flows

unfoldable pub execute_refund_deduction : ℕ → ℕ → Action Response
unfolding execute_checked
execute_refund_deduction order_id operator = do
  v ← pre_validate_deduct order_id operator
  raise_if (not v.validation_result) Error.validation_failed
  raise_if (not v.usable) Error.session_inactive
  execute_checked order_id operator
