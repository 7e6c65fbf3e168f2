-- ===== src/Settlement/Atomic.antt =====
-- The single-transaction methods: freeze_atomic and unfreeze_atomic of
-- backend/src/dao/settlement_atomic_dao.py, settle_order_commission_atomic and
-- deduct_on_refund_atomic of backend/src/dao/commission_settlement_dao.py.
use gaking.Base.{ℕ, suc, ◌+◌, Bool, true, false, Option, none, some, if◌then◌else◌}
use gaking.Base.Int.{ℤ, pos, ◌+ℤ◌, ◌-ℤ◌, ltb_ℤ, leb_ℤ}
use gaking.Base.Table.{find, put}
use gaking.Store.Types.{Account, Order, CommissionFlow, SettlementRecord, FlowType, TransferStatus}
use gaking.Store.Session.{
  Error, Action, ◌>>=◌, ◌>>◌, pure, gets, or_raise, raise_if, modify, commit,
  invalidate_account_cache,
}
use gaking.Accounts.Dao.{get_or_create_account_for_update}
use gaking.Settlement.Machine.{settlable, settled, value}
use Prim.Native.String.{String}

abbrev pub frozen_more : Account → ℤ → Account
frozen_more a amount = record a {
  frozen_balance = a.frozen_balance +ℤ amount;
  total_balance = a.total_balance +ℤ amount;
  version = a.version + 1;
}

unfoldable pub new_settlement : ℕ → Order → ℤ → ℤ → String → ℕ → ℕ → ℕ → SettlementRecord
unfolding value
new_settlement order_id o user_commission platform_commission number delay_days flow_id now =
    record {
      settlement_no = number;
      order_id = order_id;
      user_id = o.user_id;
      total_commission = o.total_commission;
      user_commission = user_commission;
      platform_commission = platform_commission;
      settlement_status = value settlable;
      flow_id = some flow_id;
      confirm_time = some now;
      settle_time = none;
      paid_time = none;
      delay_days = delay_days;
    }

unfoldable pub frozen_flow : ℕ → Order → ℤ → ℤ → String → CommissionFlow
frozen_flow order_id o amount available number = record {
  order_id = order_id;
  user_id = o.user_id;
  flow_type = FlowType.order;
  amount = amount;
  before_balance = available;
  after_balance = available;
  transfer_batch_id = number;
  transfer_status = TransferStatus.pending;
}

-- Returns the ids of the settlement record and of the flow.
unfoldable pub freeze_atomic : ℕ → Order → ℤ → ℤ → String → ℕ → ℕ → Action (ℕ × ℕ)
unfolding get_or_create_account_for_update new_settlement frozen_flow commit
freeze_atomic order_id o amount platform number delay_days now = do
  raise_if (leb_ℤ amount (pos 0)) Error.amount_not_positive
  account ← get_or_create_account_for_update o.user_id
  ids ← gets (λ t. (t.next_settlement, t.next_flow))
  modify (λ t. record t {
    settlements =
        put t.next_settlement
          (new_settlement order_id o amount platform number delay_days t.next_flow now)
          t.settlements;
    next_settlement = suc t.next_settlement;
    flows =
        put t.next_flow (frozen_flow order_id o amount account.available_balance number) t.flows;
    next_flow = suc t.next_flow;
    accounts = put o.user_id (frozen_more account amount) t.accounts;
  })
  commit
  invalidate_account_cache o.user_id
  pure ids

abbrev pub unfrozen : Account → ℤ → Account
unfrozen a amount = record a {
  frozen_balance = a.frozen_balance -ℤ amount;
  available_balance = a.available_balance +ℤ amount;
  version = a.version + 1;
}

unfoldable pub arrived_flow : CommissionFlow → ℤ → ℤ → CommissionFlow
arrived_flow f available amount = record f {
  transfer_status = TransferStatus.success;
  before_balance = available;
  after_balance = available +ℤ amount;
}

unfoldable pub settled_record : SettlementRecord → ℕ → SettlementRecord
unfolding value
settled_record st now = record st { settlement_status = value settled; settle_time = some now }

-- The record is given with its id.
unfoldable pub unfreeze_atomic : ℕ → SettlementRecord → ℕ → Action (SettlementRecord × ℕ)
unfolding get_or_create_account_for_update arrived_flow settled_record commit
unfreeze_atomic settlement_id st now = do
  account ← get_or_create_account_for_update st.user_id
  flow_id ← or_raise st.flow_id Error.flow_missing
  flow ← or_raise (← gets (λ t. find flow_id t.flows)) Error.flow_missing
  raise_if (ltb_ℤ account.frozen_balance st.user_commission) Error.frozen_short
  modify (λ t. record t {
    accounts = put st.user_id (unfrozen account st.user_commission) t.accounts;
    flows = put flow_id (arrived_flow flow account.available_balance st.user_commission) t.flows;
    settlements = put settlement_id (settled_record st now) t.settlements;
  })
  commit
  invalidate_account_cache st.user_id
  pure (settled_record st now, flow_id)

abbrev pub earned : Account → ℤ → Account
earned a amount = record a {
  available_balance = a.available_balance +ℤ amount;
  total_balance = a.total_balance +ℤ amount;
  version = a.version + 1;
}

unfoldable pub order_flow : ℕ → Order → ℤ → ℤ → String → CommissionFlow
order_flow order_id o amount available batch = record {
  order_id = order_id;
  user_id = o.user_id;
  flow_type = FlowType.order;
  amount = amount;
  before_balance = available;
  after_balance = available +ℤ amount;
  transfer_batch_id = batch;
  transfer_status = TransferStatus.success;
}

unfoldable pub settle_order_commission_atomic : ℕ → Order → ℤ → String → Action ℕ
unfolding get_or_create_account_for_update order_flow commit
settle_order_commission_atomic order_id o amount batch = do
  raise_if (leb_ℤ amount (pos 0)) Error.amount_not_positive
  account ← get_or_create_account_for_update o.user_id
  flow_id ← gets (λ t. t.next_flow)
  modify (λ t. record t {
    flows = put t.next_flow (order_flow order_id o amount account.available_balance batch) t.flows;
    next_flow = suc t.next_flow;
    accounts = put o.user_id (earned account amount) t.accounts;
  })
  commit
  invalidate_account_cache o.user_id
  pure flow_id

unfoldable pub is_pending_transfer : TransferStatus → Bool
is_pending_transfer TransferStatus.pending = true
is_pending_transfer _ = false

abbrev pub deducted : Account → ℤ → Account
deducted a amount = record a {
  available_balance = a.available_balance -ℤ amount;
  total_balance = a.total_balance -ℤ amount;
  version = a.version + 1;
}

unfoldable pub deduct_flow : ℕ → Order → ℤ → ℤ → CommissionFlow
deduct_flow order_id o amount available = record {
  order_id = order_id;
  user_id = o.user_id;
  flow_type = FlowType.deduct;
  amount = amount;
  before_balance = available;
  after_balance = available -ℤ amount;
  transfer_batch_id = "";
  transfer_status = TransferStatus.success;
}

-- the branch of a flow that is still pending: no balance is touched
unfoldable pub deduct_pending : ℕ → CommissionFlow → Order → Action (Option ℕ)
unfolding commit
deduct_pending flow_id f o = do
  modify (λ t. record t {
    flows = put flow_id (record f { transfer_status = TransferStatus.failed }) t.flows;
  })
  commit
  invalidate_account_cache o.user_id
  pure none

unfoldable pub deduct_arrived : ℕ → Order → ℤ → Action (Option ℕ)
unfolding get_or_create_account_for_update deduct_flow commit
deduct_arrived order_id o amount = do
  account ← get_or_create_account_for_update o.user_id
  raise_if (ltb_ℤ (account.available_balance -ℤ amount) (pos 0)) Error.overdraft
  flow_id ← gets (λ t. t.next_flow)
  modify (λ t. record t {
    flows = put t.next_flow (deduct_flow order_id o amount account.available_balance) t.flows;
    next_flow = suc t.next_flow;
    accounts = put o.user_id (deducted account amount) t.accounts;
  })
  commit
  invalidate_account_cache o.user_id
  pure (some flow_id)

-- The original flow is given with its id; returns the id of the deduction, if there is one.
unfoldable pub deduct_on_refund_atomic : ℕ → Order → ℕ → CommissionFlow → Action (Option ℕ)
unfolding is_pending_transfer
deduct_on_refund_atomic order_id o flow_id f =
    if is_pending_transfer f.transfer_status
    then deduct_pending flow_id f o
    else deduct_arrived order_id o f.amount
