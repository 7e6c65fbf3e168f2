-- ===== src/Tests/Data.antt =====
-- A user with two hundred yuan in an application that is pending and fifty in a frozen commission.
use gaking.Base.{ℕ, none, some, [], ◌∷◌}
use gaking.Base.Int.{pos}
use gaking.Store.Types.{
  Account, WithdrawApply, WithdrawStatus, Order, SettlementRecord, CommissionFlow, FlowType,
  TransferStatus,
}
use gaking.Store.Session.{Tables, Session}
use gaking.Breaker.Circuit.{Keys}
use gaking.Settlement.Machine.{settlable, value}

abbrev pub alice : Account
alice = record {
  user_id = 1;
  total_balance = pos 100000;
  available_balance = pos 75000;
  frozen_balance = pos 25000;
  cumulative_withdrawn = pos 0;
  cumulative_fee = pos 0;
  last_settle_date = none;
  version = 3;
}

abbrev pub apply_of : WithdrawStatus → WithdrawApply
apply_of st = record {
  apply_no = "W7";
  user_id = 1;
  apply_amount = pos 20000;
  fee = pos 100;
  actual_amount = pos 19900;
  status = st;
  review_user_id = none;
  review_remark = "";
  review_time = none;
  transfer_batch_id = "";
  transfer_time = none;
  reject_reason = "";
  create_time = 50;
}

abbrev pub order_of : ℕ → Order
order_of st = record {
  user_id = 1;
  out_order_no = "O9";
  internal_order_no = "G9";
  total_commission = pos 5000;
  user_commission = pos 4000;
  platform_commission = pos 1000;
  channel_code = "myq";
  order_status = st;
  pay_time = none;
  settle_time = none;
}

abbrev pub held_record : SettlementRecord
held_record = record {
  settlement_no = "S1";
  order_id = 8;
  user_id = 1;
  total_commission = pos 6250;
  user_commission = pos 5000;
  platform_commission = pos 1250;
  settlement_status = value settlable;
  flow_id = some 4;
  confirm_time = some 40;
  settle_time = none;
  paid_time = none;
  delay_days = 30;
}

abbrev pub flow_of : ℕ → TransferStatus → CommissionFlow
flow_of order_id st = record {
  order_id = order_id;
  user_id = 1;
  flow_type = FlowType.order;
  amount = pos 5000;
  before_balance = pos 75000;
  after_balance = pos 75000;
  transfer_batch_id = "S1";
  transfer_status = st;
}

abbrev pub tables_of : WithdrawStatus → ℕ → TransferStatus → Tables
tables_of st order_status transfer = record {
  accounts = (1, alice) ∷ [];
  applies = (7, apply_of st) ∷ [];
  next_apply = 8;
  flows = (4, flow_of 8 transfer) ∷ [];
  next_flow = 5;
  orders = (8, order_of order_status) ∷ (9, order_of order_status) ∷ [];
  next_order = 10;
  settlements = (3, held_record) ∷ [];
  next_settlement = 4;
  order_logs = [];
  review_logs = [];
  settlement_logs = [];
  abnormal_orders = [];
  clicks = [];
  validation_logs = [];
  refund_logs = [];
  reverse_records = [];
  next_reverse = 1;
  batches = [];
  next_batch = 1;
  diffs = [];
  next_diff = 1;
}

abbrev pub fresh_keys : Keys
fresh_keys = record { state = none; fail_count = none; opened_at = none }

abbrev pub session_of : Tables → Session
session_of t = record {
  committed = t;
  working = t;
  cache = [];
  daily_used = [];
  breaker = fresh_keys;
  faults = [];
}

-- with an application that is pending, orders that are FROZEN, and a flow that is pending
abbrev pub session : Session
session = session_of (tables_of WithdrawStatus.pending 20 TransferStatus.pending)
