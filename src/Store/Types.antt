-- ===== src/Store/Types.antt =====
-- The rows of the tables: the columns of models/business/*.py that the services read or write.
-- Amounts are whole cents (`Numeric(10, 2)`), times are counts of seconds, dates counts of days.
use gaking.Base.{ℕ, Option, Bool, List}
use gaking.Base.Int.{ℤ}
use Prim.Native.String.{String}

-- config/constants.py, `WithdrawStatus`
pub data WithdrawStatus : Type 0 where
  pending approved processing success rejected : WithdrawStatus

-- config/constants.py, `TransferStatus`
pub data TransferStatus : Type 0 where
  pending processing success failed : TransferStatus

-- the `FLOW_TYPE_*` constants of dao/commission_settlement_dao.py, and the flows of other modules
pub data FlowType : Type 0 where
  order supplement deduct : FlowType

-- A Python value of a status column: what was assigned to it, or what the driver read.
pub data ColumnValue : Type 0 where
  num : ℕ → ColumnValue
  str : String → ColumnValue

-- user_commission_account
pub record Account : Type 0 where
  pub user_id : ℕ
  pub total_balance : ℤ
  pub available_balance : ℤ
  pub frozen_balance : ℤ
  pub cumulative_withdrawn : ℤ
  pub cumulative_fee : ℤ
  pub last_settle_date : Option ℕ
  pub version : ℕ

-- user_withdraw_apply
pub record WithdrawApply : Type 0 where
  pub apply_no : String
  pub user_id : ℕ
  pub apply_amount : ℤ
  pub fee : ℤ
  pub actual_amount : ℤ
  pub status : WithdrawStatus
  pub review_user_id : Option ℕ
  pub review_remark : String
  pub review_time : Option ℕ
  pub transfer_batch_id : String
  pub transfer_time : Option ℕ
  pub reject_reason : String
  pub create_time : ℕ

-- commission_flow
pub record CommissionFlow : Type 0 where
  pub order_id : ℕ
  pub user_id : ℕ
  pub flow_type : FlowType
  pub amount : ℤ
  pub before_balance : ℤ
  pub after_balance : ℤ
  pub transfer_batch_id : String
  pub transfer_status : TransferStatus

-- orders
pub record Order : Type 0 where
  pub user_id : ℕ
  pub out_order_no : String
  pub internal_order_no : String
  pub total_commission : ℤ
  pub user_commission : ℤ
  pub platform_commission : ℤ
  pub channel_code : String
  pub order_status : ℕ
  pub pay_time : Option ℕ
  pub settle_time : Option ℕ

-- settlement_record; `settlement_status` is declared `String(32)`
pub record SettlementRecord : Type 0 where
  pub settlement_no : String
  pub order_id : ℕ
  pub user_id : ℕ
  pub total_commission : ℤ
  pub user_commission : ℤ
  pub platform_commission : ℤ
  pub settlement_status : ColumnValue
  pub flow_id : Option ℕ
  pub confirm_time : Option ℕ
  pub settle_time : Option ℕ
  pub paid_time : Option ℕ
  pub delay_days : ℕ

-- order_operation_log
pub record OrderOperationLog : Type 0 where
  pub order_id : ℕ
  pub order_status_from : ℕ
  pub order_status_to : ℕ
  pub operation_type : String
  pub operator_id : ℕ
  pub operator_name : String
  pub remark : String

-- withdraw_review_log
pub record WithdrawReviewLog : Type 0 where
  pub apply_id : ℕ
  pub from_status : WithdrawStatus
  pub to_status : WithdrawStatus
  pub action : String
  pub operator_id : Option ℕ
  pub remark : String
  pub transfer_batch_id : String

-- settlement_operation_log
pub record SettlementOperationLog : Type 0 where
  pub settlement_id : ℕ
  pub order_id : ℕ
  pub from_status : ℕ
  pub to_status : ℕ
  pub action : String
  pub amount : ℤ
  pub operator_id : Option ℕ
  pub flow_id : Option ℕ

-- abnormal_order: an order that no strategy gave to a user
pub record AbnormalOrder : Type 0 where
  pub out_order_no : String
  pub channel_code : String
  pub abnormal_reason : String
  pub matched_user_id : ℕ
  pub review_status : String

-- click_log
pub record ClickLog : Type 0 where
  pub goods_id : String
  pub source_channel : String
  pub user_id : ℕ
  pub short_key : String
  pub access_time : ℕ

-- One test of a validation, without the texts that explain it.
pub record CheckItem : Type 0 where
  pub name : String
  pub passed : Bool

-- commission_flow_validation_log
pub record ValidationLog : Type 0 where
  pub order_id : ℕ
  pub user_id : ℕ
  pub validation_type : String
  pub validation_result : Bool
  pub check_items : List CheckItem
  pub operator_id : ℕ

-- order_refund_operation_log
pub record RefundLog : Type 0 where
  pub order_id : ℕ
  pub operator_id : ℕ
  pub operation_type : String
  pub order_status_before : ℕ
  pub order_status_after : ℕ
  pub deduct_amount : ℤ
  pub flow_transfer_status : TransferStatus
  pub old_available_balance : ℤ
  pub new_available_balance : ℤ
  pub old_total_balance : ℤ
  pub new_total_balance : ℤ
  pub deduct_flow_id : Option ℕ

-- config/b07_1_constants.py, `ReverseCommissionStatus`
pub data ReverseStatus : Type 0 where
  identified frozen clawback_done failed adjusted : ReverseStatus

-- gaking_reverse_commission_record
pub record ReverseRecord : Type 0 where
  pub order_id : ℕ
  pub out_order_no : String
  pub user_id : ℕ
  pub channel_code : String
  pub original_commission : ℤ
  pub deducted_amount : ℤ
  pub flow_transfer_status : TransferStatus
  pub status : ReverseStatus
  pub retry_count : ℕ
  pub max_retry : ℕ
  pub deduct_flow_id : Option ℕ
  pub operator_id : ℕ
  pub operator_name : String
