-- ===== src/Store/Reconciliation.antt =====
-- The rows of a reconciliation: backend/src/models/business/reconciliation_record_model.py and
-- reconciliation_diff_model.py, with the texts of config/b13_constants.py as data. Remarks, the times of a
-- batch and its number are not modelled.
use gaking.Base.{ℕ, Bool, Option}
use gaking.Base.Int.{ℤ}
use Prim.Native.String.{String}

-- ReconciliationStatus
pub data BatchStatus : Type 0 where
  pending running success partly failed : BatchStatus

pub data ReconciliationType : Type 0 where
  daily manual : ReconciliationType

pub data DiffType : Type 0 where
  order_settlement_mismatch settlement_account_mismatch account_withdraw_mismatch : DiffType
  withdraw_transfer_mismatch : DiffType
  single_side_order single_side_settlement single_side_withdraw : DiffType

-- SOURCE_TYPE_…
pub data Side : Type 0 where
  order settlement account withdraw : Side

pub data AlertLevel : Type 0 where
  info warning critical : AlertLevel

pub data DiffStatus : Type 0 where
  pending reviewing resolved ignored : DiffStatus

-- ReconciliationRecord
pub record Batch : Type 0 where
  pub reconcile_date : ℕ
  pub reconcile_type : ReconciliationType
  pub status : BatchStatus
  pub operator_id : Option ℕ
  pub user_count : ℕ
  pub order_count : ℕ
  pub matched_count : ℕ
  pub diff_count : ℕ
  pub total_order_commission : ℤ
  pub total_settlement_commission : ℤ
  pub total_account_balance : ℤ
  pub total_withdrawn : ℤ

-- ReconciliationDiff
pub record Diff : Type 0 where
  pub reconciliation_id : ℕ
  pub user_id : ℕ
  pub order_id : Option ℕ
  pub settlement_id : Option ℕ
  pub diff_type : DiffType
  pub source_type : Side
  pub target_type : Side
  pub source_amount : ℤ
  pub target_amount : ℤ
  pub diff_amount : ℤ
  pub alert_level : AlertLevel
  pub alert_sent : Bool
  pub status : DiffStatus
  pub review_user_id : Option ℕ
  pub review_remark : String
  pub reviewed_at : Option ℕ
