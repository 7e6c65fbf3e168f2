-- ===== src/Withdraw/Review.antt =====
-- backend/src/services/withdraw_review_service.py: a review takes a lock of its own, calls a flow of
-- the withdrawal service and writes a log; an approval may ask WeChat for the transfer. With
-- backend/src/common/mock_user_util.py.
use gaking.Base.{ℕ, Bool, true, false, Option, none, some, List, [], ◌∷◌, not, ◌&&◌, if◌then◌else◌}
use gaking.Base.Int.{ℤ}
use gaking.Store.Types.{WithdrawApply, WithdrawReviewLog, WithdrawStatus}
use gaking.Store.Session.{Error, ok, Action, ◌>>=◌, ◌>>◌, pure, raise_if}
use gaking.Withdraw.Service.{ReviewEnv, approve_apply, reject_apply, complete_apply, fail_apply}
use Prim.Native.String.{String, ◌++◌}
use text.Mathlib.Text.{starts_with}

unfoldable pub is_mock_openid : String → Bool
is_mock_openid openid = starts_with openid "dev_"

unfoldable pub gen_mock_transfer_batch_id : String → String
gen_mock_transfer_batch_id apply_no = "MOCKBATCH" ++ apply_no

unfoldable pub should_simulate_transfer : Bool → String → Bool
unfolding is_mock_openid
should_simulate_transfer production openid = is_mock_openid openid && not production

-- `transfer_single`, the client of the WeChat interface: what it is asked, and what it answers, a batch
-- number or the text of an exception
pub record TransferRequest : Type 0 where
  pub out_batch_no : String
  pub out_detail_no : String
  pub transfer_amount : ℤ
  pub openid : String
  pub transfer_remark : String

pub data TransferAnswer : Type 0 where
  accepted : String → TransferAnswer
  rejected_with : String → TransferAnswer

-- The service of the payments, if there is one, the receiver and the environment's mode.
pub record PayEnv : Type 0 where
  pub wechat_pay_service : Option (TransferRequest → TransferAnswer)
  pub openid : Option String
  pub auto_transfer : Bool
  pub production : Bool

-- The batch that the caller is told of, and the requests that reached the payment service.
pub record Transfer : Type 0 where
  pub batch_id : Option String
  pub asked : List TransferRequest

abbrev pub no_transfer : Transfer
no_transfer = record { batch_id = none; asked = [] }

-- the commit of one entry, the failure of which is only a warning
unfoldable pub logged : List Bool → WithdrawReviewLog → Action (Unit {0})
logged [] e s =
    let t = record s.working { review_logs = e ∷ s.working.review_logs } in
    (ok tt, record s { working = t; committed = t })
logged (true ∷ rest) e s =
    let t = record s.working { review_logs = e ∷ s.working.review_logs } in
    (ok tt, record s { working = t; committed = t; faults = rest })
logged (false ∷ rest) e s = (ok tt, record s { working = s.committed; faults = rest })

-- `_log_review`
unfoldable pub log_review : WithdrawReviewLog → Action (Unit {0})
unfolding logged
log_review e s = logged s.faults e s

unfoldable pub transfer_log : ℕ → ℕ → WithdrawStatus → String → String → WithdrawReviewLog
transfer_log i operator to remark batch = record {
  apply_id = i;
  from_status = WithdrawStatus.approved;
  to_status = to;
  action = "TRANSFER";
  operator_id = some operator;
  remark = remark;
  transfer_batch_id = batch;
}

unfoldable pub transfer_request : WithdrawApply → String → TransferRequest
transfer_request a openid = record {
  out_batch_no = a.apply_no;
  out_detail_no = a.apply_no ++ "D1";
  transfer_amount = a.apply_amount;
  openid = openid;
  transfer_remark = "佣金提现";
}

unfoldable pub simulate : ℕ → ℕ → WithdrawApply → Action Transfer
unfolding transfer_log gen_mock_transfer_batch_id
simulate i operator a =
    let batch = gen_mock_transfer_batch_id a.apply_no in
    log_review (
      transfer_log i operator WithdrawStatus.processing ("模拟微信转账成功（mock 用户）batch_id=" ++ batch)
        batch)
    >> pure (record { batch_id = some batch; asked = [] })

unfoldable pub answered : ℕ → ℕ → TransferRequest → TransferAnswer → Action Transfer
unfolding transfer_log
answered i operator q (accepted batch) =
    log_review
      (transfer_log i operator WithdrawStatus.processing ("发起微信转账 batch_id=" ++ batch) batch)
    >> pure (record { batch_id = some batch; asked = q ∷ [] })
answered i operator q (rejected_with e) =
    log_review (transfer_log i operator WithdrawStatus.approved ("微信转账失败: " ++ e) "")
    >> pure (record { batch_id = none; asked = q ∷ [] })

-- `_trigger_wechat_transfer`, once there is a payment service
unfoldable pub trigger_with :
    (TransferRequest → TransferAnswer) → Bool → ℕ → ℕ → WithdrawApply → String → Action Transfer
unfolding simulate answered transfer_request is_mock_openid should_simulate_transfer
trigger_with pay production i operator a openid =
    if is_mock_openid openid
    then (if should_simulate_transfer production openid
        then simulate i operator a
        else pure no_transfer)
    else answered i operator (transfer_request a openid) (pay (transfer_request a openid))

unfoldable pub trigger_wechat_transfer :
    Option (TransferRequest → TransferAnswer)
    → Bool
    → ℕ
    → ℕ
    → WithdrawApply
    → String
    → Action Transfer
unfolding trigger_with
trigger_wechat_transfer none production i operator a openid = pure no_transfer
trigger_wechat_transfer (some pay) production i operator a openid =
    trigger_with pay production i operator a openid

unfoldable pub is_empty : String → Bool
is_empty String.[] = true
is_empty _ = false

-- step 4 of the approval: `if auto_transfer and openid`
unfoldable pub transfer_if : PayEnv → ℕ → ℕ → WithdrawApply → Option String → Action Transfer
unfolding trigger_wechat_transfer is_empty
transfer_if env i operator a none = pure no_transfer
transfer_if env i operator a (some openid) =
    if env.auto_transfer && not (is_empty openid)
    then trigger_wechat_transfer env.wechat_pay_service env.production i operator a openid
    else pure no_transfer

-- Whether the review's lock was granted, and what the flow finds: its own lock and the clock.
pub record LockedEnv : Type 0 where
  pub review_granted : Bool
  pub inner : ReviewEnv

-- The lock, the flow and the log that every review has.
unfoldable pub reviewed : Bool → Action WithdrawApply → WithdrawReviewLog → Action WithdrawApply
reviewed granted flow e = do raise_if (not granted) Error.busy; a ← flow; log_review e; pure a

unfoldable pub review_log :
    ℕ → WithdrawStatus × WithdrawStatus → String → Option ℕ → String → String → WithdrawReviewLog
review_log i (from, to) action operator remark batch = record {
  apply_id = i;
  from_status = from;
  to_status = to;
  action = action;
  operator_id = operator;
  remark = remark;
  transfer_batch_id = batch;
}

pub record Approval : Type 0 where
  pub apply : WithdrawApply
  pub transfer : Transfer

-- steps 1 to 3
unfoldable pub reviewed_approval : LockedEnv → ℕ → ℕ → String → Action WithdrawApply
unfolding reviewed review_log
reviewed_approval env i reviewer remark =
    reviewed env.review_granted (approve_apply env.inner i reviewer remark) (
      review_log i (WithdrawStatus.pending, WithdrawStatus.approved) "APPROVE" (some reviewer)
        remark "")

unfoldable pub approve_and_transfer : LockedEnv → PayEnv → ℕ → ℕ → String → Action Approval
unfolding reviewed_approval transfer_if
approve_and_transfer env pay i reviewer remark = do
  a ← reviewed_approval env i reviewer remark
  t ← transfer_if pay i reviewer a pay.openid
  pure (record { apply = a; transfer = t })

unfoldable pub reject : LockedEnv → ℕ → ℕ → String → Action WithdrawApply
unfolding reviewed review_log
reject env i reviewer reason =
    reviewed env.review_granted (reject_apply env.inner i reviewer reason) (
      review_log i (WithdrawStatus.pending, WithdrawStatus.rejected) "REJECT" (some reviewer) reason
        "")

unfoldable pub on_transfer_success : LockedEnv → ℕ → String → Option ℕ → Action WithdrawApply
unfolding reviewed review_log
on_transfer_success env i batch operator =
    reviewed env.review_granted (complete_apply env.inner i batch) (
      review_log i (WithdrawStatus.processing, WithdrawStatus.success) "TRANSFER_SUCCESS" operator
        ("打款成功 batch_id=" ++ batch) batch)

unfoldable pub on_transfer_fail : LockedEnv → ℕ → String → Option ℕ → Action WithdrawApply
unfolding reviewed review_log
on_transfer_fail env i reason operator =
    reviewed env.review_granted (fail_apply env.inner i reason) (
      review_log i (WithdrawStatus.processing, WithdrawStatus.rejected) "TRANSFER_FAIL" operator
        reason "")
