-- ===== src/Tests/Withdrawals.antt =====
-- The theorems on the withdrawals of backend/src/services/withdraw_service.py, at concrete inputs.
use gaking.Base.{refl, true, none, some, List, [], ◌∷◌, arith}
use gaking.Base.Int.{pos, ◌+ℤ◌}
use gaking.Base.Table.{find, sum_by}
use gaking.Store.Types.{WithdrawStatus, TransferStatus}
use gaking.Store.Session.{Session}
use gaking.Withdraw.Fee.{FeeTier, default_config}
use gaking.Withdraw.Rules.{RuleEnv}
use gaking.Withdraw.Service.{
  ReviewEnv, ApplyEnv, reject_apply, complete_apply, fail_apply, rejected, completed, failed,
  return_deltas, payout_deltas, is_pending, is_payable, complete_apply,
}
use gaking.Settlement.Machine.{value, same_value}
use gaking.Funds.Cover.{IsFunded, claim, hold, is_open}
use gaking.Funds.Keeps.{Both}
use gaking.Funds.Run.{
  Call, apply, reject, approve, complete, freeze, credit, refund, claw_back, audit, perform_all,
  perform_all-IsFunded,
}
use gaking.Reconcile.Keeps.{review_of}
use gaking.Store.Reconciliation.{DiffStatus}
use gaking.Refund.Run.{execute_deduction, scheduled}
use gaking.Funds.Final.{Stored, perform_all-Stored}
use gaking.Funds.Success.{
  CanEnd, Ends, reject_apply_succeeds, complete_apply_succeeds, fail_apply_succeeds,
}
use gaking.Tests.Data.{apply_of, order_of, flow_of, tables_of, session, session_of}

abbrev env : ReviewEnv
env = record { lock_granted = true; now = 60 }

abbrev rules : RuleEnv
rules = record {
  tiers = [];
  config = default_config;
  day_start = 0;
  day_end = 86400;
  daily_readable = true;
  account_readable = true;
}

abbrev apply_env : ApplyEnv
apply_env = record {
  interval_free = true;
  lock_granted = true;
  apply_no = "W8";
  now = 61;
  rules = rules;
}

abbrev payable : Session
payable = session_of (tables_of WithdrawStatus.approved 20 TransferStatus.pending)

abbrev paid_out : Session
paid_out = session_of (tables_of WithdrawStatus.success 20 TransferStatus.pending)

session-IsFunded : IsFunded 1 session.working
unfolding sum_by claim hold value same_value find is_open ◌+ℤ◌
session-IsFunded =
    (omega arith, (omega arith, tt), (omega arith, tt), (omega arith, tt), (omega arith, tt))

payable-IsFunded : IsFunded 1 payable.working
unfolding sum_by claim hold value same_value find is_open ◌+ℤ◌
payable-IsFunded =
    (omega arith, (omega arith, tt), (omega arith, tt), (omega arith, tt), (omega arith, tt))

abbrev calls : List Call
calls =
    approve env 7 2 "fine"
    ∷ apply apply_env 1 (pos 30000)
    ∷ complete env 7 "B1"
    ∷ reject env 8 2 "doubtful"
    ∷ freeze 9 (order_of 30) (pos 4000) (pos 1000) "S2" 30 62
    ∷ credit 9 (order_of 40) (pos 4000) "B2"
    ∷ refund 8 (order_of 60) 4 (flow_of 8 TransferStatus.pending)
    ∷ claw_back (execute_deduction 9 2)
    ∷ claw_back scheduled
    ∷ audit (review_of 1 DiffStatus.resolved "none" 2 90)
    ∷ []

perform_all-IsFunded_example : Both (IsFunded 1) (perform_all calls session)
perform_all-IsFunded_example =
    perform_all-IsFunded 1 calls session (session-IsFunded, session-IsFunded)

perform_all-Stored_example :
    Both (Stored 7 (apply_of WithdrawStatus.success)) (perform_all calls paid_out)
unfolding is_open find
perform_all-Stored_example =
    perform_all-Stored 7 (apply_of WithdrawStatus.success) refl calls paid_out
      ((refl, (omega arith, tt)), (refl, (omega arith, tt)))

can_reject : CanEnd env 7 session (apply_of WithdrawStatus.pending) is_pending
unfolding find is_pending
can_reject = (refl, refl, refl, omega arith, session-IsFunded, omega arith, refl)

can_pay : CanEnd env 7 payable (apply_of WithdrawStatus.approved) is_payable
unfolding find is_payable
can_pay = (refl, refl, refl, omega arith, payable-IsFunded, omega arith, refl)

reject_apply_succeeds_example :
    Ends env 7 session
      (apply_of WithdrawStatus.pending)
      (reject_apply env 7 2 "doubtful")
      (rejected env 2 "doubtful" (apply_of WithdrawStatus.pending))
      (return_deltas (pos 20000))
reject_apply_succeeds_example =
    reject_apply_succeeds env 7 session (apply_of WithdrawStatus.pending) 2 "doubtful" can_reject

complete_apply_succeeds_example :
    Ends env 7 payable
      (apply_of WithdrawStatus.approved)
      (complete_apply env 7 "B1")
      (completed env "B1" (apply_of WithdrawStatus.approved))
      (payout_deltas (apply_of WithdrawStatus.approved))
complete_apply_succeeds_example =
    complete_apply_succeeds env 7 payable (apply_of WithdrawStatus.approved) "B1" can_pay

fail_apply_succeeds_example :
    Ends env 7 payable
      (apply_of WithdrawStatus.approved)
      (fail_apply env 7 "no account")
      (failed env "no account" (apply_of WithdrawStatus.approved))
      (return_deltas (pos 20000))
fail_apply_succeeds_example =
    fail_apply_succeeds env 7 payable (apply_of WithdrawStatus.approved) "no account" can_pay

abbrev low_tier : FeeTier
low_tier = record {
  min_amount = 1000;
  max_amount = some 10000;
  rate = record { units = 2; scale = 1000 };
  min_fee = 100;
}

abbrev high_tier : FeeTier
high_tier = record {
  min_amount = 10000;
  max_amount = none;
  rate = record { units = 1; scale = 1000 };
  min_fee = 50;
}
