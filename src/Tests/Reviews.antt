-- ===== src/Tests/Reviews.antt =====
-- The theorems on backend/src/services/withdraw_review_service.py, at concrete inputs.
use gaking.Base.{◌≡◌, refl, true, some, [], ◌∷◌}
use gaking.Base.Table.{find}
use gaking.Store.Types.{WithdrawStatus}
use gaking.Store.Keeps.{Both}
use gaking.Withdraw.Service.{ReviewEnv}
use gaking.Withdraw.Review.{
  LockedEnv, PayEnv, Approval, TransferRequest, TransferAnswer, accepted, approve_and_transfer,
  transfer_request,
}
use gaking.Withdraw.ReviewLaws.{
  IsDue, approve_and_transfer-IsDue, approve_and_transfer_stays_approved,
}
use gaking.Tests.Data.{session, apply_of}

abbrev env : LockedEnv
env = record { review_granted = true; inner = record { lock_granted = true; now = 60 } }

-- a service that accepts every transfer, to a receiver who is no mock user
abbrev pay : PayEnv
pay = record {
  wechat_pay_service = some (λ q. accepted "B1");
  openid = some "o77";
  auto_transfer = true;
  production = true;
}

abbrev approval : Approval
approval = record {
  apply = record (apply_of WithdrawStatus.approved) {
    review_user_id = some 2;
    review_remark = "ok";
    review_time = some 60;
  };
  transfer = record {
    batch_id = some "B1";
    asked = transfer_request (apply_of WithdrawStatus.approved) "o77" ∷ [];
  };
}

approve_and_transfer-IsDue_example : IsDue approval.apply approval.transfer.asked
unfolding approve_and_transfer gaking.Withdraw.Service.approve_apply find
    gaking.Withdraw.Service.is_pending gaking.Withdraw.Review.log_review
    gaking.Withdraw.Service.approved
approve_and_transfer-IsDue_example =
    approve_and_transfer-IsDue env pay 7 2 "ok" session approval refl

approve_and_transfer_stays_approved_example :
    (approval.apply.status ≡ WithdrawStatus.approved)
    × Both
        (λ t. find 7 t.applies ≡ some approval.apply)
        (approve_and_transfer env pay 7 2 "ok" session).1
unfolding approve_and_transfer gaking.Withdraw.Service.approve_apply find
    gaking.Withdraw.Service.is_pending gaking.Withdraw.Review.log_review
    gaking.Withdraw.Service.approved
approve_and_transfer_stays_approved_example =
    approve_and_transfer_stays_approved env pay 7 2 "ok" session approval refl refl
