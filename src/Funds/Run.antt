-- ===== src/Funds/Run.antt =====
-- Runs of the flows of backend/src/services/withdraw_service.py, of their reviews, of the transactions of
-- the two settlement DAOs, of the reversals after a refund and of the reconciliations, in any order, some
-- of them raising and some commits failing.
use gaking.Base.{ℕ, Option, List, [], ◌∷◌}
use gaking.Base.Int.{ℤ}
use gaking.Store.Types.{Order, CommissionFlow}
use gaking.Store.Session.{Session}
use gaking.Withdraw.Service.{
  ReviewEnv, ApplyEnv, apply_withdraw, reject_apply, approve_apply, complete_apply, fail_apply,
}
use gaking.Withdraw.Review
use gaking.Withdraw.Review.{
  PayEnv, LockedEnv, approve_and_transfer, on_transfer_success, on_transfer_fail,
}
use gaking.Funds.Reviews.{
  reject-Both, on_transfer_success-Both, on_transfer_fail-Both, approve_and_transfer-Both,
}
use gaking.Settlement.Atomic.{
  freeze_atomic, settle_order_commission_atomic, deduct_on_refund_atomic,
}
use gaking.Funds.Cover.{IsFunded}
use gaking.Funds.Keeps.{Both}
use gaking.Funds.Withdraws.{
  apply_withdraw-IsFunded, reject_apply-IsFunded, approve_apply-IsFunded, complete_apply-IsFunded,
  fail_apply-IsFunded,
}
use gaking.Funds.Settlements.{
  freeze_atomic-IsFunded, settle_order_commission_atomic-IsFunded, deduct_on_refund_atomic-IsFunded,
}
use gaking.Reconcile.Keeps.{ReconcileCall, reconcile, reconcile-Keeps}
use gaking.Refund.Keeps.{execute_refund_deduction-Keeps}
use gaking.Refund.Run.{Clawback, perform_clawback, perform_clawback-Keeps}
use Prim.Native.String.{String}

-- A call of a withdrawal flow, a review, a settlement, a reversal or a reconciliation, with its arguments and what it finds outside the database.
pub data Call : Type 0 where
  apply : ApplyEnv → ℕ → ℤ → Call
  reject : ReviewEnv → ℕ → ℕ → String → Call
  approve : ReviewEnv → ℕ → ℕ → String → Call
  complete : ReviewEnv → ℕ → String → Call
  fail : ReviewEnv → ℕ → String → Call
  freeze : ℕ → Order → ℤ → ℤ → String → ℕ → ℕ → Call
  credit : ℕ → Order → ℤ → String → Call
  refund : ℕ → Order → ℕ → CommissionFlow → Call
  reviews_approve : LockedEnv → PayEnv → ℕ → ℕ → String → Call
  reviews_reject : LockedEnv → ℕ → ℕ → String → Call
  transfer_succeeds : LockedEnv → ℕ → String → Option ℕ → Call
  transfer_fails : LockedEnv → ℕ → String → Option ℕ → Call
  claw_back : Clawback → Call
  audit : ReconcileCall → Call

-- What the session is after a call, returned or raised.
unfoldable pub perform : Call → Session → Session
perform (apply env u x) s = (apply_withdraw env u x s).1
perform (reject env i reviewer reason) s = (reject_apply env i reviewer reason s).1
perform (approve env i reviewer remark) s = (approve_apply env i reviewer remark s).1
perform (complete env i batch) s = (complete_apply env i batch s).1
perform (fail env i reason) s = (fail_apply env i reason s).1
perform (freeze i o x y number days now) s = (freeze_atomic i o x y number days now s).1
perform (credit i o x batch) s = (settle_order_commission_atomic i o x batch s).1
perform (refund i o k f) s = (deduct_on_refund_atomic i o k f s).1
perform (reviews_approve env pay i reviewer remark) s =
    (approve_and_transfer env pay i reviewer remark s).1
perform (reviews_reject env i reviewer reason) s = (Review.reject env i reviewer reason s).1
perform (transfer_succeeds env i batch operator) s = (on_transfer_success env i batch operator s).1
perform (transfer_fails env i reason operator) s = (on_transfer_fail env i reason operator s).1
perform (claw_back c) s = perform_clawback c s
perform (audit c) s = reconcile c s

unfoldable pub perform_all : List Call → Session → Session
perform_all [] s = s
perform_all (c ∷ cs) s = perform_all cs (perform c s)

perform-IsFunded :
    (u : ℕ) (c : Call) (s : Session) → Both (IsFunded u) s → Both (IsFunded u) (perform c s)
unfolding perform
perform-IsFunded u (apply env v x) s h = apply_withdraw-IsFunded u env v x s h
perform-IsFunded u (reject env i reviewer reason) s h =
    reject_apply-IsFunded u env i reviewer reason s h
perform-IsFunded u (approve env i reviewer remark) s h =
    approve_apply-IsFunded u env i reviewer remark s h
perform-IsFunded u (complete env i batch) s h = complete_apply-IsFunded u env i batch s h
perform-IsFunded u (fail env i reason) s h = fail_apply-IsFunded u env i reason s h
perform-IsFunded u (freeze i o x y number days now) s h =
    freeze_atomic-IsFunded u i o x y number days now s h
perform-IsFunded u (credit i o x batch) s h =
    settle_order_commission_atomic-IsFunded u i o x batch s h
perform-IsFunded u (refund i o k f) s h = deduct_on_refund_atomic-IsFunded u i o k f s h
perform-IsFunded u (reviews_approve env pay i reviewer remark) s h =
    approve_and_transfer-Both (IsFunded u) (λ t l k. k) env pay i reviewer remark s (λ _. h)
      (approve_apply-IsFunded u env.inner i reviewer remark s h)
perform-IsFunded u (reviews_reject env i reviewer reason) s h =
    reject-Both (IsFunded u) (λ t l k. k) env i reviewer reason s h
      (reject_apply-IsFunded u env.inner i reviewer reason s h)
perform-IsFunded u (transfer_succeeds env i batch operator) s h =
    on_transfer_success-Both (IsFunded u) (λ t l k. k) env i batch operator s h
      (complete_apply-IsFunded u env.inner i batch s h)
perform-IsFunded u (transfer_fails env i reason operator) s h =
    on_transfer_fail-Both (IsFunded u) (λ t l k. k) env i reason operator s h
      (fail_apply-IsFunded u env.inner i reason s h)
perform-IsFunded u (claw_back c) s h =
    perform_clawback-Keeps (IsFunded u)
      (execute_refund_deduction-Keeps (IsFunded u) (λ t v r h. h) (λ t orders h. h)
        (deduct_on_refund_atomic-IsFunded u))
      (λ i old new t found fine h. h) (λ r t fine h. h) c s h
perform-IsFunded u (audit c) s h =
    reconcile-Keeps (IsFunded u) (λ t b n h. h) (λ t d unsent h. h)
      (λ t j d action remark operator now found live h. h) c s h

-- Whatever withdrawal flows, reviews, freezes, credits, refunds, reversals and reconciliations are called
-- in whatever order, and whichever commits fail, every user's frozen balance covers the open applications and the held commissions.
pub perform_all-IsFunded :
    (u : ℕ) (cs : List Call) (s : Session)
    → Both (IsFunded u) s
    → Both (IsFunded u) (perform_all cs s)
unfolding perform_all
perform_all-IsFunded u [] s h = h
perform_all-IsFunded u (c ∷ cs) s h =
    perform_all-IsFunded u cs (perform c s) (perform-IsFunded u c s h)
