-- ===== src/Funds/Final.antt =====
-- An application that is paid or rejected stays as it is, through any run of the flows of
-- backend/src/services/withdraw_service.py.
use gaking.Base.{
  ℕ, suc, ◌≡◌, ◌∙◌, inl, inr, true, false, some, arith, Bool-cases, List, [], ◌∷◌, ◌==◌, ==_iff,
}
use gaking.Base.Table.{
  find, find-put, find-put_ne, KeysBelow, put-KeysBelow, KeysBelow-suc, find_below,
}
use gaking.Store.Types.{WithdrawApply}
use gaking.Store.Session.{Tables, Session}
use gaking.Accounts.Dao.{adjusted}
use gaking.Withdraw.Service.{
  ReviewEnv, approve_apply, reject_apply, complete_apply, fail_apply, is_pending, is_payable,
  approved, rejected, completed, failed, new_apply, lock_deltas, return_deltas, payout_deltas,
}
use gaking.Funds.Reviews.{
  reject-Both, on_transfer_success-Both, on_transfer_fail-Both, approve_and_transfer-Both,
}
use gaking.Funds.Cover.{is_open}
use gaking.Funds.Keeps.{Both, settle_apply-Both, with_apply, with_account, with_new_apply}
use gaking.Funds.Withdraws.{pending_open, payable_open, approve_apply-Both, apply_withdraw-Both}
use gaking.Funds.Transactions.{freeze_atomic-Both, settle_atomic-Both, deduct_on_refund-Both}
use gaking.Reconcile.Keeps.{reconcile-Keeps}
use gaking.Refund.Keeps.{execute_refund_deduction-Keeps}
use gaking.Refund.Run.{perform_clawback-Keeps}
use Prim.Native.String.{String}
use gaking.Funds.Run.{
  Call, apply, reject, approve, complete, fail, freeze, credit, refund, reviews_approve,
  reviews_reject, transfer_succeeds, transfer_fails, claw_back, audit, perform, perform_all,
}

-- The stored row of application `i` is `a`, and no id in use will be given again.
abbrev pub Stored : ℕ → WithdrawApply → Tables → Type 0
Stored i a t = (find i t.applies ≡ some a) × KeysBelow t.next_apply t.applies

module _ (i : ℕ) (a : WithdrawApply) (ends : is_open a.status ≡ false) where
  -- An open row is another one.
  other-Stored :
      (j : ℕ) (b c : WithdrawApply) (t : Tables)
      → find j t.applies ≡ some b
      → is_open b.status ≡ true
      → Stored i a t
      → Stored i a (with_apply j c t)
  other-Stored j b c t found opens (here, below) = elim (Bool-cases (j == i)) [
    | inl same ↦ absurd (ground (arith, opens, ends, found, here, (==_iff j i).0 same))
    | inr other ↦ (
      find-put j i c t.applies ∙ ground (arith, other, here),
      put-KeysBelow t.next_apply j c t.applies (find_below t.next_apply j t.applies below found)
          below,
    )
  ]

  new-Stored : (c : WithdrawApply) (t : Tables) → Stored i a t → Stored i a (with_new_apply c t)
  new-Stored c t (here, below) =
      let lt = find_below t.next_apply i t.applies below here in
      (
        find-put_ne t.next_apply i c t.applies (omega arith) ∙ here,
        put-KeysBelow (suc t.next_apply) t.next_apply c t.applies (omega arith)
            (KeysBelow-suc t.next_apply t.applies below),
      )

  reject_apply-Stored :
      (env : ReviewEnv) (j reviewer : ℕ) (reason : String) (s : Session)
      → Both (Stored i a) s
      → Both (Stored i a) (reject_apply env j reviewer reason s).1
  unfolding reject_apply
  reject_apply-Stored env j reviewer reason s h =
      settle_apply-Both (Stored i a) env j is_pending (rejected env reviewer reason)
        (λ c. return_deltas c.apply_amount) s
        (λ b found ad.
          let k =
            other-Stored j b (rejected env reviewer reason b) s.working found
              (pending_open b.status ad) h.1 in
          (k, λ acc there. k))
        h

  complete_apply-Stored :
      (env : ReviewEnv) (j : ℕ) (batch : String) (s : Session)
      → Both (Stored i a) s
      → Both (Stored i a) (complete_apply env j batch s).1
  unfolding complete_apply
  complete_apply-Stored env j batch s h =
      settle_apply-Both (Stored i a) env j is_payable (completed env batch) payout_deltas s
        (λ b found ad.
          let k =
            other-Stored j b (completed env batch b) s.working found (payable_open b.status ad)
              h.1 in
          (k, λ acc there. k))
        h

  fail_apply-Stored :
      (env : ReviewEnv) (j : ℕ) (reason : String) (s : Session)
      → Both (Stored i a) s
      → Both (Stored i a) (fail_apply env j reason s).1
  unfolding fail_apply
  fail_apply-Stored env j reason s h =
      settle_apply-Both (Stored i a) env j is_payable (failed env reason)
        (λ c. return_deltas c.apply_amount) s
        (λ b found ad.
          let k =
            other-Stored j b (failed env reason b) s.working found (payable_open b.status ad) h.1 in
          (k, λ acc there. k))
        h

  approve_apply-Stored :
      (env : ReviewEnv) (j reviewer : ℕ) (remark : String) (s : Session)
      → Both (Stored i a) s
      → Both (Stored i a) (approve_apply env j reviewer remark s).1
  approve_apply-Stored env j reviewer remark s h =
      approve_apply-Both (Stored i a) env j reviewer remark s
        (λ b found ad.
          other-Stored j b (approved env reviewer remark b) s.working found
            (pending_open b.status ad) h.1)
        h

  perform-Stored : (c : Call) (s : Session) → Both (Stored i a) s → Both (Stored i a) (perform c s)
  unfolding perform
  perform-Stored (apply env v x) s h =
      apply_withdraw-Both (Stored i a) env v x s
        (λ b fee p there. (
          h.1,
          new-Stored (new_apply env v x fee) (with_account v (adjusted b (lock_deltas x)) s.working)
              h.1,
        ))
        h
  perform-Stored (reject env j reviewer reason) s h = reject_apply-Stored env j reviewer reason s h
  perform-Stored (approve env j reviewer remark) s h =
      approve_apply-Stored env j reviewer remark s h
  perform-Stored (complete env j batch) s h = complete_apply-Stored env j batch s h
  perform-Stored (fail env j reason) s h = fail_apply-Stored env j reason s h
  perform-Stored (freeze j o x y number days now) s h =
      freeze_atomic-Both (Stored i a) j o x y number days now s (λ missing. h.1)
        (λ b t p found k. k) h
  perform-Stored (credit j o x batch) s h =
      settle_atomic-Both (Stored i a) j o x batch s (λ missing. h.1)
        (λ v b c t flows n found same k. (k, k)) h
  perform-Stored (refund j o k f) s h =
      deduct_on_refund-Both (Stored i a) j o k f s (λ missing. h.1) (λ flows. h.1)
        (λ v b c t flows n found same k. (k, k)) h
  perform-Stored (reviews_approve env pay j reviewer remark) s h =
      approve_and_transfer-Both (Stored i a) (λ t l k. k) env pay j reviewer remark s (λ _. h)
        (approve_apply-Stored env.inner j reviewer remark s h)
  perform-Stored (reviews_reject env j reviewer reason) s h =
      reject-Both (Stored i a) (λ t l k. k) env j reviewer reason s h
        (reject_apply-Stored env.inner j reviewer reason s h)
  perform-Stored (transfer_succeeds env j batch operator) s h =
      on_transfer_success-Both (Stored i a) (λ t l k. k) env j batch operator s h
        (complete_apply-Stored env.inner j batch s h)
  perform-Stored (transfer_fails env j reason operator) s h =
      on_transfer_fail-Both (Stored i a) (λ t l k. k) env j reason operator s h
        (fail_apply-Stored env.inner j reason s h)
  perform-Stored (claw_back c) s h =
      perform_clawback-Keeps (Stored i a)
        (execute_refund_deduction-Keeps (Stored i a) (λ t v r h. h) (λ t orders h. h)
          (λ j o k f s h.
            deduct_on_refund-Both (Stored i a) j o k f s (λ missing. h.1) (λ flows. h.1)
              (λ v b c t flows n found same k. (k, k)) h))
        (λ j old new t found fine h. h) (λ r t fine h. h) c s h
  perform-Stored (audit c) s h =
      reconcile-Keeps (Stored i a) (λ t b n h. h) (λ t d unsent h. h)
        (λ t j d action remark operator now found live h. h) c s h

  -- An application that is paid or rejected keeps its row through any run of calls, whichever raise and
  -- whichever commits fail, where no id in use is given again.
  pub perform_all-Stored :
      (cs : List Call) (s : Session) → Both (Stored i a) s → Both (Stored i a) (perform_all cs s)
  unfolding perform_all
  perform_all-Stored [] s h = h
  perform_all-Stored (c ∷ cs) s h = perform_all-Stored cs (perform c s) (perform-Stored c s h)
