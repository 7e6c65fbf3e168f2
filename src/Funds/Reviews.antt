-- ===== src/Funds/Reviews.antt =====
-- The reviews of backend/src/services/withdraw_review_service.py keep what the flows that they call keep,
-- where the logs have no part in it.
use gaking.Base.{
  ℕ, Bool, true, false, Option, none, some, List, [], ◌∷◌, not, ◌&&◌, ◌≡◌, refl, sym, subst, inl,
  inr, arith, Bool-cases,
}
use gaking.Store.Types.{WithdrawApply, WithdrawReviewLog}
use gaking.Store.Session.{Session, Tables, ok, Action, Result-cases, ◌>>=◌, ◌>>◌, pure}
use gaking.Withdraw.Service.{approve_apply, reject_apply, complete_apply, fail_apply}
use gaking.Funds.Keeps.{Both}
use gaking.Withdraw.Review
use gaking.Withdraw.Review.{
  logged, log_review, is_empty, simulate, answered, trigger_with, trigger_wechat_transfer,
  transfer_if, reviewed_approval, reviewed, PayEnv, LockedEnv, TransferRequest, TransferAnswer,
  accepted, rejected_with, is_mock_openid, should_simulate_transfer, approve_and_transfer, Approval,
  review_log, transfer_log, transfer_request, Transfer,
}
use Prim.Native.String.{String}

-- A log entry that fails to be written raises nothing.
log_with-ok : (l : List Bool) (e : WithdrawReviewLog) (s : Session) → (logged l e s).0 ≡ ok tt
unfolding logged
log_with-ok [] e s = refl
log_with-ok (true ∷ rest) e s = refl
log_with-ok (false ∷ rest) e s = refl

log_review-ok : (e : WithdrawReviewLog) (s : Session) → (log_review e s).0 ≡ ok tt
unfolding log_review
log_review-ok e s = log_with-ok s.faults e s

pub log_then-ok :
    {A : Type 0} (e : WithdrawReviewLog) (x : A) (s : Session)
    → ((log_review e >> pure x) s).0 ≡ ok x
log_then-ok e x s = ground (arith, log_review-ok e s)

then_pure-session :
    {A B : Type 0} (m : Action A) (f : A → B) (s : Session)
    → ((m >>= λ a. pure (f a)) s).1 ≡ (m s).1
then_pure-session m f s = elim (Result-cases (m s).0) [
  | inl (a, done) ↦ ground (arith, done)
  | inr (e, raised) ↦ ground (arith, raised)
]

-- A property that the logs have no part in.
module _ (P : Tables → Type 0)
    (unlogged : (t : Tables) (l : List WithdrawReviewLog)
      → P t
      → P (record t { review_logs = l })) where
  log_with-Both :
      (l : List Bool) (e : WithdrawReviewLog) (s : Session) → Both P s → Both P (logged l e s).1
  unfolding logged
  log_with-Both [] e s h = let p = unlogged s.working (e ∷ s.working.review_logs) h.1 in (p, p)
  log_with-Both (true ∷ rest) e s h =
      let p = unlogged s.working (e ∷ s.working.review_logs) h.1 in (p, p)
  log_with-Both (false ∷ rest) e s h = (h.0, h.0)

  pub log_review-Both : (e : WithdrawReviewLog) (s : Session) → Both P s → Both P (log_review e s).1
  unfolding log_review
  log_review-Both e s h = log_with-Both s.faults e s h

  log_then-Both :
      {A : Type 0} (e : WithdrawReviewLog) (x : A) (s : Session)
      → Both P s
      → Both P ((log_review e >> pure x) s).1
  log_then-Both e x s h = ground (arith, log_review-ok e s, log_review-Both e s h)

  pub reviewed-Both :
      (granted : Bool) (flow : Action WithdrawApply) (e : WithdrawReviewLog) (s : Session)
      → (granted ≡ false → Both P s)
      → Both P (flow s).1
      → Both P (reviewed granted flow e s).1
  unfolding reviewed
  reviewed-Both false flow e s h k = h refl
  reviewed-Both true flow e s h k = elim (Result-cases (flow s).0) [
    | inl (a, done) ↦ ground (arith, done, log_review-Both e (flow s).1 k)
    | inr (x, raised) ↦ ground (arith, raised, k)
  ]

  answered-Both :
      (i operator : ℕ) (q : TransferRequest) (x : TransferAnswer) (s : Session)
      → Both P s
      → Both P (answered i operator q x s).1
  unfolding answered
  answered-Both i operator q (accepted batch) s h = log_then-Both _ _ s h
  answered-Both i operator q (rejected_with e) s h = log_then-Both _ _ s h

  trigger_with-Both :
      (pay : TransferRequest → TransferAnswer) (production : Bool) (i operator : ℕ)
      (a : WithdrawApply) (openid : String) (s : Session)
      → Both P s
      → Both P (trigger_with pay production i operator a openid s).1
  unfolding trigger_with simulate
  trigger_with-Both pay production i operator a openid s h =
      elim (Bool-cases (is_mock_openid openid)) [
        | inr real ↦ rw real (answered-Both i operator _ _ s h)
        | inl mock ↦ elim (Bool-cases production) [
          | inr test_mode ↦ rw (mock, test_mode) (log_then-Both _ _ s h)
          | inl live_mode ↦ rw (mock, live_mode) h
        ]
      ]

  trigger_wechat_transfer-Both :
      (pay : Option (TransferRequest → TransferAnswer)) (production : Bool) (i operator : ℕ)
      (a : WithdrawApply) (openid : String) (s : Session)
      → Both P s
      → Both P (trigger_wechat_transfer pay production i operator a openid s).1
  unfolding trigger_wechat_transfer
  trigger_wechat_transfer-Both none production i operator a openid s h = h
  trigger_wechat_transfer-Both (some pay) production i operator a openid s h =
      trigger_with-Both pay production i operator a openid s h

  transfer_if-Both :
      (env : PayEnv) (i operator : ℕ) (a : WithdrawApply) (o : Option String) (s : Session)
      → Both P s
      → Both P (transfer_if env i operator a o s).1
  unfolding transfer_if
  transfer_if-Both env i operator a none s h = h
  transfer_if-Both env i operator a (some openid) s h =
      elim (Bool-cases (env.auto_transfer && not (is_empty openid))) [
        | inr no_call ↦ rw no_call h
        | inl call ↦ rw call (trigger_wechat_transfer-Both _ _ i operator a openid s h)
      ]

  reviewed_approval-Both :
      (env : LockedEnv) (i reviewer : ℕ) (remark : String) (s : Session)
      → (env.review_granted ≡ false → Both P s)
      → Both P (approve_apply env.inner i reviewer remark s).1
      → Both P (reviewed_approval env i reviewer remark s).1
  unfolding reviewed_approval
  reviewed_approval-Both env i reviewer remark s h k =
      reviewed-Both env.review_granted (approve_apply env.inner i reviewer remark) _ s h k

  pub approve_and_transfer-Both :
      (env : LockedEnv) (pay : PayEnv) (i reviewer : ℕ) (remark : String) (s : Session)
      → (env.review_granted ≡ false → Both P s)
      → Both P (approve_apply env.inner i reviewer remark s).1
      → Both P (approve_and_transfer env pay i reviewer remark s).1
  unfolding approve_and_transfer
  approve_and_transfer-Both env pay i reviewer remark s h k =
      let k' = reviewed_approval-Both env i reviewer remark s h k in
      elim (Result-cases (reviewed_approval env i reviewer remark s).0) [
        | inr (x, raised) ↦ ground (arith, raised, k')
        | inl (a, done) ↦
            let s' = (reviewed_approval env i reviewer remark s).1 in
            let f : Transfer → Approval = (λ t. record { apply = a; transfer = t }) in
            let m = transfer_if pay i reviewer a pay.openid in
            let end : Both P ((m >>= λ t. pure (f t)) s').1 =
              subst (Both P) (sym (then_pure-session m f s'))
                (transfer_if-Both pay i reviewer a pay.openid s' k') in
            ground (arith, done, end)
      ]

  pub reject-Both :
      (env : LockedEnv) (i reviewer : ℕ) (reason : String) (s : Session)
      → Both P s
      → Both P (reject_apply env.inner i reviewer reason s).1
      → Both P (Review.reject env i reviewer reason s).1
  unfolding Review.reject
  reject-Both env i reviewer reason s h k =
      reviewed-Both env.review_granted (reject_apply env.inner i reviewer reason) _ s (λ _. h) k

  pub on_transfer_success-Both :
      (env : LockedEnv) (i : ℕ) (batch : String) (operator : Option ℕ) (s : Session)
      → Both P s
      → Both P (complete_apply env.inner i batch s).1
      → Both P (Review.on_transfer_success env i batch operator s).1
  unfolding Review.on_transfer_success
  on_transfer_success-Both env i batch operator s h k =
      reviewed-Both env.review_granted (complete_apply env.inner i batch) _ s (λ _. h) k

  pub on_transfer_fail-Both :
      (env : LockedEnv) (i : ℕ) (reason : String) (operator : Option ℕ) (s : Session)
      → Both P s
      → Both P (fail_apply env.inner i reason s).1
      → Both P (Review.on_transfer_fail env i reason operator s).1
  unfolding Review.on_transfer_fail
  on_transfer_fail-Both env i reason operator s h k =
      reviewed-Both env.review_granted (fail_apply env.inner i reason) _ s (λ _. h) k
