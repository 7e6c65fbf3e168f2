-- ===== src/Withdraw/ReviewLaws.antt =====
-- What the reviews of backend/src/services/withdraw_review_service.py ask of WeChat.
use gaking.Base.{
  ℕ, Bool, true, false, Option, none, some, List, [], ◌∷◌, not, ◌&&◌, ◌≡◌, refl, sym, subst, inl,
  inr, arith, Bool-cases, Option-cases,
}
use gaking.Store.Types.{WithdrawApply, WithdrawStatus}
use gaking.Store.Session.{Session, commit, ok, err, Result, Result-cases, ◌>>=◌, pure}
use gaking.Withdraw.Review.{
  is_empty, simulate, answered, trigger_with, trigger_wechat_transfer, transfer_if, reviewed,
  reviewed_approval, PayEnv, LockedEnv, TransferRequest, TransferAnswer, accepted, rejected_with,
  is_mock_openid, approve_and_transfer, transfer_request, Transfer, Approval,
}
use gaking.Base.Table.{find, find-put_self}
use gaking.Store.Types.{WithdrawReviewLog}
use gaking.Store.Session.{Action}
use gaking.Withdraw.Service.{
  ReviewEnv, approve_apply, approved, is_pending, load_apply, update_apply,
}
use gaking.Funds.Keeps.{Both}
use gaking.Funds.Reviews.{log_then-ok, approve_and_transfer-Both}
use Prim.Native.String.{String}

-- At most one request, of the whole amount, under the application's number, for a real receiver.
abbrev pub IsDue : WithdrawApply → List TransferRequest → Type 0
IsDue a [] = Unit
IsDue a (q ∷ []) =
    (q.transfer_amount ≡ a.apply_amount)
    × (q.out_batch_no ≡ a.apply_no)
    × (is_mock_openid q.openid ≡ false)
IsDue a (q ∷ r ∷ rest) = ⊥

abbrev Asks : WithdrawApply → Result Transfer → Type 0
Asks a (ok t) = IsDue a t.asked
Asks a (err e) = ⊥

answered-Asks :
    (i operator : ℕ) (a : WithdrawApply) (openid : String) (x : TransferAnswer) (s : Session)
    → is_mock_openid openid ≡ false
    → Asks a (answered i operator (transfer_request a openid) x s).0
unfolding answered transfer_request
answered-Asks i operator a openid (accepted batch) s real =
    subst (Asks a) (sym (log_then-ok _ _ s)) (refl, refl, real)
answered-Asks i operator a openid (rejected_with e) s real =
    subst (Asks a) (sym (log_then-ok _ _ s)) (refl, refl, real)

transfer_if-Asks :
    (env : PayEnv) (i operator : ℕ) (a : WithdrawApply) (o : Option String) (s : Session)
    → Asks a (transfer_if env i operator a o s).0
unfolding transfer_if trigger_wechat_transfer trigger_with simulate
transfer_if-Asks env i operator a none s = tt
transfer_if-Asks env i operator a (some openid) s =
    elim (Bool-cases (env.auto_transfer && not (is_empty openid))) [
      | inr no_call ↦ rw no_call tt
      | inl call ↦ elim (Option-cases env.wechat_pay_service) [
        | inl missing ↦ rw (call, missing) tt
        | inr (pay, there) ↦ elim (Bool-cases (is_mock_openid openid)) [
          | inr real ↦ rw (call, there, real) (answered-Asks i operator a openid _ s real)
          | inl mock ↦ elim (Bool-cases env.production) [
            | inl live_mode ↦ rw (call, there, mock, live_mode) tt
            | inr test_mode ↦
                rw (call, there, mock, test_mode) (subst (Asks a) (sym (log_then-ok _ _ s)) tt)
          ]
        ]
      ]
    ]

ok_eq : {A : Type 0} {a b : A} → ok a ≡ ok b → a ≡ b
ok_eq h = cc

asked_by :
    (a : WithdrawApply) (env : PayEnv) (i operator : ℕ) (s : Session) (r : Approval)
    → ((transfer_if env i operator a env.openid >>= λ t. pure (record { apply = a; transfer = t }))
        s).0
      ≡ ok r
    → IsDue r.apply r.transfer.asked
asked_by a env i operator s r done =
    elim (Result-cases (transfer_if env i operator a env.openid s).0) [
      | inr (e, raised) ↦ absurd (ground (arith, raised, done))
      | inl (t, asks) ↦
          let own : IsDue a t.asked =
            subst (Asks a) asks (transfer_if-Asks env i operator a env.openid s) in
          let same : ok (record { apply = a; transfer = t }) ≡ ok r = ground (arith, asks, done) in
          subst (λ x. IsDue x.apply x.transfer.asked) (ok_eq same) own
    ]

-- An approval asks WeChat for at most one transfer: of the whole amount applied for, the fee not taken
-- off, under the number of the application, and never for a mock user.
pub approve_and_transfer-IsDue :
    (env : LockedEnv) (pay : PayEnv) (i reviewer : ℕ) (remark : String) (s : Session) (r : Approval)
    → (approve_and_transfer env pay i reviewer remark s).0 ≡ ok r
    → IsDue r.apply r.transfer.asked
unfolding approve_and_transfer
approve_and_transfer-IsDue env pay i reviewer remark s r done =
    elim (Result-cases (reviewed_approval env i reviewer remark s).0) [
      | inr (x, raised) ↦ absurd (ground (arith, raised, done))
      | inl (a, approves) ↦
          asked_by a pay i reviewer (reviewed_approval env i reviewer remark s).1 r
            (ground (arith, approves, done))
    ]

reviewed-ok :
    (granted : Bool) (flow : Action WithdrawApply) (e : WithdrawReviewLog) (s : Session)
    (a : WithdrawApply)
    → (reviewed granted flow e s).0 ≡ ok a
    → (granted ≡ true) × ((flow s).0 ≡ ok a)
unfolding reviewed
reviewed-ok false flow e s a done = absurd (ground (arith, done))
reviewed-ok true flow e s a done = elim (Result-cases (flow s).0) [
  | inr (x, raised) ↦ absurd (ground (arith, raised, done))
  | inl (b, ends) ↦ (refl, ground (arith, ends, done, log_then-ok e b (flow s).1))
]

-- A row that was approved, in a session whose commits succeed.
approve_apply_stores :
    (env : ReviewEnv) (i reviewer : ℕ) (remark : String) (s : Session) (a : WithdrawApply)
    → s.faults ≡ []
    → (approve_apply env i reviewer remark s).0 ≡ ok a
    → (a.status ≡ WithdrawStatus.approved)
      × Both (λ t. find i t.applies ≡ some a) (approve_apply env i reviewer remark s).1
unfolding approve_apply approved load_apply update_apply commit
approve_apply_stores env i reviewer remark s a calm done =
    elim (Option-cases (find i s.working.applies)) [
      | inl missing ↦ absurd (ground (arith, missing, done))
      | inr (b, found) ↦
          let kept = find-put_self i (approved env reviewer remark b) s.working.applies in
          elim (Bool-cases (env.lock_granted && is_pending b.status)) [
            | inr refused ↦ absurd (ground (arith, found, refused, done))
            | inl fit ↦
                let same : ok (approved env reviewer remark b) ≡ ok a =
                  ground (arith, found, fit, calm, done) in
                subst
                  (λ x.
                    (x.status ≡ WithdrawStatus.approved)
                    × Both (λ t. find i t.applies ≡ some x)
                        (approve_apply env i reviewer remark s).1)
                  (ok_eq same) (refl, ground (arith, found, fit, calm, kept))
          ]
    ]

approval-ok :
    (env : LockedEnv) (pay : PayEnv) (i reviewer : ℕ) (remark : String) (s : Session) (r : Approval)
    → (approve_and_transfer env pay i reviewer remark s).0 ≡ ok r
    → (reviewed_approval env i reviewer remark s).0 ≡ ok r.apply
unfolding approve_and_transfer
approval-ok env pay i reviewer remark s r done =
    elim (Result-cases (reviewed_approval env i reviewer remark s).0) [
      | inr (x, raised) ↦ absurd (ground (arith, raised, done))
      | inl (a, approves) ↦
          elim (Result-cases
            (transfer_if pay i reviewer a pay.openid
              (reviewed_approval env i reviewer remark s).1).0) [
                | inr (e, raised) ↦ absurd (ground (arith, approves, raised, done))
                | inl (t, asks) ↦ ground (arith, approves, asks, done)
              ]
    ]

-- Once approved, and whatever WeChat answers, the stored application is approved: it is not put on
-- PROCESSING, all commits succeeding.
pub approve_and_transfer_stays_approved :
    (env : LockedEnv) (pay : PayEnv) (i reviewer : ℕ) (remark : String) (s : Session) (r : Approval)
    → s.faults ≡ []
    → (approve_and_transfer env pay i reviewer remark s).0 ≡ ok r
    → (r.apply.status ≡ WithdrawStatus.approved)
      × Both
          (λ t. find i t.applies ≡ some r.apply)
          (approve_and_transfer env pay i reviewer remark s).1
unfolding reviewed_approval
approve_and_transfer_stays_approved env pay i reviewer remark s r calm done =
    let (granted, approves) =
      reviewed-ok env.review_granted (approve_apply env.inner i reviewer remark) _ s r.apply
        (approval-ok env pay i reviewer remark s r done) in
    let (status, stored) =
      approve_apply_stores env.inner i reviewer remark s r.apply calm approves in
    (
      status,
      approve_and_transfer-Both (λ t. find i t.applies ≡ some r.apply) (λ t l h. h) env pay i
          reviewer remark s (λ refused. absurd (ground (arith, granted, refused))) stored,
    )
