-- ===== src/Refund/DeductLaws.antt =====
-- What backend/src/services/refund_deduction_service.py does after its tests.
use gaking.Base.{
  ℕ, Bool, true, false, ◌≡◌, ◌≢◌, sym, ap, ◌∙◌, subst, inl, inr, arith, ◌⊎◌, Bool-cases,
}
use gaking.Base.Int.{ℤ}
use gaking.Base.Table.{find}
use gaking.Store.Types.{Order, CommissionFlow}
use gaking.Store.Session.{Tables, Session, Result, ok, err, Error}
use gaking.Settlement.Settle.{flows_of}
use gaking.Settlement.Atomic.{is_pending_transfer}
use gaking.Refund.Validate.{pre_validate_deduct}
use gaking.Refund.ValidateLaws.{IsDeductible, Unchanged, pre_validate_deduct-cases}
use gaking.Refund.Deduct.{
  Response, skipped, success, Deduction, execute_refund_deduction, execute_checked, execute_first,
  execute_branch, execute_pending, execute_arrived, balances,
}

success-skipped : {d : Deduction} → ¬ (ok (success d) ≡ ok skipped)
success-skipped h = cc

-- Whatever a deduction's steps return, it is no skip.
abbrev Deducts : Result Response → Type 0
Deducts (ok skipped) = ⊥
Deducts (ok (success d)) = Unit
Deducts (err e) = Unit

execute_branch-Deducts :
    (pending : Bool) (i operator : ℕ) (o : Order) (k : ℕ) (f : CommissionFlow) (old : ℤ × ℤ)
    (s : Session)
    → Deducts (execute_branch pending i operator o k f old s).0
unfolding execute_branch execute_pending execute_arrived
execute_branch-Deducts true i operator o k f old s = ground arith
execute_branch-Deducts false i operator o k f old s = ground arith

checked-Deducts :
    (i operator : ℕ) (s : Session)
    → IsDeductible i s.working
    → Deducts (execute_checked i operator s).0
unfolding execute_checked execute_first
checked-Deducts i operator s (o, found, status, owned, (f, (fs, (flows, can))), clear) =
    rw (found, flows, clear)
      (execute_branch-Deducts (is_pending_transfer f.1.transfer_status) i operator o f.0 f.1
        (balances (find o.user_id s.working.accounts)) s)

pub Unchanged-IsDeductible :
    (i : ℕ) (t t' : Tables) → Unchanged t t' → IsDeductible i t → IsDeductible i t'
unfolding flows_of
Unchanged-IsDeductible i t t' same h =
    let moved : IsDeductible i (record t { validation_logs = t'.validation_logs }) = h in
    subst (IsDeductible i) (sym same) moved

-- A call raises, or runs its steps on the tables that have passed the tests.
pub execute_cases :
    (i operator : ℕ) (s : Session)
    → ((e : Error) × ((execute_refund_deduction i operator s).0 ≡ err e))
      ⊎ ((s' : Session) × IsDeductible i s.working
          × Unchanged s.working s'.working
          × (s'.committed ≡ s'.working)
          × (execute_refund_deduction i operator s ≡ execute_checked i operator s'))
unfolding execute_refund_deduction
execute_cases i operator s =
    let (v, done, sound, kept) = pre_validate_deduct-cases i operator s in
    elim (Bool-cases v.validation_result) [
      | inr fails ↦ inl (Error.validation_failed, ground (arith, done, fails))
      | inl passes ↦ elim kept [
        | inr (lost, back, same) ↦ inl (Error.session_inactive, ground (arith, done, passes, lost))
        | inl (usable, same, clean) ↦ inr (
          (pre_validate_deduct i operator s).1,
          sound passes,
          same,
          clean,
          ground (arith, done, passes, usable),
        )
      ]
    ]

-- The early returns are never reached: an order without a flow, and one that has been deducted, do not
-- pass the tests.
pub execute-ne-skipped :
    (i operator : ℕ) (s : Session) → (execute_refund_deduction i operator s).0 ≢ ok skipped
execute-ne-skipped i operator s h = elim (execute_cases i operator s) [
  | inl (e, raised) ↦ absurd (ground (arith, raised, h))
  | inr (s', deductible, same, clean, runs) ↦
      let fine =
        checked-Deducts i operator s'
          (Unchanged-IsDeductible i s.working s'.working same deductible) in
      let skips : (execute_checked i operator s').0 ≡ ok skipped = sym (ap (λ x. x.0) runs) ∙ h in
      rw skips at fine
]
