-- ===== src/Refund/Once.antt =====
-- A commission is taken back once by backend/src/services/refund_deduction_service.py.
use gaking.Base.{
  ℕ, Bool, true, false, none, List, [], ◌∷◌, ◌++◌, ◌==◌, ==_iff, ◌&&◌, ◌≡◌, refl, sym, ap, ◌∙◌, inl,
  inr, arith, Option-cases, Bool-cases,
}
use gaking.Base.Int.{ℤ}
use gaking.Base.Table.{Table, find, put, rows_where, rows_where-put_new}
use gaking.Store.Types.{Order, CommissionFlow, TransferStatus}
use gaking.Store.Session.{
  Tables, Session, ok, err, Error, commit, commit_with, commit_bare, commit_bare_with,
}
use gaking.Settlement.Settle.{flows_of, is_order_flow, is_deduct_flow}
use gaking.Settlement.Atomic.{
  deduct_on_refund_atomic, is_pending_transfer, deduct_flow, deduct_pending, deduct_arrived,
}
use gaking.Accounts.Dao.{get_or_create_account_for_update, new_account}
use gaking.Refund.Validate.{Flows, can_deduct}
use gaking.Refund.ValidateLaws.{IsDeductible, Unchanged, pre_validate_deduct-cases}
use gaking.Refund.DeductLaws.{execute_cases, Unchanged-IsDeductible}
use gaking.Refund.Deduct.{
  Response, execute_refund_deduction, execute_checked, execute_first, execute_branch,
  execute_pending, execute_arrived, create_log, set_refunded, balances,
}

failed_flow : CommissionFlow → CommissionFlow
failed_flow f = record f { transfer_status = TransferStatus.failed }

-- The first row of a query stays the first one when it is replaced and still passes.
first-put :
    {V : Type 0} (p : V → Bool) (k : ℕ) (v w : V) (t rest : Table V)
    → rows_where p t ≡ (k, v) ∷ rest
    → p w ≡ true
    → (more : Table V) × (rows_where p (put k w t) ≡ (k, w) ∷ more)
unfolding rows_where put
first-put p k v w [] rest h passes = cc
first-put p k v w (e ∷ t) rest h passes = elim (Bool-cases (e.0 == k)) [
  | inl same ↦ (rows_where p t, ground (arith, same, passes))
  | inr other ↦ elim (Bool-cases (p e.1)) [
    | inl there ↦ absurd (ground (arith, other, there, h))
    | inr fails ↦
        let (more, found) = first-put p k v w t rest (ground (arith, fails, h)) passes in
        (more, ground (arith, other, fails, found))
  ]
]

first_passes :
    {V : Type 0} (p : V → Bool) (k : ℕ) (v : V) (t rest : Table V)
    → rows_where p t ≡ (k, v) ∷ rest
    → p v ≡ true
unfolding rows_where
first_passes p k v [] rest h = cc
first_passes p k v (e ∷ t) rest h = elim (Bool-cases (p e.1)) [
  | inl there ↦ ground (arith, there, h)
  | inr fails ↦ first_passes p k v t rest (rw fails at h)
]

pending_success :
    (i operator : ℕ) (o : Order) (k : ℕ) (f : CommissionFlow) (old : ℤ × ℤ) (s : Session)
    (r : Response)
    → is_pending_transfer f.transfer_status ≡ true
    → (execute_pending i operator o k f old s).0 ≡ ok r
    → let s1 = (execute_pending i operator o k f old s).1 in
      (s1.working.flows ≡ put k (failed_flow f) s.working.flows) × (s1.committed ≡ s1.working)
unfolding execute_pending deduct_on_refund_atomic deduct_pending commit commit_with commit_bare
    commit_bare_with failed_flow set_refunded create_log
pending_success i operator o k f old s r pends done = ground (arith, pends, done)

arrived_success :
    (i operator : ℕ) (o : Order) (k : ℕ) (f : CommissionFlow) (old : ℤ × ℤ) (s : Session)
    (r : Response)
    → is_pending_transfer f.transfer_status ≡ false
    → (execute_arrived i operator o k f old s).0 ≡ ok r
    → let s1 = (execute_arrived i operator o k f old s).1 in
      ((x : ℤ) × (s1.working.flows
          ≡ put s.working.next_flow (deduct_flow i o f.amount x) s.working.flows))
      × (s1.committed ≡ s1.working)
unfolding execute_arrived deduct_on_refund_atomic deduct_arrived commit commit_with commit_bare
    commit_bare_with create_log get_or_create_account_for_update
arrived_success i operator o k f old s r arrives done =
    elim (Option-cases (find o.user_id s.working.accounts)) [
      | inl missing ↦ (
        ((new_account o.user_id).available_balance, ground (arith, arrives, done, missing)),
        ground (arith, arrives, done, missing),
      )
      | inr (b, found) ↦ (
        (b.available_balance, ground (arith, arrives, done, found)),
        ground (arith, arrives, done, found),
      )
    ]

failed_stops : (f : CommissionFlow) → ¬ (can_deduct (failed_flow f).transfer_status ≡ true)
unfolding can_deduct failed_flow
failed_stops f h = cc

cons_eq : {A : Type 0} {x y : A} {xs ys : List A} → x ∷ xs ≡ y ∷ ys → x ≡ y
cons_eq h = cc

snoc-nil : {A : Type 0} (xs : List A) (x : A) → ¬ (xs ++ x ∷ [] ≡ [])
snoc-nil [] x h = cc
snoc-nil (y ∷ ys) x h = cc

-- Once a flow of the order has failed, or a deduction stands among them, the tests do not pass.
failed-stops :
    (i k : ℕ) (f : CommissionFlow) (fs : Flows) (t t' : Tables)
    → flows_of is_order_flow i t ≡ (k, f) ∷ fs
    → t'.flows ≡ put k (failed_flow f) t.flows
    → ¬ IsDeductible i t'
unfolding flows_of failed_flow
failed-stops i k f fs t t' flows changed (o, found, status, owned, (g, (gs, (first, can))), clear) =
    let p : CommissionFlow → Bool = λ f. f.order_id == i && is_order_flow f.flow_type in
    let (more, now) =
      first-put p k f (failed_flow f) t.flows fs flows (first_passes p k f t.flows fs flows) in
    let same : (k, failed_flow f) ≡ g = cons_eq (sym now ∙ rw changed at first) in
    failed_stops f (rw (← same) at can)

deducted_stops :
    (i : ℕ) (o : Order) (x y : ℤ) (t t' : Tables)
    → find t.next_flow t.flows ≡ none
    → t'.flows ≡ put t.next_flow (deduct_flow i o x y) t.flows
    → ¬ IsDeductible i t'
unfolding flows_of deduct_flow is_deduct_flow
deducted_stops i o x y t t' new changed (p, found, status, owned, first, clear) =
    snoc-nil (flows_of is_deduct_flow i t) (t.next_flow, deduct_flow i o x y)
      (sym (
          rw ((==_iff i i).1 refl) at (
            rows_where-put_new (λ f. f.order_id == i && is_deduct_flow f.flow_type) t.next_flow
              (deduct_flow i o x y) t.flows new))
        ∙ rw changed at clear)

abbrev Stops : ℕ → Session → Type 0
Stops i s = (¬ IsDeductible i s.working) × (s.committed ≡ s.working)

checked-Stops :
    (i operator : ℕ) (s : Session) (r : Response)
    → IsDeductible i s.working
    → find s.working.next_flow s.working.flows ≡ none
    → (execute_checked i operator s).0 ≡ ok r
    → Stops i (execute_checked i operator s).1
unfolding execute_checked execute_first execute_branch
checked-Stops i operator s r (o, found, status, owned, ((k, f), (fs, (flows, can))), clear) new
      done =
    let old = balances (find o.user_id s.working.accounts) in
    elim (Bool-cases (is_pending_transfer f.transfer_status)) [
      | inl pends ↦
          let now = rw (found, flows, clear, pends) at done in
          let (changed, clean) = pending_success i operator o k f old s r pends now in
          rw (found, flows, clear, pends)
            (
              failed-stops i k f fs s.working (execute_pending i operator o k f old s).1.working
                  flows changed,
              clean,
            )
      | inr arrives ↦
          let now = rw (found, flows, clear, arrives) at done in
          let ((x, changed), clean) = arrived_success i operator o k f old s r arrives now in
          rw (found, flows, clear, arrives)
            (
              deducted_stops i o f.amount x s.working
                  (execute_arrived i operator o k f old s).1.working new changed,
              clean,
            )
    ]

-- A deduction that has succeeded leaves tables that do not pass the tests again, and that are committed.
success-Stops :
    (i operator : ℕ) (s : Session) (r : Response)
    → find s.working.next_flow s.working.flows ≡ none
    → (execute_refund_deduction i operator s).0 ≡ ok r
    → Stops i (execute_refund_deduction i operator s).1
success-Stops i operator s r new done = elim (execute_cases i operator s) [
  | inl (e, raised) ↦ absurd (ground (arith, raised, done))
  | inr (s', deductible, same, clean, runs) ↦ rw runs (
      checked-Stops i operator s' r (Unchanged-IsDeductible i s.working s'.working same deductible)
        (ap (λ (t : Tables). find t.next_flow t.flows) same ∙ new)
        (sym (ap (λ x. x.0) runs) ∙ done))
]

-- Tables that do not pass the tests: the call is refused, and only the log of the tests is written.
pub refused :
    (i operator : ℕ) (s : Session)
    → ¬ IsDeductible i s.working
    → s.committed ≡ s.working
    → let (r, s') = execute_refund_deduction i operator s in
      (r ≡ err Error.validation_failed) × Unchanged s.committed s'.committed
unfolding execute_refund_deduction
refused i operator s fails clean =
    let (v, done, sound, kept) = pre_validate_deduct-cases i operator s in
    elim (Bool-cases v.validation_result) [
      | inl passes ↦ absurd (fails (sound passes))
      | inr stops ↦ elim kept [
        | inl (usable, same, now) ↦ ground (arith, done, stops, same, now, clean)
        | inr (lost, back, now) ↦ ground (arith, done, stops, now)
      ]
    ]

-- After a success a second call is refused by the tests, and writes no more than their log, whatever
-- commits fail.
pub execute_refund_deduction_once :
    (i operator other : ℕ) (s : Session) (r : Response)
    → find s.working.next_flow s.working.flows ≡ none
    → (execute_refund_deduction i operator s).0 ≡ ok r
    → let s1 = (execute_refund_deduction i operator s).1 in
      let (again, s2) = execute_refund_deduction i other s1 in
      (again ≡ err Error.validation_failed) × Unchanged s1.committed s2.committed
execute_refund_deduction_once i operator other s r new done =
    let (stops, clean) = success-Stops i operator s r new done in
    refused i other (execute_refund_deduction i operator s).1 stops clean
