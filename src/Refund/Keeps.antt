-- ===== src/Refund/Keeps.antt =====
-- A property of the tables goes through the deductions of backend/src/services/refund_deduction_service.py
-- and the records of services/b07_1_reverse_commission_service.py.
use gaking.Base.{
  ℕ, Bool, true, false, Option, none, some, List, [], ◌∷◌, not, inl, inr, Option-cases, Bool-cases,
}
use gaking.Base.Int.{ℤ}
use gaking.Base.Table.{Table, find, put}
use gaking.Store.Types.{Order, CommissionFlow, ValidationLog, RefundLog}
use gaking.Store.Session.{Tables, Error, ◌>>=◌, pure, gets, raise_if}
use gaking.Store.Keeps.{Keeps, then-Keeps, commit-Keeps, commit_bare-Keeps}
use gaking.Orders.Status
use gaking.Settlement.Settle.{flows_of, is_order_flow, is_deduct_flow}
use gaking.Settlement.Atomic.{deduct_on_refund_atomic, is_pending_transfer}
use gaking.Refund.Validate.{
  Flows, save_validation_log, answer_with, validate_found, pre_validate_deduct,
}
use gaking.Refund.Deduct.{
  Response, execute_refund_deduction, execute_checked, execute_first, execute_branch,
  execute_pending, execute_arrived, create_log, set_refunded, balances, log_deduction,
  finish_pending, answer_pending, finish_arrived, read_arrived,
}

module _ (P : Tables → Type 0)
    (logged : (t : Tables) (v : List ValidationLog) (r : List RefundLog)
      → P t
      → P (record t { validation_logs = v; refund_logs = r }))
    (reordered : (t : Tables) (orders : Table Order) → P t → P (record t { orders = orders }))
    (refunded : (i : ℕ) (o : Order) (k : ℕ) (f : CommissionFlow)
      → Keeps P (deduct_on_refund_atomic i o k f)) where
  save_validation_log-Keeps : (e : ValidationLog) → Keeps P (save_validation_log e)
  unfolding save_validation_log
  save_validation_log-Keeps e s h =
      commit_bare-Keeps P
        (record s {
          working = record s.working { validation_logs = e ∷ s.working.validation_logs };
        })
        (h.0, logged s.working (e ∷ s.working.validation_logs) s.working.refund_logs h.1)

  pre_validate_deduct-Keeps : (i operator : ℕ) → Keeps P (pre_validate_deduct i operator)
  unfolding pre_validate_deduct validate_found answer_with
  pre_validate_deduct-Keeps i operator s h = elim (Option-cases (find i s.working.orders)) [
    | inl missing ↦ rw missing (save_validation_log-Keeps _ s h)
    | inr (o, found) ↦ rw found (save_validation_log-Keeps _ s h)
  ]

  create_log-Keeps : (e : RefundLog) → Keeps P (create_log e)
  unfolding create_log
  create_log-Keeps e s h =
      commit_bare-Keeps P
        (record s { working = record s.working { refund_logs = e ∷ s.working.refund_logs } })
        (h.0, logged s.working s.working.validation_logs (e ∷ s.working.refund_logs) h.1)

  set_refunded-Keeps : (i : ℕ) (o : Option Order) → Keeps P (set_refunded i o)
  unfolding set_refunded
  set_refunded-Keeps i none s h = h
  set_refunded-Keeps i (some o) s h =
      commit-Keeps P
        (record s {
          working = record s.working {
            orders =
                put i (record o { order_status = Status.value Status.refunded }) s.working.orders;
          };
        })
        (h.0, reordered s.working _ h.1)

  log_deduction-Keeps : (e : RefundLog) (r : Response) → Keeps P (log_deduction e r)
  unfolding log_deduction
  log_deduction-Keeps e r =
      then-Keeps P (create_log e) (λ _. pure r) (create_log-Keeps e) (λ _ s h. h)

  read_arrived-Keeps :
      (i operator : ℕ) (o : Order) (f : CommissionFlow) (old : ℤ × ℤ) (id : Option ℕ)
      → Keeps P (read_arrived i operator o f old id)
  unfolding read_arrived finish_arrived
  read_arrived-Keeps i operator o f old none s h = h
  read_arrived-Keeps i operator o f old (some id) s h = log_deduction-Keeps _ _ s h

  finish_pending-Keeps :
      (i operator : ℕ) (o : Order) (f : CommissionFlow) (old : ℤ × ℤ) (row : Option Order)
      → Keeps P (finish_pending i operator o f old row)
  unfolding finish_pending answer_pending
  finish_pending-Keeps i operator o f old row =
      then-Keeps P (set_refunded i row) (λ _. answer_pending i operator o f old)
        (set_refunded-Keeps i row) (λ _ s h. log_deduction-Keeps _ _ s h)

  execute_branch-Keeps :
      (pending : Bool) (i operator : ℕ) (o : Order) (k : ℕ) (f : CommissionFlow) (old : ℤ × ℤ)
      → Keeps P (execute_branch pending i operator o k f old)
  unfolding execute_branch execute_pending execute_arrived read_arrived finish_pending
      finish_arrived
  execute_branch-Keeps true i operator o k f old =
      then-Keeps P (deduct_on_refund_atomic i o k f)
        (λ _. gets (λ t. find i t.orders) >>= finish_pending i operator o f old) (refunded i o k f)
        (λ _ s h. finish_pending-Keeps i operator o f old (find i s.working.orders) s h)
  execute_branch-Keeps false i operator o k f old =
      then-Keeps P (deduct_on_refund_atomic i o k f) (read_arrived i operator o f old)
        (refunded i o k f) (read_arrived-Keeps i operator o f old)

  execute_first-Keeps :
      (i operator : ℕ) (o : Order) (flows deductions : Flows)
      → Keeps P (execute_first i operator o flows deductions)
  unfolding execute_first
  execute_first-Keeps i operator o [] deductions s h = h
  execute_first-Keeps i operator o (f ∷ fs) (d ∷ ds) s h = h
  execute_first-Keeps i operator o (f ∷ fs) [] s h =
      execute_branch-Keeps (is_pending_transfer f.1.transfer_status) i operator o f.0 f.1
        (balances (find o.user_id s.working.accounts)) s h

  execute_checked-Keeps : (i operator : ℕ) → Keeps P (execute_checked i operator)
  unfolding execute_checked
  execute_checked-Keeps i operator s h = elim (Option-cases (find i s.working.orders)) [
    | inl missing ↦ rw missing h
    | inr (o, found) ↦ rw found (
        execute_first-Keeps i operator o (flows_of is_order_flow i s.working)
          (flows_of is_deduct_flow i s.working) s h)
  ]

  pub execute_refund_deduction-Keeps :
      (i operator : ℕ) → Keeps P (execute_refund_deduction i operator)
  unfolding execute_refund_deduction
  execute_refund_deduction-Keeps i operator =
      then-Keeps P (pre_validate_deduct i operator)
        (λ v. raise_if (not v.validation_result) Error.validation_failed >>= λ _.
          raise_if (not v.usable) Error.session_inactive >>= λ _. execute_checked i operator)
        (pre_validate_deduct-Keeps i operator)
        (λ v s h. elim (Bool-cases v.validation_result) [
          | inl passes ↦ elim (Bool-cases v.usable) [
            | inl usable ↦ rw (passes, usable) (execute_checked-Keeps i operator s h)
            | inr lost ↦ rw (passes, lost) h
          ]
          | inr fails ↦ rw fails h
        ])
