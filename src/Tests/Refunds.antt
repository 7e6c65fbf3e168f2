-- ===== src/Tests/Refunds.antt =====
-- Two orders that are REFUNDED: order 8 with a flow that is pending, order 9 without one.
use gaking.Base.{ℕ, none, some, List, [], ◌∷◌, ◌≡◌, ◌≢◌, refl, arith}
use gaking.Base.Int.{ℤ, pos}
use gaking.Base.Listed.{Listed}
use gaking.Base.Table.{find, put, rows_where}
use gaking.Store.Types.{WithdrawStatus, TransferStatus, ReverseRecord}
use gaking.Store.Session.{
  Session, ok, err, Error, commit, commit_with, commit_bare, commit_bare_with,
}
use gaking.Store.Keeps.{Both}
use gaking.Settlement.Settle.{flows_of, is_order_flow, is_deduct_flow}
use gaking.Settlement.Atomic.{deduct_on_refund_atomic, deduct_pending, is_pending_transfer}
use gaking.Refund.Validate.{
  is_empty, item, can_deduct, transfer_status_items, deduct_items, all_passed, is_ok,
  save_validation_log, answer_with, validate_found, deduct_items_of, pre_validate_deduct,
}
use gaking.Refund.ValidateLaws.{Unchanged, IsDeductible}
use gaking.Refund.Deduct.{
  Response, skipped, success, balances, create_log, set_refunded, log_deduction, answer_pending,
  finish_pending, execute_pending, execute_branch, execute_first, execute_checked,
  execute_refund_deduction,
}
use gaking.Refund.DeductLaws.{execute-ne-skipped}
use gaking.Refund.Once.{execute_refund_deduction_once}
use gaking.Refund.Reverse.{
  new_record, execute_reverse_commission, adjust_commission, adjust_refused, is_failed, is_finished,
}
use gaking.Refund.ReverseBatch.{retryable, to_execute}
use gaking.Refund.Run.{
  Clawback, execute_record, adjust_record, execute_deduction, scheduled, perform_clawbacks,
}
use gaking.Refund.NoneFailed.{NoneFailed, perform_clawbacks-none_retryable}
use gaking.Refund.Listed.{}
use gaking.Refund.Stuck.{stuck, execute_reverse_commission_strands}
use Prim.Native.String.{String}
use gaking.Tests.Data.{order_of, session_of, tables_of}

abbrev refunded : Session
refunded = session_of (tables_of WithdrawStatus.pending 60 TransferStatus.pending)

abbrev row : ReverseRecord
row = new_record 9 (order_of 60) TransferStatus.pending 2 "ops"

abbrev recorded : Session
recorded =
    let t = record refunded.working { reverse_records = (1, row) ∷ []; next_reverse = 2 } in
    record refunded { working = t; committed = t }

abbrev deduction : Response
deduction = success (record {
  deduct_flow_id = none;
  deduct_amount = pos 5000;
  old_available_balance = pos 75000;
  new_available_balance = pos 75000;
})

deducts_pending : (execute_refund_deduction 8 2 refunded).0 ≡ ok deduction
unfolding execute_refund_deduction execute_checked execute_first execute_branch execute_pending
    finish_pending answer_pending log_deduction create_log set_refunded balances pre_validate_deduct
    validate_found answer_with save_validation_log is_ok deduct_items_of deduct_items item is_empty
    transfer_status_items can_deduct all_passed flows_of is_order_flow is_deduct_flow
    is_pending_transfer deduct_on_refund_atomic deduct_pending find put rows_where commit
    commit_with commit_bare commit_bare_with
deducts_pending = refl

execute_refund_deduction_once_example :
    let s1 = (execute_refund_deduction 8 2 refunded).1 in
    let (again, s2) = execute_refund_deduction 8 3 s1 in
    (again ≡ err Error.validation_failed) × Unchanged s1.committed s2.committed
unfolding find
execute_refund_deduction_once_example =
    execute_refund_deduction_once 8 2 3 refunded deduction refl deducts_pending

execute-ne-skipped_example : (execute_refund_deduction 9 2 refunded).0 ≢ ok skipped
execute-ne-skipped_example = execute-ne-skipped 9 2 refunded

abbrev clawbacks : List Clawback
clawbacks =
    execute_record 1 2 "ops"
    ∷ scheduled
    ∷ adjust_record 1 (pos 100) 2 "ops"
    ∷ execute_deduction 8 2
    ∷ []

perform_clawbacks-none_retryable_example :
    (retryable (perform_clawbacks clawbacks recorded).working ≡ [])
    × Both NoneFailed (perform_clawbacks clawbacks recorded)
unfolding is_failed new_record
perform_clawbacks-none_retryable_example =
    perform_clawbacks-none_retryable clawbacks recorded ((refl, tt), (refl, tt))

[]-∷ : {A : Type 0} {x : A} {xs : List A} → ¬ ([] ≡ x ∷ xs)
[]-∷ h = cc

undeductible : ¬ IsDeductible 9 recorded.working
unfolding flows_of rows_where is_order_flow
undeductible (o, found, status, owned, (f, (fs, (flows, can))), clear) = []-∷ flows

execute_reverse_commission_strands_example :
    let s1 = (execute_reverse_commission 1 2 "ops" recorded).1 in
    (find 1 s1.working.reverse_records ≡ some (stuck 2 "ops" row))
    × ((limit : ℕ) → ¬ Listed 1 (to_execute limit s1.working))
    × ((x : ℤ) (other : ℕ) (n : String) → (adjust_commission 1 x other n s1).0 ≡ ok adjust_refused)
unfolding find is_finished new_record
execute_reverse_commission_strands_example =
    execute_reverse_commission_strands 1 2 "ops" recorded row refl ((λ _. refl), tt) refl refl
      (omega arith) undeductible
