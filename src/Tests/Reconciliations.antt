-- ===== src/Tests/Reconciliations.antt =====
-- Two orders that are SETTLED, of one user whose only settlement is of an earlier day.
use gaking.Base.{true, false, none, List, [], ◌∷◌, ◌≡◌, refl, ◌↔◌, ◌⊎◌, arith}
use gaking.Base.Int.{pos, ◌+ℤ◌, ◌-ℤ◌}
use gaking.Base.Table.{find, put}
use gaking.Store.Types.{WithdrawStatus, TransferStatus}
use gaking.Store.Reconciliation.{BatchStatus, ReconciliationType, Diff, DiffStatus, DiffType, Side}
use gaking.Store.Session.{Session, ok, err, Error, commit}
use gaking.Store.Keeps.{Both}
use gaking.Breaker.Circuit.{allow_request}
use gaking.Reconcile.Query.{Columns}
use gaking.Reconcile.Check.{build_diff, differences}
use gaking.Reconcile.Balance.{Agrees}
use gaking.Reconcile.Service.{
  ReconcileEnv, Report, new_batch, reviewed, run_reconciliation, save_diffs, is_terminal,
}
use gaking.Reconcile.RunLaws.{run_reconciliation-agrees, run_reconciliation_leaves_running}
use gaking.Reconcile.Keeps.{ReconcileCall, run_of, rerun, review_of, reconcile_all}
use gaking.Reconcile.ReviewLaws.{
  NoneAlerted, CriticalAlerted, reconcile_all-NoneAlerted, StoredDiff, reconcile_all-StoredDiff,
}
use gaking.Tests.Data.{session_of, tables_of}

abbrev columns : Columns
columns = record { order_time = λ i. 700000; settlement_time = λ i. 100; is_booked = λ v. true }

abbrev env : ReconcileEnv
env = record { lock_granted = true; now = 800000; columns = columns }

abbrev settled_day : Session
settled_day = session_of (tables_of WithdrawStatus.pending 40 TransferStatus.success)

-- day 8 has both orders, one of them without a settlement
abbrev report : Report
report = record {
  reconciliation_id = 1;
  status = BatchStatus.partly;
  diff_count = 3;
  critical_diff_count = 1;
}

runs : (run_reconciliation env 8 ReconciliationType.daily none settled_day).0 ≡ ok report
unfolding run_reconciliation allow_request commit ◌+ℤ◌ ◌-ℤ◌ find put
runs = refl

run_reconciliation-agrees_example :
    (report.status ≡ BatchStatus.success) ↔ Agrees columns 8 settled_day.working
run_reconciliation-agrees_example =
    run_reconciliation-agrees env 8 ReconciliationType.daily none settled_day report runs

-- the differences are not stored
abbrev failing : Session
failing = record settled_day { faults = true ∷ false ∷ [] }

raises :
    (run_reconciliation env 8 ReconciliationType.daily none failing).0 ≡ err Error.commit_failed
unfolding run_reconciliation allow_request commit ◌+ℤ◌ ◌-ℤ◌ find put
raises = refl

run_reconciliation_leaves_running_example :
    let after =
      (run_reconciliation env 8 ReconciliationType.daily none failing).1.committed.batches in
    (after ≡ []) ⊎ (after ≡ put 1 (new_batch 8 ReconciliationType.daily none) [])
run_reconciliation_leaves_running_example =
    run_reconciliation_leaves_running env 8 ReconciliationType.daily none failing
      Error.commit_failed refl raises

abbrev difference : Diff
difference = reviewed DiffStatus.resolved "known" 2 90 (
    build_diff 1 1 DiffType.order_settlement_mismatch Side.order Side.settlement (pos 8000) (pos 0)
      none none)

abbrev reviewing : Session
reviewing =
    let t = record settled_day.working { diffs = (1, difference) ∷ []; next_diff = 2 } in
    record settled_day { working = t; committed = t }

abbrev calls : List ReconcileCall
calls =
    run_of env 8 ReconciliationType.daily none
    ∷ review_of 1 DiffStatus.ignored "twice" 2 91
    ∷ review_of 2 DiffStatus.resolved "settled" 2 92
    ∷ rerun env 1 2
    ∷ []

reconcile_all-NoneAlerted_example :
    let s1 = reconcile_all calls reviewing in
    let (r, s2) = save_diffs (differences 4 columns 8 s1.working) s1 in
    Both NoneAlerted s1
    × Both NoneAlerted s2
    × (((dicts : List Diff) × (r ≡ ok dicts) × CriticalAlerted dicts)
        ⊎ (r ≡ err Error.commit_failed))
unfolding build_diff reviewed
reconcile_all-NoneAlerted_example =
    reconcile_all-NoneAlerted calls reviewing columns 8 4 ((refl, tt), (refl, tt))

reconcile_all-StoredDiff_example : Both (StoredDiff 1 difference) (reconcile_all calls reviewing)
unfolding find reviewed is_terminal
reconcile_all-StoredDiff_example =
    reconcile_all-StoredDiff 1 difference refl calls reviewing
      ((refl, (omega arith, tt)), (refl, (omega arith, tt)))
