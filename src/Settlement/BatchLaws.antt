-- ===== src/Settlement/BatchLaws.antt =====
-- The loop of `batch_settle_orders` and `process_refund_deductions` of
-- backend/src/services/commission_settlement_service.py.
use gaking.Base.{ℕ, suc, ◌+◌, ◌≡◌, refl, List, [], ◌∷◌, arith}
use gaking.Store.Session.{Session, Result, ok, err, Action}
use gaking.Settlement.Settle.{
  SettleOutcome, skipped, settled_flow, deducted_flow, BatchResult, count, run_batch,
}

abbrev pub length : List ℕ → ℕ
length [] = 0
length (x ∷ xs) = suc (length xs)

-- the orders that the three counters have counted
abbrev pub counted : BatchResult → ℕ
counted b = b.success_count + b.failed_count + b.skipped_count

counted-count : (r : Result SettleOutcome) (b : BatchResult) → counted (count r b) ≡ suc (counted b)
unfolding count
counted-count (ok skipped) b = omega arith
counted-count (ok (settled_flow i x)) b = omega arith
counted-count (ok (deducted_flow i x)) b = omega arith
counted-count (err e) b = omega arith

-- A batch never raises, whatever its calls do, and counts each order once.
pub run_batch-counts :
    (call : ℕ → Action SettleOutcome) (is : List ℕ) (b : BatchResult) (s : Session)
    → (b' : BatchResult) × ((run_batch call is b s).0 ≡ ok b')
      × (counted b' ≡ counted b + length is)
unfolding run_batch
run_batch-counts call [] b s = (b, refl, omega arith)
run_batch-counts call (i ∷ is) b s =
    let (r, s') = call i s in
    let (b', done, total) = run_batch-counts call is (count r b) s' in
    (b', done, omega (arith, total, counted-count r b))
