-- ===== src/Settlement/FreezeBatch.antt =====
-- `batch_freeze_settlable` and `batch_unfreeze_settled` of
-- backend/src/services/commission_settlement_b12_service.py, on the orders that their queries give, each
-- with what its call finds.
use gaking.Base.{ℕ, suc, ◌+◌, ◌==◌, ◌≡◌, refl, List, [], ◌∷◌, if◌then◌else◌, arith}
use gaking.Store.Session.{Session, Result, ok, err, Action, ◌>>=◌, pure}
use gaking.Store.Types.{ColumnValue}
use gaking.Accounts.Dao.{attempt}
use gaking.Settlement.Settle.{BatchResult}
use gaking.Settlement.BatchLaws.{counted}
use gaking.Settlement.Freeze.{OpEnv, OpResult, Outcome, freeze_on_settlable, unfreeze_on_settled}

pub data BatchStatus : Type 0 where
  all_done partly_done : BatchStatus

counted_outcome : Outcome → BatchResult → BatchResult
counted_outcome Outcome.skipped b = record b { skipped_count = b.skipped_count + 1 }
counted_outcome Outcome.success b = record b { success_count = b.success_count + 1 }

-- a call that raises is counted
count_op : Result OpResult → BatchResult → BatchResult
unfolding counted_outcome
count_op (ok r) b = counted_outcome r.outcome b
count_op (err e) b = record b { failed_count = b.failed_count + 1 }

run_ops : (OpEnv → ℕ → Action OpResult) → List (OpEnv × ℕ) → BatchResult → Action BatchResult
unfolding count_op
run_ops call [] b = pure b
run_ops call (x ∷ xs) b = do r ← attempt (call x.0 x.1); run_ops call xs (count_op r b)

-- `_empty_batch_result`, with the total of the query
abbrev pub no_ops : ℕ → BatchResult
no_ops total = record { total = total; success_count = 0; failed_count = 0; skipped_count = 0 }

unfoldable pub status_of : BatchResult → BatchStatus
status_of b = if b.failed_count == 0 then all_done else partly_done

unfoldable pub batch_freeze_settlable : List (OpEnv × ℕ) → ℕ → Action BatchResult
unfolding run_ops
batch_freeze_settlable orders total = run_ops freeze_on_settlable orders (no_ops total)

unfoldable pub batch_unfreeze_settled :
    (ColumnValue → ColumnValue) → List (OpEnv × ℕ) → ℕ → Action BatchResult
unfolding run_ops
batch_unfreeze_settled load orders total = run_ops (unfreeze_on_settled load) orders (no_ops total)

size : List (OpEnv × ℕ) → ℕ
size [] = 0
size (x ∷ xs) = suc (size xs)

counted-count_op :
    (r : Result OpResult) (b : BatchResult) → counted (count_op r b) ≡ suc (counted b)
unfolding count_op counted_outcome
counted-count_op (ok r) b = ground arith
counted-count_op (err e) b = omega arith

run_ops_counts :
    (call : OpEnv → ℕ → Action OpResult) (xs : List (OpEnv × ℕ)) (b : BatchResult) (s : Session)
    → (b' : BatchResult) × ((run_ops call xs b s).0 ≡ ok b') × (counted b' ≡ counted b + size xs)
unfolding run_ops size
run_ops_counts call [] b s = (b, refl, omega arith)
run_ops_counts call (x ∷ xs) b s =
    let (r, s') = call x.0 x.1 s in
    let (b', done, total) = run_ops_counts call xs (count_op r b) s' in
    (b', done, omega (arith, total, counted-count_op r b))

-- A round of freezes never raises, whatever its calls do, and counts each order once.
batch_freeze_settlable_counts :
    (orders : List (OpEnv × ℕ)) (total : ℕ) (s : Session)
    → (b : BatchResult) × ((batch_freeze_settlable orders total s).0 ≡ ok b)
      × (counted b ≡ size orders)
unfolding batch_freeze_settlable
batch_freeze_settlable_counts orders total s =
    let (b, done, counts) = run_ops_counts freeze_on_settlable orders (no_ops total) s in
    (b, done, omega (arith, counts))
