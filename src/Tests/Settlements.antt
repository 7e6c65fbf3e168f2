-- ===== src/Tests/Settlements.antt =====
-- The theorems on the settlement of commissions, at concrete inputs.
use gaking.Base.{◌≡◌, refl, true, false, some, none, [], ◌∷◌, arith}
use gaking.Base.Int.{pos, ◌+ℤ◌, ◌*ℤ◌}
use gaking.Base.Money.{div_half_up}
use gaking.Base.Table.{find, sum_by, rows_where}
use gaking.Breaker.Circuit.{allow_request, record_success}
use gaking.Store.Types.{ColumnValue, num, str, TransferStatus, WithdrawStatus}
use gaking.Store.Session.{Session, Error, ok}
use gaking.Settlement.Atomic.{
  freeze_atomic, unfreeze_atomic, frozen_more, unfrozen, earned, new_settlement, settled_record,
}
use gaking.Settlement.AtomicLaws.{freeze_atomic_failed}
use gaking.Settlement.RoundTrip.{account_or_new, unfreeze-freeze}
use gaking.Settlement.Rules.{default_split, calculate}
use gaking.Settlement.Freeze.{
  OpEnv, OpResult, success, skipped, freeze_order, log_operation, freeze_on_settlable,
  unfreeze_on_settled,
}
use gaking.Settlement.FreezeOnce.{freeze_on_settlable_once}
use gaking.Settlement.TextStatus.{Fails, unfreeze_on_settled_text}
use gaking.Settlement.Settle.{settled_flow, flows_of, is_order_flow, settle_single_order}
use gaking.Settlement.SettleLaws.{settle_single_order_pays_frozen}
use gaking.Orders.Status
use gaking.Funds.Cover.{IsFunded, claim, hold}
use gaking.Funds.Keeps.{Both}
use gaking.Funds.Settlements.{unfreeze_atomic-IsFunded}
use Prim.Native.String.{String}
use gaking.Tests.Data.{alice, order_of, flow_of, held_record, tables_of, session, session_of}

abbrev failing : Session
failing = record session { faults = false ∷ [] }

freeze_atomic_failed_example :
    (freeze_atomic 9 (order_of 30) (pos 4000) (pos 1000) "S2" 30 62 failing).1.committed
    ≡ failing.committed
unfolding freeze_atomic find
freeze_atomic_failed_example =
    freeze_atomic_failed 9 (order_of 30) (pos 4000) (pos 1000) "S2" 30 62 failing
      {e = Error.commit_failed} refl

unfreeze-freeze_example :
    let s1 = (freeze_atomic 9 (order_of 30) (pos 4000) (pos 1000) "S2" 30 62 session).1 in
    let st = new_settlement 9 (order_of 30) (pos 4000) (pos 1000) "S2" 30 5 62 in
    let s2 = (unfreeze_atomic 4 st 99 s1).1 in
    ((unfreeze_atomic 4 st 99 s1).0 ≡ ok (settled_record st 99, 5))
    × (find 1 s2.committed.accounts ≡ some (unfrozen (frozen_more alice (pos 4000)) (pos 4000)))
    × (find 4 s2.committed.settlements ≡ some (settled_record st 99))
unfolding freeze_atomic find account_or_new
unfreeze-freeze_example =
    unfreeze-freeze 9 (order_of 30) (pos 4000) (pos 1000) "S2" 30 62 99 session {k = 4} {f = 5}
      (omega arith) refl refl

session-IsFunded : IsFunded 1 session.working
unfolding sum_by claim hold find ◌+ℤ◌
session-IsFunded =
    (omega arith, (omega arith, tt), (omega arith, tt), (omega arith, tt), (omega arith, tt))

unfreeze_atomic-IsFunded_example : Both (IsFunded 1) (unfreeze_atomic 3 held_record 63 session).1
unfolding find
unfreeze_atomic-IsFunded_example =
    unfreeze_atomic-IsFunded 1 3 held_record 63 session refl refl
      (session-IsFunded, session-IsFunded)

abbrev op_env : OpEnv
op_env = record {
  lock_granted = true;
  now = 62;
  settlement_no = "S2";
  delay_days = 30;
  operator_id = none;
}

abbrev settlable_orders : Session
settlable_orders = session_of (tables_of WithdrawStatus.pending 30 TransferStatus.pending)

abbrev frozen_result : OpResult
frozen_result = record { outcome = success; settlement_id = 4; amount = pos 4000 }

freeze_on_settlable_once_example :
    let s1 = (freeze_on_settlable op_env 9 settlable_orders).1 in
    let (r', s2) = freeze_on_settlable op_env 9 s1 in
    (r' ≡ ok (record { outcome = skipped; settlement_id = 4; amount = pos 4000 }))
    × (s2.committed ≡ s1.committed)
    × (s2.working ≡ s1.working)
unfolding freeze_on_settlable allow_request freeze_order find rows_where freeze_atomic log_operation
    record_success
freeze_on_settlable_once_example =
    freeze_on_settlable_once op_env op_env 9 settlable_orders {r = frozen_result} (omega arith, tt)
      refl refl refl

-- a driver that reads every status as a text
abbrev text_of : ColumnValue → ColumnValue
text_of (num n) = str "20"
text_of (str x) = str x

text_of_is : (v : ColumnValue) → (x : String) × (text_of v ≡ str x)
text_of_is (num n) = ("20", refl)
text_of_is (str x) = (x, refl)

abbrev settled_orders : TransferStatus → Session
settled_orders transfer = session_of (tables_of WithdrawStatus.pending 40 transfer)

unfreeze_on_settled_text_example :
    Fails
      (unfreeze_on_settled text_of op_env 8 (settled_orders TransferStatus.pending))
      (settled_orders TransferStatus.pending)
unfreeze_on_settled_text_example =
    unfreeze_on_settled_text text_of text_of_is op_env 8 (settled_orders TransferStatus.pending)

settle_single_order_pays_frozen_example :
    let (r, s') =
      settle_single_order (λ o. ok default_split) 8 "B7" (settled_orders TransferStatus.pending) in
    (r ≡ ok (settled_flow 5 (pos 4000)))
    × (find 1 s'.committed.accounts ≡ some (earned alice (pos 4000)))
unfolding find Status.value flows_of is_order_flow calculate rows_where ◌*ℤ◌ div_half_up
settle_single_order_pays_frozen_example =
    settle_single_order_pays_frozen (λ o. ok default_split) 8 "B7"
      (settled_orders TransferStatus.pending) {o = order_of 40} {k = 4}
      {f = flow_of 8 TransferStatus.pending} {rest = []} {split = default_split} {a = alice} refl
      refl refl refl refl refl (omega arith) refl refl

abbrev refunded_orders : Session
refunded_orders = session_of (tables_of WithdrawStatus.pending 60 TransferStatus.pending)
