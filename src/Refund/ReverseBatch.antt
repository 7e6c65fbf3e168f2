-- ===== src/Refund/ReverseBatch.antt =====
-- The queries and the loops of backend/src/services/b07_1_reverse_commission_service.py and
-- dao/b07_1_reverse_commission_dao.py: refunded orders are given a record, and the records are executed.
use gaking.Base.{
  ℕ, zero, suc, Bool, true, false, Option, none, some, List, [], ◌∷◌, ◌++◌, not, ◌==◌, ◌&&◌, ◌||◌,
  ltb, if◌then◌else◌,
}
use gaking.Base.Int.{ltb_ℤ, pos}
use gaking.Base.Table.{Table, rows_where}
use gaking.Store.Types.{Order, ReverseRecord, TransferStatus}
use gaking.Store.Session.{Tables, Result, ok, Action, ◌>>=◌, ◌>>◌, pure, gets, one_or_none}
use gaking.Accounts.Dao.{attempt}
use gaking.Orders.Status
use gaking.Settlement.Settle.{flows_of, is_order_flow}
use gaking.Refund.Validate.{Flows}
use gaking.Refund.Reverse.{
  new_record, create_record, is_identified, is_failed, Execution, reversed,
  execute_reverse_commission,
}
use Prim.Native.String.{String}

unfoldable pub take : {A : Type 0} → ℕ → List A → List A
take zero xs = []
take (suc n) [] = []
take (suc n) (x ∷ xs) = x ∷ take n xs

unfoldable pub has_record : ℕ → Table ReverseRecord → Bool
has_record order_id [] = false
has_record order_id (e ∷ t) = e.1.order_id == order_id || has_record order_id t

-- `list_refunded_orders_without_record`, without its limit
unfoldable pub unrecorded : Table ReverseRecord → Table Order → Table Order
unfolding has_record Status.value
unrecorded records [] = []
unrecorded records (e ∷ t) =
    let rest = unrecorded records t in
    if (e.1.order_status == Status.value Status.refunded)
      && ltb_ℤ (pos 0) e.1.user_commission
      && not (has_record e.0 records)
    then e ∷ rest
    else rest

-- `exists_by_order_id`: `scalar_one_or_none` raises on a second record
unfoldable pub exists_by_order_id : ℕ → Action Bool
unfolding is_failed
exists_by_order_id order_id = do
  rows ←
      gets (λ t.
        rows_where (λ r. r.order_id == order_id && not (is_failed r.status)) t.reverse_records)
  found ← one_or_none rows
  pure (elim found [ none ↦ false | some r ↦ true ])

-- the newest ORDER flow, as the query orders by the time of creation, descending
unfoldable pub newest : Flows → Option TransferStatus
newest [] = none
newest (f ∷ []) = some f.1.transfer_status
newest (f ∷ g ∷ fs) = newest (g ∷ fs)

-- Whether the order has been given a record.
unfoldable pub record_if_new : ℕ → Order → ℕ → String → TransferStatus → Bool → Action Bool
record_if_new order_id o operator name status true = pure false
record_if_new order_id o operator name status false =
    create_record (new_record order_id o status operator name) >> pure true

unfoldable pub identify_flow : ℕ → Order → ℕ → String → Option TransferStatus → Action Bool
unfolding record_if_new
identify_flow order_id o operator name none = pure false
identify_flow order_id o operator name (some status) =
    exists_by_order_id order_id >>= record_if_new order_id o operator name status

unfoldable pub identify_order : ℕ × Order → ℕ → String → Action Bool
unfolding identify_flow newest flows_of is_order_flow
identify_order (order_id, o) operator name =
    gets (λ t. newest (flows_of is_order_flow order_id t))
    >>= identify_flow order_id o operator name

-- `identified` and `skipped`, an order that raises being one of the latter
unfoldable pub count_identified : Result Bool → ℕ × ℕ → ℕ × ℕ
count_identified (ok true) (identified, skipped) = (suc identified, skipped)
count_identified _ (identified, skipped) = (identified, suc skipped)

unfoldable pub identify_all : Table Order → ℕ → String → ℕ × ℕ → Action (ℕ × ℕ)
unfolding count_identified
identify_all [] operator name counts = pure counts
identify_all (e ∷ t) operator name counts = do
  r ← attempt (identify_order e operator name)
  identify_all t operator name (count_identified r counts)

unfoldable pub identify_refund_orders : ℕ → ℕ → String → Action (ℕ × ℕ)
unfolding take identify_all unrecorded
identify_refund_orders limit operator name = do
  orders ← gets (λ t. take limit (unrecorded t.reverse_records t.orders))
  identify_all orders operator name (0, 0)

unfoldable pub keys : {V : Type 0} → Table V → List ℕ
keys [] = []
keys (e ∷ t) = e.0 ∷ keys t

-- `list_by_status(IDENTIFIED)`, and `list_retryable`
unfoldable pub waiting : Tables → List ℕ
unfolding keys is_identified
waiting t = keys (rows_where (λ r. is_identified r.status) t.reverse_records)

unfoldable pub retryable : Tables → List ℕ
unfolding keys is_failed
retryable t =
    keys (rows_where (λ r. is_failed r.status && ltb r.retry_count r.max_retry) t.reverse_records)

-- the records of one round
unfoldable pub to_execute : ℕ → Tables → List ℕ
unfolding take waiting retryable
to_execute limit t = take limit (take limit (waiting t) ++ take limit (retryable t))

unfoldable pub count_execution : Execution → ℕ × ℕ → ℕ × ℕ
count_execution (reversed x flow_id) (done, failed) = (suc done, failed)
count_execution _ (done, failed) = (done, suc failed)

unfoldable pub execute_all : List ℕ → ℕ → String → ℕ × ℕ → Action (ℕ × ℕ)
unfolding count_execution
execute_all [] operator name counts = pure counts
execute_all (i ∷ is) operator name counts = do
  x ← execute_reverse_commission i operator name
  execute_all is operator name (count_execution x counts)

-- `batch_execute`; an error is caught outside of the loop, and ends the round
unfoldable pub batch_execute : ℕ → ℕ → String → Action (Result (ℕ × ℕ))
unfolding execute_all to_execute
batch_execute limit operator name =
    attempt (gets (to_execute limit) >>= λ is. execute_all is operator name (0, 0))

abbrev pub system_operator : ℕ
system_operator = 0

abbrev pub batch_size : ℕ
batch_size = 50

-- `scheduled_reverse_commission`
unfoldable pub scheduled_reverse_commission : Action ((ℕ × ℕ) × Result (ℕ × ℕ))
unfolding identify_refund_orders batch_execute
scheduled_reverse_commission = do
  identified ← identify_refund_orders batch_size system_operator "系统自动"
  executed ← batch_execute batch_size system_operator "系统自动"
  pure (identified, executed)
