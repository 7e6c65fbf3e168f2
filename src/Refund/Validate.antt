-- ===== src/Refund/Validate.antt =====
-- backend/src/services/commission_flow_validation_service.py: the tests before a commission is paid or
-- taken back, and the log of them. The texts that explain a test are not modelled.
use gaking.Base.{
  ℕ, suc, Bool, true, false, Option, none, some, List, [], ◌∷◌, ◌++◌, not, ◌==◌, ◌&&◌, ltb,
  if◌then◌else◌,
}
use gaking.Base.Int.{ltb_ℤ, leb_ℤ, pos}
use gaking.Base.Table.{find}
use gaking.Store.Types.{Order, CommissionFlow, TransferStatus, CheckItem, ValidationLog}
use gaking.Store.Session.{
  Tables, Result, ok, err, Action, ◌>>=◌, ◌>>◌, pure, gets, modify, commit_bare,
}
use gaking.Accounts.Dao.{attempt}
use gaking.Orders.Status
use gaking.Settlement.Settle.{flows_of, is_order_flow, is_deduct_flow}
use Prim.Native.String.{String}

abbrev pub Flows : Type 0
Flows = List (ℕ × CommissionFlow)

unfoldable pub is_empty : Flows → Bool
is_empty [] = true
is_empty (f ∷ fs) = false

unfoldable pub item : String → Bool → CheckItem
item name passed = record { name = name; passed = passed }

-- `_check_order_status`, `_check_commission_amount`, `_check_commission_overrun`,
-- `_check_duplicate_flow`, `_check_user_id`, in the order of the calls
unfoldable pub settle_items : Order → Flows → List CheckItem
unfolding item is_empty Status.value
settle_items o order_flows =
    item "order_exists" true
    ∷ item "order_status" (o.order_status == Status.value Status.settled)
    ∷ item "commission_amount" (ltb_ℤ (pos 0) o.user_commission)
    ∷ item "commission_overrun" (leb_ℤ o.user_commission o.total_commission)
    ∷ item "duplicate_flow" (is_empty order_flows)
    ∷ item "user_id_valid" (ltb 0 o.user_id)
    ∷ []

unfoldable pub can_deduct : TransferStatus → Bool
can_deduct TransferStatus.pending = true
can_deduct TransferStatus.success = true
can_deduct _ = false

-- `if order_flows: _check_flow_transfer_status(order_flows[0])`
unfoldable pub transfer_status_items : Flows → List CheckItem
unfolding item can_deduct
transfer_status_items [] = []
transfer_status_items (f ∷ fs) = item "flow_transfer_status" (can_deduct f.1.transfer_status) ∷ []

-- `_check_deduct_order_status`, `_check_order_flow_exists`, `_check_flow_transfer_status`,
-- `_check_duplicate_deduct`, `_check_user_id`, in the order of the calls
unfoldable pub deduct_items : Order → Flows → Flows → List CheckItem
unfolding item is_empty transfer_status_items Status.value
deduct_items o order_flows deduct_flows =
    item "order_exists" true
      ∷ item "order_status" (o.order_status == Status.value Status.refunded)
      ∷ item "order_flow_exists" (not (is_empty order_flows))
      ∷ transfer_status_items order_flows
    ++ item "duplicate_deduct" (is_empty deduct_flows) ∷ item "user_id_valid" (ltb 0 o.user_id) ∷ []

-- `all_passed`
unfoldable pub all_passed : List CheckItem → Bool
all_passed [] = true
all_passed (i ∷ is) = i.passed && all_passed is

-- The answer, and whether the session can still be used.
pub record Validation : Type 0 where
  pub validation_result : Bool
  pub check_items : List CheckItem
  pub usable : Bool

unfoldable pub is_ok : Result (Unit {0}) → Bool
is_ok (ok _) = true
is_ok (err e) = false

-- `_save_validation_log`: a failure is only logged, and the session is not rolled back
unfoldable pub save_validation_log : ValidationLog → Action Bool
unfolding is_ok
save_validation_log e = do
  r ← attempt (modify (λ t. record t { validation_logs = e ∷ t.validation_logs }) >> commit_bare)
  pure (is_ok r)

-- the log of the tests, and the answer
unfoldable pub answer_with : ℕ → ℕ → String → ℕ → List CheckItem → Action Validation
unfolding save_validation_log all_passed
answer_with order_id user_id type operator items = do
  usable ← save_validation_log (record {
    order_id = order_id;
    user_id = user_id;
    validation_type = type;
    validation_result = all_passed items;
    check_items = items;
    operator_id = operator;
  })
  pure (record { validation_result = all_passed items; check_items = items; usable = usable })

-- the tests of an order that may be missing
unfoldable pub validate_found :
    String → (Order → Tables → List CheckItem) → ℕ → ℕ → Option Order → Action Validation
unfolding answer_with
validate_found type items order_id operator none =
    answer_with order_id 0 type operator (item "order_exists" false ∷ [])
validate_found type items order_id operator (some o) =
    gets (items o) >>= answer_with order_id o.user_id type operator

unfoldable pub settle_items_of : ℕ → Order → Tables → List CheckItem
unfolding settle_items flows_of is_order_flow
settle_items_of order_id o t = settle_items o (flows_of is_order_flow order_id t)

unfoldable pub deduct_items_of : ℕ → Order → Tables → List CheckItem
unfolding deduct_items flows_of is_order_flow is_deduct_flow
deduct_items_of order_id o t =
    deduct_items o (flows_of is_order_flow order_id t) (flows_of is_deduct_flow order_id t)

unfoldable pub pre_validate_settle : ℕ → ℕ → Action Validation
unfolding validate_found settle_items_of
pre_validate_settle order_id operator = do
  o ← gets (λ t. find order_id t.orders)
  validate_found "PRE_SETTLE" (settle_items_of order_id) order_id operator o

unfoldable pub pre_validate_deduct : ℕ → ℕ → Action Validation
unfolding validate_found deduct_items_of
pre_validate_deduct order_id operator = do
  o ← gets (λ t. find order_id t.orders)
  validate_found "PRE_DEDUCT" (deduct_items_of order_id) order_id operator o

-- `batch_pre_validate`: how many orders pass, and how many do not. From the first log that fails on,
-- every call raises.
unfoldable pub count_validation : Validation → ℕ × ℕ → ℕ × ℕ
count_validation v (passed, failed) =
    if v.validation_result then (suc passed, failed) else (passed, suc failed)

unfoldable pub batch_pre_validate : ℕ → Bool → List ℕ → ℕ × ℕ → Action (ℕ × ℕ)
unfolding count_validation
batch_pre_validate operator usable [] counts = pure counts
batch_pre_validate operator true (i ∷ is) counts = do
  v ← pre_validate_settle i operator
  batch_pre_validate operator v.usable is (count_validation v counts)
batch_pre_validate operator false (i ∷ is) (passed, failed) =
    batch_pre_validate operator false is (passed, suc failed)
