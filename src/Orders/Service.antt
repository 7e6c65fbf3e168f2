-- ===== src/Orders/Service.antt =====
-- `transition_order_status` and `batch_validate_transitions` of
-- backend/src/services/b12_order_state_machine_service.py.
use gaking.Base.{ℕ, Bool, false, Option, none, some, List, [], ◌∷◌, ◌==◌, if◌then◌else◌, not}
use gaking.Base.Table.{find, put}
use gaking.Store.Types.{Order, OrderOperationLog}
use gaking.Store.Session.{
  Tables, Error, Action, ◌>>=◌, ◌>>◌, pure, gets, or_raise, raise_if, modify, commit,
}
use gaking.Orders.Status.{OrderStatus, frozen, settled, value, Validation, validate_transition}
use Prim.Native.String.{String}
use text.Mathlib.Text.{◌==◌ as str_eq}

-- The arguments of one call, and the clock it reads.
pub record Request : Type 0 where
  pub order_id : ℕ
  pub target : ℕ
  pub operation_type : String
  pub operator_id : ℕ
  pub operator_name : String
  pub remark : String
  pub now : ℕ

-- OrderOperationType.MANUAL_OVERRIDE
unfoldable pub is_manual : Request → Bool
is_manual r = str_eq r.operation_type "manual_override"

-- `update_data`: the status, and the time that goes with two of the targets
unfoldable pub moved : Request → Order → Order
moved r o = record o {
  order_status = r.target;
  settle_time = if r.target == value settled then some r.now else o.settle_time;
  pay_time = if r.target == value frozen then some r.now else o.pay_time;
}

-- `remark or validation["condition"]`
remark_of : Request → Validation → String
remark_of r v = if str_eq r.remark "" then v.condition else r.remark

unfoldable pub log_of : Request → Order → Validation → OrderOperationLog
unfolding remark_of
log_of r o v = record {
  order_id = r.order_id;
  order_status_from = o.order_status;
  order_status_to = r.target;
  operation_type = r.operation_type;
  operator_id = r.operator_id;
  operator_name = r.operator_name;
  remark = remark_of r v;
}

-- steps 4 and 5: the update and the log entry, a commit each
unfoldable pub carry_out : Request → Order → Validation → Action Order
unfolding moved log_of value commit
carry_out r o v = do
  modify (λ t. record t { orders = put r.order_id (moved r o) t.orders })
  commit
  modify (λ t. record t { order_logs = log_of r o v ∷ t.order_logs })
  commit
  pure (moved r o)

unfoldable pub transition_found : Request → Order → Validation → Action Order
unfolding carry_out
transition_found r o v = do
  raise_if (not v.valid) Error.transition_refused
  if o.order_status == r.target then pure o else carry_out r o v

unfoldable pub transition_order_status : Request → Action Order
unfolding transition_found is_manual
transition_order_status r = do
  o ← or_raise (← gets (λ t. find r.order_id t.orders)) Error.order_missing
  transition_found r o (validate_transition o.order_status r.target (is_manual r))

-- One entry of the result of `batch_validate_transitions`.
pub record BatchEntry : Type 0 where
  pub order_id : ℕ
  pub current_status : ℕ
  pub valid : Bool
  pub allowed_targets : List OrderStatus

entry_of : Option Order → ℕ → ℕ → BatchEntry
entry_of none i target = record {
  order_id = i;
  current_status = 0;
  valid = false;
  allowed_targets = [];
}
entry_of (some o) i target =
    let v = validate_transition o.order_status target false in
    record {
      order_id = i;
      current_status = o.order_status;
      valid = v.valid;
      allowed_targets = v.allowed_targets;
    }

unfoldable pub batch_validate_transitions : List ℕ → ℕ → Tables → List BatchEntry
unfolding entry_of
batch_validate_transitions [] target t = []
batch_validate_transitions (i ∷ is) target t =
    entry_of (find i t.orders) i target ∷ batch_validate_transitions is target t
