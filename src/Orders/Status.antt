-- ===== src/Orders/Status.antt =====
-- backend/src/config/constants.py (OrderStatus), backend/src/config/b12_constants.py (the transition
-- tables) and `validate_transition` of backend/src/services/b12_order_state_machine_service.py.
use gaking.Base.{
  ℕ, Bool, true, false, Option, none, some, List, [], ◌∷◌, ◌==◌, if◌then◌else◌, not, ◌&&◌,
}
use Prim.Native.String.{String}

-- The column order_status holds the value of the IntEnum.
pub data OrderStatus : Type 0 where
  pending frozen settlable settled invalid refunded : OrderStatus

unfoldable pub value : OrderStatus → ℕ
value pending = 10
value frozen = 20
value settlable = 30
value settled = 40
value invalid = 50
value refunded = 60

-- `OrderStatus(n)`, none for a number that is no member
unfoldable pub of_value : ℕ → Option OrderStatus
of_value n =
    if n == 10
    then some pending
    else if n == 20
    then some frozen
    else if n == 30
    then some settlable
    else if n == 40
    then some settled
    else if n == 50
    then some invalid
    else if n == 60
    then some refunded
    else none

-- ORDER_STATUS_TRANSITIONS
unfoldable pub transitions : OrderStatus → List OrderStatus
transitions pending = frozen ∷ invalid ∷ refunded ∷ []
transitions frozen = settlable ∷ invalid ∷ []
transitions settlable = settled ∷ invalid ∷ []
transitions settled = refunded ∷ []
transitions invalid = []
transitions refunded = []

-- TERMINAL_STATUSES
unfoldable pub is_terminal : OrderStatus → Bool
is_terminal invalid = true
is_terminal refunded = true
is_terminal _ = false

-- MANUAL_OVERRIDEABLE_STATUSES
unfoldable pub can_manual_override : OrderStatus → Bool
can_manual_override pending = true
can_manual_override frozen = true
can_manual_override settlable = true
can_manual_override _ = false

-- ORDER_STATUS_TRANSITION_CONDITIONS
unfoldable pub condition : OrderStatus → OrderStatus → String
condition pending frozen = "订单已支付，支付金额 > 0"
condition pending invalid = "超时未支付或手动取消"
condition pending refunded = "支付前退款或订单取消退款"
condition frozen settlable = "渠道确认收货，结算周期到达"
condition frozen invalid = "订单异常或渠道标记失效"
condition settlable settled = "佣金结算完成"
condition settlable invalid = "订单异常或渠道标记失效"
condition settled refunded = "售后退款冲减完成"
condition _ _ = ""

-- The four ways out of `validate_transition`, by the message.
pub data Verdict : Type 0 where
  bad_target terminal not_allowed allowed : Verdict

pub record Validation : Type 0 where
  pub valid : Bool
  pub verdict : Verdict
  pub allowed_targets : List OrderStatus
  pub condition : String

unfoldable pub member : OrderStatus → List OrderStatus → Bool
unfolding value
member s [] = false
member s (t ∷ ts) = if value s == value t then true else member s ts

-- `ORDER_STATUS_TRANSITIONS.get(current, set())`
unfoldable pub allowed_of : Option OrderStatus → List OrderStatus
unfolding transitions
allowed_of none = []
allowed_of (some s) = transitions s

-- `current in TERMINAL_STATUSES`
unfoldable pub terminal_value : Option OrderStatus → Bool
unfolding is_terminal
terminal_value none = false
terminal_value (some s) = is_terminal s

unfoldable pub condition_of : Option OrderStatus → OrderStatus → String
unfolding condition
condition_of none t = ""
condition_of (some s) t = condition s t

unfoldable pub validate_target : Option OrderStatus → Option OrderStatus → Bool → Validation
unfolding allowed_of terminal_value condition_of member
validate_target current none manual = record {
  valid = false;
  verdict = bad_target;
  allowed_targets = allowed_of current;
  condition = "";
}
validate_target current (some target) manual =
    if terminal_value current && not manual
    then record { valid = false; verdict = terminal; allowed_targets = []; condition = "" }
    else if not (member target (allowed_of current))
    then record {
      valid = false;
      verdict = not_allowed;
      allowed_targets = allowed_of current;
      condition = "";
    }
    else record {
      valid = true;
      verdict = allowed;
      allowed_targets = allowed_of current;
      condition = condition_of current target;
    }

unfoldable pub validate_transition : ℕ → ℕ → Bool → Validation
unfolding validate_target of_value
validate_transition current target manual =
    validate_target (of_value current) (of_value target) manual
