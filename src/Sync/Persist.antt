-- ===== src/Sync/Persist.antt =====
-- `_persist_orders` of backend/src/services/order_sync_service.py over dao/order_sync_dao.py: what a
-- channel reports becomes new orders, and new states of the orders that are there. The cache of order
-- details is not modelled, nor are the columns of an order that only describe the goods.
use gaking.Base.{
  ℕ, suc, ◌+◌, ◌-◌, ◌*◌, Bool, true, false, Option, none, some, List, [], ◌∷◌, ◌++◌, ◌||◌,
  if◌then◌else◌,
}
use gaking.Base.Int.{pos}
use gaking.Base.Money.{div_half_even}
use gaking.Base.Table.{Table, put}
use gaking.Store.Types.{Order}
use gaking.Store.Session.{Tables, ok, err, Action, ◌>>=◌, ◌>>◌, pure, gets, modify, commit}
use gaking.Attribution.Engine.{
  Strategy, Sought, is_matched, is_empty, resolve_user, save_abnormal_order,
}
use Prim.Native.String.{String}
use Prim.Native.String.{◌++◌ as str_append}
use text.Mathlib.Text.{◌==◌ as str_eq}

-- An order as a channel reports it; amounts are whole cents, not below 0.
pub record OrderDto : Type 0 where
  pub origin_order_id : String
  pub goods_id : String
  pub order_status : String
  pub total_commission : ℕ
  pub pay_time : Option ℕ
  pub settle_time : Option ℕ

-- config/constants.py
abbrev pub common_statuses : List (String × ℕ)
common_statuses =
    ("待付款", 10)
    ∷ ("PAYING", 10)
    ∷ ("已付款", 30)
    ∷ ("PAID", 30)
    ∷ ("已确认收货", 30)
    ∷ ("CONFIRMED", 30)
    ∷ ("已结算", 40)
    ∷ ("SETTLED", 40)
    ∷ ("订单失效", 50)
    ∷ ("失效", 50)
    ∷ ("INVALID", 50)
    ∷ ("已退款", 60)
    ∷ ("REFUNDED", 60)
    ∷ []

abbrev pub myq_statuses : List (String × ℕ)
myq_statuses = ("3", 10) ∷ ("12", 30) ∷ ("14", 30) ∷ ("4", 40) ∷ ("13", 50) ∷ []

abbrev pub dta_statuses : List (String × ℕ)
dta_statuses = ("1", 10) ∷ ("2", 30) ∷ ("3", 40) ∷ ("-1", 50) ∷ []

-- CHANNEL_ORDER_STATUS_BY_CODE; the map of orderx is that of myq
abbrev pub channel_statuses : List (String × List (String × ℕ))
channel_statuses = ("myq", myq_statuses) ∷ ("orderx", myq_statuses) ∷ ("dta", dta_statuses) ∷ []

unfoldable pub lookup : {A : Type 0} → String → List (String × A) → Option A
lookup k [] = none
lookup k (e ∷ es) = if str_eq e.0 k then some e.1 else lookup k es

unfoldable pub or_else : {A : Type 0} → Option A → Option A → Option A
or_else none o = o
or_else (some a) o = some a

unfoldable pub map_of : Option (List (String × ℕ)) → List (String × ℕ)
map_of none = []
map_of (some l) = l

unfoldable pub has_no : String → Table Order → Bool
has_no no_ [] = false
has_no no_ (e ∷ t) = str_eq e.1.out_order_no no_ || has_no no_ t

abbrev pub rollback : Action (Unit {0})
rollback s = (ok tt, record s { working = s.committed })

abbrev pub add_order : Order → Tables → Tables
add_order o t = record t { orders = put t.next_order o t.orders; next_order = suc t.next_order }

unfoldable pub add_orders : List Order → Tables → Tables
add_orders [] t = t
add_orders (o ∷ os) t = add_orders os (add_order o t)

-- A row that the table holds, or an earlier one of the batch, violates the unique index.
unfoldable pub clashes : List Order → Table Order → Bool
clashes [] t = false
clashes (o ∷ os) t = has_no o.out_order_no t || clashes os ((0, o) ∷ t)

-- `except Exception`, with a default
unfoldable pub attempt_or : {A : Type 0} → A → Action A → Action A
attempt_or a m s = let (r, s') = m s in elim r [ ok b ↦ (ok b, s') | err e ↦ (ok a, s') ]

unfoldable pub insert_new : Order → Bool → Action ℕ
insert_new o true = rollback >> pure 0
insert_new o false = attempt_or 0 (modify (add_order o) >> commit >> pure 1)

-- `_fallback_single_insert`
unfoldable pub fallback_single_insert : List Order → Action ℕ
unfolding insert_new
fallback_single_insert [] = pure 0
fallback_single_insert (o ∷ os) = do
  known ← gets (λ t. has_no o.out_order_no t.orders)
  n ← insert_new o known
  rest ← fallback_single_insert os
  pure (n + rest)

unfoldable pub size : {A : Type 0} → List A → ℕ
size [] = 0
size (x ∷ xs) = suc (size xs)

-- the orders that the table does not hold
unfoldable pub only_new : List Order → Table Order → List Order
only_new [] t = []
only_new (o ∷ os) t = let rest = only_new os t in if has_no o.out_order_no t then rest else o ∷ rest

unfoldable pub create_all : List Order → Bool → Action ℕ
create_all [] clash = pure 0
create_all (o ∷ os) true = rollback >> fallback_single_insert (o ∷ os)
create_all (o ∷ os) false = modify (add_orders (o ∷ os)) >> commit >> pure (size (o ∷ os))

-- `batch_upsert_orders`
unfoldable pub batch_upsert_orders : List Order → Action ℕ
unfolding create_all
batch_upsert_orders os = do
  fresh ← gets (λ t. only_new os t.orders)
  clash ← gets (λ t. clashes fresh t.orders)
  create_all fresh clash

pub record StatusUpdate : Type 0 where
  pub out_order_no : String
  pub order_status : ℕ
  pub pay_time : Option ℕ
  pub settle_time : Option ℕ

unfoldable pub updated : StatusUpdate → Order → Order
unfolding or_else
updated u o = record o {
  order_status = u.order_status;
  pay_time = or_else u.pay_time o.pay_time;
  settle_time = or_else u.settle_time o.settle_time;
}

-- `UPDATE … WHERE out_order_no = …`: the rows, and how many have changed
unfoldable pub update_rows : StatusUpdate → Table Order → Table Order
update_rows u [] = []
update_rows u (e ∷ t) =
    let rest = update_rows u t in
    if str_eq e.1.out_order_no u.out_order_no then (e.0, updated u e.1) ∷ rest else e ∷ rest

unfoldable pub rowcount : StatusUpdate → Table Order → ℕ
rowcount u [] = 0
rowcount u (e ∷ t) =
    let rest = rowcount u t in if str_eq e.1.out_order_no u.out_order_no then suc rest else rest

-- `batch_update_status`
unfoldable pub batch_update_status : List StatusUpdate → Action ℕ
batch_update_status [] = pure 0
batch_update_status (u ∷ us) = do
  rows ← gets (λ t. rowcount u t.orders)
  n ←
      attempt_or 0
        (modify (λ t. record t { orders = update_rows u t.orders }) >> commit >> pure rows)
  rest ← batch_update_status us
  pure (n + rest)

-- What the loop over the reported orders gathers.
pub record Plan : Type 0 where
  pub new_orders : List Order
  pub updates : List StatusUpdate

-- `str.strip` of Python, and the strategies of the attribution
module _ (strip : String → String) (strategies : List Strategy) (channel_code : String) where
  -- `_map_channel_status`
  unfoldable pub map_channel_status : String → Option ℕ
  unfolding or_else lookup map_of is_empty
  map_channel_status status =
      if is_empty status
      then none
      else or_else (lookup (strip status) (map_of (lookup channel_code channel_statuses)))
          (lookup (strip status) common_statuses)

  status_or_pending : Option ℕ → ℕ
  status_or_pending none = 10
  status_or_pending (some n) = n

  -- `_build_order_data`
  unfoldable pub build_order_data : OrderDto → ℕ → Option ℕ → Order
  unfolding status_or_pending
  build_order_data o user_id mapped =
      let user = div_half_even (o.total_commission * 80) 100 in
      record {
        user_id = user_id;
        out_order_no = o.origin_order_id;
        internal_order_no = str_append "GAK" o.origin_order_id;
        total_commission = pos o.total_commission;
        user_commission = pos user;
        platform_commission = pos (o.total_commission - user);
        channel_code = channel_code;
        order_status = status_or_pending mapped;
        pay_time = o.pay_time;
        settle_time = o.settle_time;
      }

  unfoldable pub sought_of : OrderDto → Sought
  sought_of o = record {
    out_order_no = o.origin_order_id;
    goods_id = o.goods_id;
    channel_code = channel_code;
    pay_time = o.pay_time;
  }

  unfoldable pub update_of : OrderDto → Option ℕ → List StatusUpdate
  update_of o none = []
  update_of o (some status) =
      record {
        out_order_no = o.origin_order_id;
        order_status = status;
        pay_time = o.pay_time;
        settle_time = o.settle_time;
      }
      ∷ []

  -- the user of a new order; one without a user is put among the abnormal orders
  unfoldable pub user_of : OrderDto → Action ℕ
  unfolding sought_of
  user_of o =
      let m = resolve_user strategies (sought_of o) in
      if is_matched m then pure m.user_id else save_abnormal_order (sought_of o) m >> pure 0

  unfoldable pub with_new_order : OrderDto → Plan → ℕ → Plan
  with_new_order o p u = record p {
    new_orders = p.new_orders ++ build_order_data o u (map_channel_status o.order_status) ∷ [];
  }

  unfoldable pub plan_order : Table Order → OrderDto → Plan → Action Plan
  unfolding user_of update_of with_new_order
  plan_order known o p =
      if is_empty o.origin_order_id
      then pure p
      else (if has_no o.origin_order_id known
          then pure
              (record p { updates = p.updates ++ update_of o (map_channel_status o.order_status) })
          else (do u ← user_of o; pure (with_new_order o p u)))

  unfoldable pub plan_orders : Table Order → List OrderDto → Plan → Action Plan
  unfolding plan_order
  plan_orders known [] p = pure p
  plan_orders known (o ∷ os) p = plan_order known o p >>= plan_orders known os

  unfoldable pub persist_plan : Plan → Action (ℕ × ℕ)
  persist_plan p = do
    inserted ← attempt_or 0 (batch_upsert_orders p.new_orders)
    changed ← attempt_or 0 (batch_update_status p.updates)
    pure (inserted, changed)

  unfoldable pub persist_orders : List OrderDto → Action (ℕ × ℕ)
  unfolding persist_plan
  persist_orders orders = do
    known ← gets (λ t. t.orders)
    p ← plan_orders known orders (record { new_orders = []; updates = [] })
    persist_plan p
