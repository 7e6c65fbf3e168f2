-- ===== src/Reconcile/Query.antt =====
-- backend/src/dao/reconciliation_query_dao.py: what a reconciliation reads of one day.
use gaking.Base.{
  ℕ, suc, ◌*◌, Bool, true, false, List, [], ◌∷◌, not, ◌==◌, ◌&&◌, ◌||◌, ltb, leb, if◌then◌else◌,
}
use gaking.Base.Int.{ℤ, pos, ◌+ℤ◌, ltb_ℤ}
use gaking.Base.Table.{Table}
use gaking.Store.Types.{WithdrawApply, WithdrawStatus, Order, SettlementRecord, ColumnValue}
use gaking.Store.Session.{Tables}
use gaking.Orders.Status

-- What the queries find outside of the modelled columns: the create times of orders and settlements by
-- their keys, and how the database compares a stored settlement status with SETTLABLE, SETTLED and PAID.
pub record Columns : Type 0 where
  pub order_time : ℕ → ℕ
  pub settlement_time : ℕ → ℕ
  pub is_booked : ColumnValue → Bool

abbrev pub day_seconds : ℕ
day_seconds = 86400

-- `start_time <= create_time < end_time`, the date as a number of days
unfoldable pub in_day : ℕ → ℕ → Bool
in_day date time = leb (date * day_seconds) time && ltb time (suc date * day_seconds)

-- SETTLABLE or SETTLED
unfoldable pub is_due : ℕ → Bool
unfolding Status.value
is_due status = status == Status.value Status.settlable || status == Status.value Status.settled

unfoldable pub is_success : WithdrawStatus → Bool
is_success WithdrawStatus.success = true
is_success _ = false

-- the rows that pass a test of the row with its key
unfoldable pub select : {V : Type 0} → (ℕ × V → Bool) → Table V → Table V
select p [] = []
select p (e ∷ t) = let rest = select p t in if p e then e ∷ rest else rest

unfoldable pub orders_of : Columns → ℕ → Tables → Table Order
unfolding select is_due in_day
orders_of c date t =
    select (λ e. is_due e.1.order_status && in_day date (c.order_time e.0)) t.orders

unfoldable pub settlements_of : Columns → ℕ → Tables → Table SettlementRecord
unfolding select in_day
settlements_of c date t =
    select (λ e. c.is_booked e.1.settlement_status && in_day date (c.settlement_time e.0))
      t.settlements

unfoldable pub withdraws_of : ℕ → Tables → Table WithdrawApply
unfolding select is_success in_day
withdraws_of date t = select (λ e. is_success e.1.status && in_day date e.1.create_time) t.applies

-- `SUM(…) GROUP BY user_id`, read at one user; 0 without a row
unfoldable pub amount_of : {V : Type 0} → (V → ℕ) → (V → ℤ) → ℕ → Table V → ℤ
amount_of user amount u [] = pos 0
amount_of user amount u (e ∷ t) =
    let rest = amount_of user amount u t in if user e.1 == u then amount e.1 +ℤ rest else rest

-- `COUNT(…)`
unfoldable pub count_of : {V : Type 0} → (V → ℕ) → ℕ → Table V → ℕ
count_of user u [] = 0
count_of user u (e ∷ t) = let rest = count_of user u t in if user e.1 == u then suc rest else rest

unfoldable pub has_user : ℕ → List ℕ → Bool
has_user u [] = false
has_user u (v ∷ vs) = v == u || has_user u vs

-- `all_user_ids.update(….keys())`
unfoldable pub add_users : {V : Type 0} → (V → ℕ) → Table V → List ℕ → List ℕ
unfolding has_user
add_users user [] us = us
add_users user (e ∷ t) us =
    let vs = add_users user t us in if has_user (user e.1) vs then vs else user e.1 ∷ vs

-- The users of the day. The order of a set is not fixed, and no result depends on it.
unfoldable pub users : Columns → ℕ → Tables → List ℕ
unfolding add_users orders_of settlements_of withdraws_of
users c date t =
    add_users (λ w. w.user_id) (withdraws_of date t)
      (add_users (λ st. st.user_id) (settlements_of c date t)
        (add_users (λ o. o.user_id) (orders_of c date t) []))

unfoldable pub has_settlement : ℕ → Table SettlementRecord → Bool
has_settlement order_id [] = false
has_settlement order_id (e ∷ t) = e.1.order_id == order_id || has_settlement order_id t

-- `find_orders_without_settlement`
unfoldable pub unsettled_orders : Columns → ℕ → Tables → Table Order
unfolding select is_due in_day has_settlement
unsettled_orders c date t =
    select
      (λ e.
        is_due e.1.order_status
        && ltb_ℤ (pos 0) e.1.user_commission
        && in_day date (c.order_time e.0)
        && not (has_settlement e.0 t.settlements))
      t.orders

unfoldable pub has_due_order : ℕ → Table Order → Bool
unfolding is_due
has_due_order order_id [] = false
has_due_order order_id (e ∷ t) =
    e.0 == order_id && is_due e.1.order_status || has_due_order order_id t

-- `find_settlements_without_order`
unfoldable pub orphan_settlements : Columns → ℕ → Tables → Table SettlementRecord
unfolding select in_day has_due_order
orphan_settlements c date t =
    select (λ e. in_day date (c.settlement_time e.0) && not (has_due_order e.1.order_id t.orders))
      t.settlements
