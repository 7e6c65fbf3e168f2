-- ===== src/Settlement/Freeze.antt =====
-- backend/src/services/commission_settlement_b12_service.py: a commission is frozen when its order is
-- confirmed, released when the channel has settled it, and marked paid. `load` is what reading the
-- status column gives for what was assigned to it.
use gaking.Base.{ℕ, Bool, true, false, Option, none, some, List, [], ◌∷◌, not, ◌==◌, if◌then◌else◌}
use gaking.Base.Int.{ℤ, pos}
use gaking.Base.Table.{find, put, rows_where}
use gaking.Breaker.Circuit.{default_settings, allow_request, record_success, record_failure}
use gaking.Store.Types.{ColumnValue, Order, SettlementRecord, SettlementOperationLog}
use gaking.Store.Session.{
  Session, Error, ok, err, Action, ◌>>=◌, ◌>>◌, pure, raise, gets, or_raise, raise_if, modify,
  commit, one_or_none,
}
use gaking.Orders.Status
use gaking.Settlement.Machine.{settled, paid, value, validate_transition, is_terminal}
use gaking.Settlement.Atomic.{freeze_atomic, unfreeze_atomic}
use Prim.Native.String.{String}

-- What a call finds outside the database: whether the lock was granted, the clock, and the number of
-- a new settlement record.
pub record OpEnv : Type 0 where
  pub lock_granted : Bool
  pub now : ℕ
  pub settlement_no : String
  pub delay_days : ℕ
  pub operator_id : Option ℕ

pub data Outcome : Type 0 where
  success skipped : Outcome

pub record OpResult : Type 0 where
  pub outcome : Outcome
  pub settlement_id : ℕ
  pub amount : ℤ

-- `settlement_dao.get_by_order_id`
unfoldable pub get_by_order_id : ℕ → Action (Option (ℕ × SettlementRecord))
unfolding one_or_none
get_by_order_id order_id = do
  rows ← gets (λ t. rows_where (λ st. st.order_id == order_id) t.settlements)
  one_or_none rows

-- `_check_breaker`
unfoldable pub check_breaker : ℕ → Action (Unit {0})
check_breaker now s =
    let (allowed, keys) = allow_request default_settings now s.breaker in
    (if allowed then ok tt else err Error.breaker_open, record s { breaker = keys })

-- `_record_success`, and `_record_failure`
abbrev pub breaker_success : ℕ → Action (Unit {0})
breaker_success now s =
    (ok tt, record s { breaker = record_success default_settings now s.breaker })

abbrev pub breaker_failure : ℕ → Session → Session
breaker_failure now s = record s { breaker = record_failure default_settings now s.breaker }

-- `try: …`, `except Exception: record_failure; raise`
unfoldable pub with_breaker : {A : Type 0} → ℕ → Action A → Action A
with_breaker now m s =
    let (r, s') = m s in elim r [ ok a ↦ (ok a, s') | err e ↦ (err e, breaker_failure now s') ]

-- the commit of one log entry, the failure of which is only a warning
logged : List Bool → SettlementOperationLog → Action (Unit {0})
logged [] e s =
    let t = record s.working { settlement_logs = e ∷ s.working.settlement_logs } in
    (ok tt, record s { working = t; committed = t })
logged (true ∷ rest) e s =
    let t = record s.working { settlement_logs = e ∷ s.working.settlement_logs } in
    (ok tt, record s { working = t; committed = t; faults = rest })
logged (false ∷ rest) e s = (ok tt, record s { working = s.committed; faults = rest })

-- `_log_operation`
unfoldable pub log_operation : SettlementOperationLog → Action (Unit {0})
unfolding logged
log_operation e s = logged s.faults e s

unfoldable pub freeze_log : OpEnv → ℕ → ℕ × ℕ → ℤ → ℕ → String → SettlementOperationLog
freeze_log env order_id (settlement_id, flow_id) amount to action = record {
  settlement_id = settlement_id;
  order_id = order_id;
  from_status = 10;
  to_status = to;
  action = action;
  amount = amount;
  operator_id = env.operator_id;
  flow_id = some flow_id;
}

-- step 4 on: skip an order that has a record, else freeze, log twice and tell the breaker
freeze_existing : OpEnv → ℕ → Order → Option (ℕ × SettlementRecord) → Action OpResult
unfolding freeze_log
freeze_existing env order_id o (some (i, st)) =
    pure (record { outcome = skipped; settlement_id = i; amount = st.user_commission })
freeze_existing env order_id o none = do
  ids ←
      freeze_atomic order_id o o.user_commission o.platform_commission env.settlement_no
        env.delay_days env.now
  log_operation (freeze_log env order_id ids o.user_commission 20 "freeze")
  log_operation (freeze_log env order_id ids o.user_commission 10 "create_settlement")
  breaker_success env.now
  pure (record { outcome = success; settlement_id = ids.0; amount = o.user_commission })

unfoldable pub freeze_order : OpEnv → ℕ → Action OpResult
unfolding get_by_order_id freeze_existing Status.value
freeze_order env order_id = do
  o ← or_raise (← gets (λ t. find order_id t.orders)) Error.order_missing
  raise_if (not (o.order_status == Status.value Status.settlable)) Error.order_status
  existing ← get_by_order_id order_id
  freeze_existing env order_id o existing

unfoldable pub freeze_on_settlable : OpEnv → ℕ → Action OpResult
unfolding with_breaker check_breaker
freeze_on_settlable env order_id = do
  raise_if (not env.lock_granted) Error.busy
  with_breaker env.now (check_breaker env.now >> freeze_order env order_id)

raise_some : Option Error → Action (Unit {0})
raise_some none = pure tt
raise_some (some e) = raise e

unfoldable pub unfreeze_log : OpEnv → ℕ → ℕ → ℕ → ℤ → SettlementOperationLog
unfreeze_log env order_id settlement_id flow_id amount = record {
  settlement_id = settlement_id;
  order_id = order_id;
  from_status = 20;
  to_status = 30;
  action = "unfreeze";
  amount = amount;
  operator_id = env.operator_id;
  flow_id = some flow_id;
}

module _ (load : ColumnValue → ColumnValue) where
  unfoldable pub unfreeze_record : OpEnv → ℕ → ℕ → SettlementRecord → Action OpResult
  unfolding raise_some unfreeze_log Status.value value
  unfreeze_record env order_id i st = do
    raise_some (validate_transition (load st.settlement_status) (value settled))
    o ← or_raise (← gets (λ t. find order_id t.orders)) Error.order_missing
    raise_if (not (o.order_status == Status.value Status.settled)) Error.order_status
    done ← unfreeze_atomic i st env.now
    log_operation (unfreeze_log env order_id i done.1 st.user_commission)
    breaker_success env.now
    pure (record { outcome = success; settlement_id = i; amount = st.user_commission })

  unfoldable pub unfreeze_order : OpEnv → ℕ → Action OpResult
  unfolding get_by_order_id unfreeze_record
  unfreeze_order env order_id = do
    found ← get_by_order_id order_id
    row ← or_raise found Error.settlement_missing
    unfreeze_record env order_id row.0 row.1

  unfoldable pub unfreeze_on_settled : OpEnv → ℕ → Action OpResult
  unfolding with_breaker check_breaker unfreeze_order
  unfreeze_on_settled env order_id = do
    raise_if (not env.lock_granted) Error.busy
    with_breaker env.now (check_breaker env.now >> unfreeze_order env order_id)

  paid_log : OpEnv → ℕ → SettlementRecord → SettlementOperationLog
  paid_log env i st = record {
    settlement_id = i;
    order_id = st.order_id;
    from_status = 30;
    to_status = 40;
    action = "mark_paid";
    amount = pos 0;
    operator_id = env.operator_id;
    flow_id = none;
  }

  unfoldable pub mark_paid : OpEnv → ℕ → Action OpResult
  unfolding raise_some paid_log value commit
  mark_paid env i = do
    st ← or_raise (← gets (λ t. find i t.settlements)) Error.settlement_missing
    if is_terminal (load st.settlement_status)
        then pure (record { outcome = skipped; settlement_id = i; amount = st.user_commission })
        else (do
          raise_some (validate_transition (load st.settlement_status) (value paid))
          modify (λ t. record t {
            settlements =
                put i (record st { settlement_status = value paid; paid_time = some env.now })
                  t.settlements;
          })
          commit
          log_operation (paid_log env i st)
          pure (record { outcome = success; settlement_id = i; amount = st.user_commission }))
