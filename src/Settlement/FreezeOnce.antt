-- ===== src/Settlement/FreezeOnce.antt =====
-- backend/src/services/commission_settlement_b12_service.py: a freeze that is called again.
use gaking.Base.{
  ℕ, ◌≡◌, refl, ap, ◌∙◌, sym, subst, inl, inr, true, some, [], ◌∷◌, ◌==◌, arith, Option-cases,
  Bool-cases,
}
use gaking.Base.Int.{ℤ}
use gaking.Base.Table.{
  Table, find, put, rows_where, rows_where-put_new, List-cases, KeysBelow, find-KeysBelow,
}
use gaking.Breaker.Circuit.{default_settings, allow_request}
use gaking.Store.Types.{Order, SettlementRecord, SettlementOperationLog}
use gaking.Store.Session.{Session, ok, Result-cases, one_or_none}
use gaking.Orders.Status
use gaking.Settlement.Atomic.{freeze_atomic, new_settlement}
use gaking.Settlement.Freeze.{
  freeze_log, OpEnv, OpResult, skipped, success, freeze_on_settlable, freeze_order, get_by_order_id,
  log_operation, check_breaker, with_breaker,
}
use Prim.Native.String.{String}

-- What a freeze that has returned leaves: the order, SETTLABLE, and its only record.
abbrev pub Frozen : ℕ → OpResult → Session → Type 0
Frozen i r s =
    (o : Order) × (st : SettlementRecord) × (find i s.working.orders ≡ some o)
    × ((o.order_status == Status.value Status.settlable) ≡ true)
    × (rows_where (λ c. c.order_id == i) s.working.settlements ≡ (r.settlement_id, st) ∷ [])
    × (st.user_commission ≡ r.amount)

freeze_order_again :
    (env : OpEnv) (i : ℕ) (r : OpResult) (s : Session)
    → Frozen i r s
    → freeze_order env i s
      ≡ (ok (record { outcome = skipped; settlement_id = r.settlement_id; amount = r.amount }), s)
unfolding freeze_order get_by_order_id one_or_none
freeze_order_again env i r s (o, st, found, status, rows, amount) =
    ground (arith, found, status, rows, amount)

log_operation-kept :
    (e : SettlementOperationLog) (s : Session)
    → s.committed ≡ s.working
    → let s' = (log_operation e s).1 in
      (s'.committed ≡ s'.working)
      × (s'.working.orders ≡ s.working.orders)
      × (s'.working.settlements ≡ s.working.settlements)
unfolding log_operation
log_operation-kept e s clean =
    ground (arith, clean, ap (λ w. w.orders) clean, ap (λ w. w.settlements) clean)

-- A freeze that returns adds one row of the order to the settlements, and commits.
freeze_atomic-rows :
    (i : ℕ) (o : Order) (x y : ℤ) (number : String) (days now : ℕ) (s : Session) {k f : ℕ}
    → (freeze_atomic i o x y number days now s).0 ≡ ok (k, f)
    → let s' = (freeze_atomic i o x y number days now s).1 in
      (k ≡ s.working.next_settlement)
      × (s'.committed ≡ s'.working)
      × (s'.working.orders ≡ s.working.orders)
      × (s'.working.settlements
          ≡ put k (new_settlement i o x y number days f now) s.working.settlements)
unfolding freeze_atomic
freeze_atomic-rows i o x y number days now s h =
    elim (Option-cases (find o.user_id s.working.accounts)) [
      | inl missing ↦ ground (arith, missing)
      | inr (a, found) ↦ ground (arith, found)
    ]

new_settlement-row :
    (i : ℕ) (o : Order) (x y : ℤ) (number : String) (days f now k : ℕ) (t : Table SettlementRecord)
    → KeysBelow k t
    → rows_where (λ c. c.order_id == i) t ≡ []
    → rows_where (λ c. c.order_id == i) (put k (new_settlement i o x y number days f now) t)
      ≡ (k, new_settlement i o x y number days f now) ∷ []
unfolding new_settlement
new_settlement-row i o x y number days f now k t below absent =
    rows_where-put_new (λ c. c.order_id == i) k (new_settlement i o x y number days f now) t
      (find-KeysBelow k t below)
    ∙ ground (arith, absent)

new_settlement-amount :
    (i : ℕ) (o : Order) (x y : ℤ) (number : String) (days f now : ℕ)
    → (new_settlement i o x y number days f now).user_commission ≡ x
unfolding new_settlement
new_settlement-amount i o x y number days f now = refl

module _ (env : OpEnv) (i : ℕ) (s : Session) {r : OpResult} (o : Order) where
  freeze_new_leaves :
      (k f : ℕ)
      → find i s.working.orders ≡ some o
      → (o.order_status == Status.value Status.settlable) ≡ true
      → rows_where (λ c. c.order_id == i) s.working.settlements ≡ []
      → KeysBelow s.working.next_settlement s.working.settlements
      → (freeze_atomic i o o.user_commission o.platform_commission env.settlement_no env.delay_days
          env.now s).0
        ≡ ok (k, f)
      → (freeze_order env i s).0 ≡ ok r
      → Frozen i r (freeze_order env i s).1
  unfolding freeze_order get_by_order_id one_or_none
  freeze_new_leaves k f found status rows below e h =
      let x = o.user_commission in
      let st =
        new_settlement i o x o.platform_commission env.settlement_no env.delay_days f env.now in
      let s2 =
        (freeze_atomic i o x o.platform_commission env.settlement_no env.delay_days env.now s).1 in
      let s3 = (log_operation (freeze_log env i (k, f) x 20 "freeze") s2).1 in
      let s4 = (log_operation (freeze_log env i (k, f) x 10 "create_settlement") s3).1 in
      let (key, clean2, orders2, rows2) =
        freeze_atomic-rows i o x o.platform_commission env.settlement_no env.delay_days env.now s
          e in
      let (clean3, orders3, rows3) =
        log_operation-kept (freeze_log env i (k, f) x 20 "freeze") s2 clean2 in
      let (clean4, orders4, rows4) =
        log_operation-kept (freeze_log env i (k, f) x 10 "create_settlement") s3 clean3 in
      let below' : KeysBelow k s.working.settlements =
        subst (λ n. KeysBelow n s.working.settlements) (sym key) below in
      let end : (freeze_order env i s).1.working ≡ s4.working =
        ground (arith, found, status, rows, e) in
      let result : r ≡ record { outcome = success; settlement_id = k; amount = x } =
        ground (arith, found, status, rows, e, h) in
      (
        o,
        st,
        ap (λ w. find i w.orders) end ∙ ap (find i) (orders4 ∙ orders3 ∙ orders2) ∙ found,
        status,
        ap (λ w. rows_where (λ c. c.order_id == i) w.settlements) end
            ∙ ap (rows_where (λ c. c.order_id == i)) (rows4 ∙ rows3 ∙ rows2)
            ∙ new_settlement-row i o x o.platform_commission env.settlement_no env.delay_days f
                env.now k s.working.settlements below' rows
            ∙ ap (λ q. (q.settlement_id, st) ∷ []) (sym result),
        new_settlement-amount i o x o.platform_commission env.settlement_no env.delay_days f env.now
            ∙ ap (λ q. q.amount) (sym result),
      )

freeze_order_leaves :
    (env : OpEnv) (i : ℕ) (s : Session) {r : OpResult}
    → KeysBelow s.working.next_settlement s.working.settlements
    → (freeze_order env i s).0 ≡ ok r
    → Frozen i r (freeze_order env i s).1
unfolding freeze_order get_by_order_id one_or_none
freeze_order_leaves env i s {r = r} below h = elim (Option-cases (find i s.working.orders)) [
  | inl missing ↦ absurd (ground (arith, missing))
  | inr (o, found) ↦ elim (Bool-cases (o.order_status == Status.value Status.settlable)) [
    | inr off ↦ absurd (ground (arith, found, off))
    | inl status ↦ elim (List-cases (rows_where (λ c. c.order_id == i) s.working.settlements)) [
      | inl rows ↦
          elim (Result-cases
            (freeze_atomic i o o.user_commission o.platform_commission env.settlement_no
              env.delay_days env.now s).0) [
                | inl ((k, f), e) ↦ freeze_new_leaves env i s o k f found status rows below e h
                | inr (x, e) ↦ absurd (ground (arith, found, status, rows, e))
              ]
      | inr (inl (row, one)) ↦
          let result : r ≡ record {
            outcome = skipped;
            settlement_id = row.0;
            amount = row.1.user_commission;
          } =
            ground (arith, found, status, one, h) in
          let end : (freeze_order env i s).1 ≡ s = ground (arith, found, status, one) in
          (
            o,
            row.1,
            ap (λ w. find i w.working.orders) end ∙ found,
            status,
            ap (λ w. rows_where (λ c. c.order_id == i) w.working.settlements) end
                ∙ one
                ∙ ap (λ q. (q.settlement_id, row.1) ∷ []) (sym result),
            ap (λ q. q.amount) (sym result),
          )
      | inr (inr (v, w, rest, many)) ↦ absurd (ground (arith, found, status, many))
    ]
  ]
]

freeze_on_settlable_leaves :
    (env : OpEnv) (i : ℕ) (s : Session) {r : OpResult}
    → KeysBelow s.working.next_settlement s.working.settlements
    → (freeze_on_settlable env i s).0 ≡ ok r
    → Frozen i r (freeze_on_settlable env i s).1
unfolding freeze_on_settlable check_breaker with_breaker
freeze_on_settlable_leaves env i s {r = r} below h = elim (Bool-cases env.lock_granted) [
  | inr waits ↦ absurd (ground (arith, waits))
  | inl granted ↦ elim (Bool-cases (allow_request default_settings env.now s.breaker).0) [
    | inr blocked ↦ absurd (ground (arith, granted, blocked))
    | inl allowed ↦
        let s1 = record s { breaker = (allow_request default_settings env.now s.breaker).1 } in
        elim (Result-cases (freeze_order env i s1).0) [
          | inr (x, e) ↦ absurd (ground (arith, granted, allowed, e))
          | inl (q, e) ↦
              let same : q ≡ r = ground (arith, granted, allowed, e, h) in
              let end : (freeze_on_settlable env i s).1 ≡ (freeze_order env i s1).1 =
                ground (arith, granted, allowed, e) in
              subst (Frozen i r) (sym end)
                (freeze_order_leaves env i s1 below (e ∙ ap (λ c. ok c) same))
        ]
  ]
]

-- A freeze that has returned is idempotent: where no settlement id in use is given again, the lock is
-- granted and the breaker lets it pass, a second call skips the order, names the same record and
-- amount, and changes no table.
pub freeze_on_settlable_once :
    (env later : OpEnv) (i : ℕ) (s : Session) {r : OpResult}
    → KeysBelow s.working.next_settlement s.working.settlements
    → (freeze_on_settlable env i s).0 ≡ ok r
    → later.lock_granted ≡ true
    → let s1 = (freeze_on_settlable env i s).1 in
      (allow_request default_settings later.now s1.breaker).0 ≡ true
      → let (r', s2) = freeze_on_settlable later i s1 in
        (r' ≡ ok (record { outcome = skipped; settlement_id = r.settlement_id; amount = r.amount }))
        × (s2.committed ≡ s1.committed)
        × (s2.working ≡ s1.working)
unfolding freeze_on_settlable check_breaker with_breaker
freeze_on_settlable_once env later i s {r = r} below h granted allowed =
    let s1 = (freeze_on_settlable env i s).1 in
    let s1' = record s1 { breaker = (allow_request default_settings later.now s1.breaker).1 } in
    let again = freeze_order_again later i r s1' (freeze_on_settlable_leaves env i s below h) in
    (
      ground (arith, granted, allowed, again),
      ground (arith, granted, allowed, again),
      ground (arith, granted, allowed, again),
    )
