-- ===== src/Sync/Unique.antt =====
-- No order of a channel is stored twice by backend/src/services/order_sync_service.py, whatever it
-- reports and whichever commits fail.
use gaking.Base.{ℕ, ◌+◌, Bool, true, false, List, [], ◌∷◌, ◌≡◌, refl, inl, inr, arith, Bool-cases}
use gaking.Base.Table.{Table}
use gaking.Store.Types.{Order}
use gaking.Store.Session.{Session, Result-cases, Tables, Action, ◌>>=◌, ◌>>◌, pure, modify, commit}
use gaking.Store.Keeps.{Both, Keeps, then-Both, then-Keeps, save-Keeps, commit-Keeps}
use gaking.Attribution.Engine.{
  Strategy, Sought, MatchResult, is_matched, is_empty, resolve_user, save_abnormal_order,
  is_abnormal,
}
use gaking.Sync.Persist.{
  OrderDto, has_no, add_order, add_orders, clashes, attempt_or, insert_new, fallback_single_insert,
  only_new, create_all, batch_upsert_orders, StatusUpdate, update_rows, rowcount,
  batch_update_status, Plan, persist_plan, with_new_order, sought_of, user_of, plan_order,
  plan_orders, persist_orders,
}
use Prim.Native.String.{String}
use gaking.Sync.Index.{
  IsIndexed, add_order-IsIndexed, add_orders-IsIndexed, update_rows-IsUnique, update_rows-KeysBelow,
}

attempt_or-Both :
    (P : Tables → Type 0) {A : Type 0} (a : A) (m : Action A) (s : Session)
    → Both P (m s).1
    → Both P (attempt_or a m s).1
unfolding attempt_or
attempt_or-Both P a m s h = elim (Result-cases (m s).0) [
  | inl (b, done) ↦ ground (arith, done, h)
  | inr (e, raised) ↦ ground (arith, raised, h)
]

insert_new-Both :
    (o : Order) (known : Bool) (s : Session)
    → has_no o.out_order_no s.working.orders ≡ known
    → Both IsIndexed s
    → Both IsIndexed (insert_new o known s).1
unfolding insert_new
insert_new-Both o true s k h = (h.0, h.0)
insert_new-Both o false s k h =
    attempt_or-Both IsIndexed 0 (modify (add_order o) >> commit >> pure 1) s
      (save-Keeps IsIndexed (add_order o) 1 s h.0 (add_order-IsIndexed o s.working k h.1))

fallback_single_insert-Keeps : (os : List Order) → Keeps IsIndexed (fallback_single_insert os)
unfolding fallback_single_insert
fallback_single_insert-Keeps [] s h = h
fallback_single_insert-Keeps (o ∷ os) s h =
    then-Both IsIndexed (insert_new o (has_no o.out_order_no s.working.orders))
      (λ n. fallback_single_insert os >>= λ rest. pure (n + rest)) s (insert_new-Both o _ s refl h)
      (λ n.
        then-Keeps IsIndexed (fallback_single_insert os) (λ rest. pure (n + rest))
          (fallback_single_insert-Keeps os) (λ rest s' h'. h'))

create_all-Both :
    (os : List Order) (clash : Bool) (s : Session)
    → clashes os s.working.orders ≡ clash
    → Both IsIndexed s
    → Both IsIndexed (create_all os clash s).1
unfolding create_all
create_all-Both [] clash s c h = h
create_all-Both (o ∷ os) true s c h = fallback_single_insert-Keeps (o ∷ os) _ (h.0, h.0)
create_all-Both (o ∷ os) false s c h =
    save-Keeps IsIndexed (add_orders (o ∷ os)) _ s h.0
      (add_orders-IsIndexed (o ∷ os) s.working c h.1)

batch_upsert_orders-Keeps : (os : List Order) → Keeps IsIndexed (batch_upsert_orders os)
unfolding batch_upsert_orders
batch_upsert_orders-Keeps os s h = create_all-Both (only_new os s.working.orders) _ s refl h

batch_update_status-Keeps : (us : List StatusUpdate) → Keeps IsIndexed (batch_update_status us)
unfolding batch_update_status
batch_update_status-Keeps [] s h = h
batch_update_status-Keeps (u ∷ us) s h =
    let f : Tables → Tables = (λ t. record t { orders = update_rows u t.orders }) in
    let rows = rowcount u s.working.orders in
    then-Both IsIndexed (attempt_or 0 (modify f >> commit >> pure rows))
      (λ n. batch_update_status us >>= λ rest. pure (n + rest)) s
      (attempt_or-Both IsIndexed 0 (modify f >> commit >> pure rows) s (
        save-Keeps IsIndexed f rows s h.0 (
          update_rows-IsUnique u s.working.orders h.1.0,
          update_rows-KeysBelow s.working.next_order u s.working.orders h.1.1,
        )))
      (λ n.
        then-Keeps IsIndexed (batch_update_status us) (λ rest. pure (n + rest))
          (batch_update_status-Keeps us) (λ rest s' h'. h'))

save_abnormal_order-Keeps :
    (q : Sought) (m : MatchResult) → Keeps IsIndexed (save_abnormal_order q m)
unfolding save_abnormal_order
save_abnormal_order-Keeps q m s h =
    elim (Bool-cases (is_abnormal q.out_order_no s.working.abnormal_orders)) [
      | inl known ↦ rw known h
      | inr new ↦ rw new (commit-Keeps IsIndexed _ h)
    ]

module _ (strip : String → String) (strategies : List Strategy) (channel_code : String) where
  user_of-Keeps : (o : OrderDto) → Keeps IsIndexed (user_of strip strategies channel_code o)
  unfolding user_of
  user_of-Keeps o s h =
      let q = sought_of strip strategies channel_code o in
      elim (Bool-cases (is_matched (resolve_user strategies q))) [
        | inl matched ↦ rw matched h
        | inr nobody ↦ rw nobody (
            then-Keeps IsIndexed (save_abnormal_order q (resolve_user strategies q)) (λ _. pure 0)
              (save_abnormal_order-Keeps q (resolve_user strategies q)) (λ _ s' h'. h') s h)
      ]

  plan_order-Keeps :
      (known : Table Order) (o : OrderDto) (p : Plan)
      → Keeps IsIndexed (plan_order strip strategies channel_code known o p)
  unfolding plan_order
  plan_order-Keeps known o p s h = elim (Bool-cases (is_empty o.origin_order_id)) [
    | inl unnumbered ↦ rw unnumbered h
    | inr numbered ↦ elim (Bool-cases (has_no o.origin_order_id known)) [
      | inl old ↦ rw (numbered, old) h
      | inr new ↦
          rw (numbered, new)
            (then-Keeps IsIndexed (user_of strip strategies channel_code o)
              (λ u. pure (with_new_order strip strategies channel_code o p u)) (user_of-Keeps o)
              (λ u s' h'. h') s h)
    ]
  ]

  plan_orders-Keeps :
      (known : Table Order) (os : List OrderDto) (p : Plan)
      → Keeps IsIndexed (plan_orders strip strategies channel_code known os p)
  unfolding plan_orders
  plan_orders-Keeps known [] p = λ s h. h
  plan_orders-Keeps known (o ∷ os) p =
      then-Keeps IsIndexed (plan_order strip strategies channel_code known o p)
        (plan_orders strip strategies channel_code known os) (plan_order-Keeps known o p)
        (λ p'. plan_orders-Keeps known os p')

  persist_plan-Keeps : (p : Plan) → Keeps IsIndexed (persist_plan strip strategies channel_code p)
  unfolding persist_plan
  persist_plan-Keeps p =
      let insert : Action ℕ = attempt_or 0 (batch_upsert_orders p.new_orders) in
      let change : Action ℕ = attempt_or 0 (batch_update_status p.updates) in
      then-Keeps IsIndexed insert (λ n. change >>= λ k. pure (n, k))
        (λ s h.
          attempt_or-Both IsIndexed 0 (batch_upsert_orders p.new_orders) s
            (batch_upsert_orders-Keeps p.new_orders s h))
        (λ n.
          then-Keeps IsIndexed change (λ k. pure (n, k))
            (λ s h.
              attempt_or-Both IsIndexed 0 (batch_update_status p.updates) s
                (batch_update_status-Keeps p.updates s h))
            (λ k s h. h))

  -- Whatever a channel reports, whichever commits fail: the stored orders have different channel
  -- numbers if they had before, and so has what the session sees.
  persist_orders-IsIndexed :
      (orders : List OrderDto) (s : Session)
      → Both IsIndexed s
      → Both IsIndexed (persist_orders strip strategies channel_code orders s).1
  unfolding persist_orders
  persist_orders-IsIndexed orders s h =
      let start : Plan = record { new_orders = []; updates = [] } in
      then-Both IsIndexed (plan_orders strip strategies channel_code s.working.orders orders start)
        (persist_plan strip strategies channel_code) s
        (plan_orders-Keeps s.working.orders orders start s h) persist_plan-Keeps
