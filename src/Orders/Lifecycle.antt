-- ===== src/Orders/Lifecycle.antt =====
-- What `transition_order_status` of backend/src/services/b12_order_state_machine_service.py does to
-- the stored orders and to the operation log, commits that fail included.
use gaking.Base.{
  ℕ, ◌≡◌, ◌≢◌, inl, inr, Bool, true, false, some, List, [], ◌∷◌, arith, Option-cases, Bool-cases,
  ==_iff, ◌==◌, sym, ◌∙◌, subst,
}
use gaking.Base.Table.{find, put, find-put, find-put_self}
use gaking.Store.Types.{Order, OrderOperationLog}
use gaking.Store.Session.{Session, Tables, Error, ok, err}
use gaking.Orders.Status.{OrderStatus, value, Validation, validate_transition}
use gaking.Orders.Service.{Request, moved, log_of, transition_order_status, is_manual}
use gaking.Orders.Transitions.{◌⟶◌, ◌⟶*◌, next, of_value-value, validate_transition_members}

-- The validation that a call makes.
abbrev pub check : Request → Order → Validation
check r o = validate_transition o.order_status r.target (is_manual r)

-- A call that returns has passed the validation; the order's status and time, and nothing else of
-- the orders, are rewritten, one log entry is added, and both are committed.
pub transition_done :
    (r : Request) (s : Session) {o o' : Order}
    → find r.order_id s.working.orders ≡ some o
    → o.order_status ≢ r.target
    → (transition_order_status r s).0 ≡ ok o'
    → let s' = (transition_order_status r s).1 in
      ((check r o).valid ≡ true)
      × (o' ≡ moved r o)
      × (s'.committed ≡ s'.working)
      × (s'.working ≡ record s.working {
        orders = put r.order_id o' s.working.orders;
        order_logs = log_of r o (check r o) ∷ s.working.order_logs;
      })
unfolding transition_order_status
transition_done r s found ne h = ground arith

-- A call that the validation refuses changes nothing.
pub transition_refused :
    (r : Request) (s : Session) {o : Order}
    → find r.order_id s.working.orders ≡ some o
    → (check r o).valid ≡ false
    → transition_order_status r s ≡ (err Error.transition_refused, s)
unfolding transition_order_status
transition_refused r s found h = ground arith

-- The update and its log entry are two transactions: where the second commit fails, the new status
-- is in the database, the call raises and no entry is written.
pub transition_unlogged :
    (r : Request) (s : Session) {o : Order} {later : List Bool}
    → find r.order_id s.working.orders ≡ some o
    → o.order_status ≢ r.target
    → (check r o).valid ≡ true
    → s.faults ≡ true ∷ false ∷ later
    → let (result, s') = transition_order_status r s in
      (result ≡ err Error.commit_failed)
      × (find r.order_id s'.committed.orders ≡ some (moved r o))
      × (s'.committed.order_logs ≡ s.working.order_logs)
unfolding transition_order_status
transition_unlogged r s {o = o} found ne h f =
    ground (arith, find-put_self r.order_id (moved r o) s.working.orders)

-- A property of the tables that an admitted update keeps holds of both states after any call.
module _ (P : Tables → Type 0) where
  abbrev Keeps : Type 0
  Keeps =
      (r : Request) (o : Order) (t : Tables) (logs : List OrderOperationLog)
      → find r.order_id t.orders ≡ some o
      → (check r o).valid ≡ true
      → P t
      → P (record t { orders = put r.order_id (moved r o) t.orders; order_logs = logs })

  transition-keeps :
      Keeps
      → (r : Request) (s : Session) → P s.committed × P s.working
      → P (transition_order_status r s).1.committed × P (transition_order_status r s).1.working
  unfolding transition_order_status
  transition-keeps keep r s h = elim (Option-cases (find r.order_id s.working.orders)) [
    | inl missing ↦ ground arith
    | inr (o, found) ↦ ground (
      arith,
      keep r o s.working s.working.order_logs found,
      keep r o s.working (log_of r o (check r o) ∷ s.working.order_logs) found,
    )
  ]

-- The status of order `k` is a member of the enumeration that the diagram leads to from `from`.
pub data Reached (k : ℕ) (from : OrderStatus) (t : Tables) : Type 0 where
  reached :
      (now : OrderStatus) (o : Order)
      → from ⟶* now
      → find k t.orders ≡ some o
      → o.order_status ≡ value now
      → Reached k from t

value-injective : (a b : OrderStatus) → value a ≡ value b → a ≡ b
value-injective a b h = cc (of_value-value a, of_value-value b)

found_same :
    (k i : ℕ) (o p : Order) (t : Tables)
    → i ≡ k
    → find i t.orders ≡ some o
    → find k t.orders ≡ some p
    → p.order_status ≡ o.order_status
found_same k i o p t same f g = cc

Reached-kept : (k : ℕ) (from : OrderStatus) → Keeps (Reached k from)
unfolding moved
Reached-kept k from r o t logs found valid (reached now p path e st) =
    elim (Bool-cases (r.order_id == k)) [
      | inl same ↦
          let i : r.order_id ≡ k = (==_iff _ _).0 same in
          let (a, b, ea, eb, arrow) =
            validate_transition_members o.order_status r.target (is_manual r) valid in
          let here' : a ≡ now =
            value-injective a now (sym ea ∙ sym (found_same k r.order_id o p t i found e) ∙ st) in
          reached b (moved r o) (next path (subst (λ x. x ⟶ b) here' arrow))
            (find-put r.order_id k (moved r o) t.orders ∙ ground (arith, same)) eb
      | inr other ↦
          reached now p path (find-put r.order_id k (moved r o) t.orders ∙ ground (arith, other, e))
            st
    ]

-- All the calls of a run, whether they raise or not.
unfoldable pub run : List Request → Session → Session
run [] s = s
run (r ∷ rs) s = run rs (transition_order_status r s).1

-- Whatever calls are made and whichever commits fail, the stored status of an order only moves
-- along the arrows of the diagram.
pub run-Reached :
    (k : ℕ) (from : OrderStatus) (rs : List Request) (s : Session)
    → Reached k from s.committed × Reached k from s.working
    → Reached k from (run rs s).committed × Reached k from (run rs s).working
unfolding run
run-Reached k from [] s h = h
run-Reached k from (r ∷ rs) s h =
    run-Reached k from rs (transition_order_status r s).1
      (transition-keeps (Reached k from) (Reached-kept k from) r s h)
