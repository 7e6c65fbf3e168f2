-- ===== src/Commission/ServiceLaws.antt =====
-- The generation of backend/src/services/commission_service.py is idempotent.
use gaking.Base.{
  ℕ, Bool, true, false, none, some, List, [], ◌∷◌, ◌++◌, ◌==◌, ==_iff, ◌≡◌, refl, inl, inr, arith,
  Bool-cases, Option-cases, ◌⊎◌,
}
use gaking.Base.Int.{pos, ◌-ℤ◌, ◌≤ℤ◌}
use gaking.Base.Table.{find, put, rows_where, rows_where-put_new, find-put_self}
use gaking.Store.Types.{Account, Order, CommissionFlow}
use gaking.Store.Session.{Tables, Session, ok, err, Error, commit, commit_with}
use gaking.Settlement.Settle.{is_order_flow}
use gaking.Accounts.Dao.{get_or_create_account_for_update}
use gaking.Settlement.Atomic.{
  deduct_on_refund_atomic, deduct_arrived, deducted, is_pending_transfer,
}
use gaking.Commission.Service.{
  batch_mark_settled, mark_flows, mark_flow, marked, lacks, is_blank, generated_flow,
  has_order_flow, flows_by_order_id, create_flow, generate_missing, generate_commission_flows,
}
use Prim.Native.String.{String}

has_order_flow-++ :
    (fs gs : List (ℕ × CommissionFlow))
    → has_order_flow gs ≡ true
    → has_order_flow (fs ++ gs) ≡ true
unfolding has_order_flow
has_order_flow-++ [] gs h = h
has_order_flow-++ (f ∷ fs) gs h = ground (arith, has_order_flow-++ fs gs h)

-- The row of the order, and an ORDER flow among its flows.
IsGenerated : ℕ → Tables → Type 0
IsGenerated i t =
    ((o : Order) × (find i t.orders ≡ some o)) × (has_order_flow (flows_by_order_id i t) ≡ true)

again :
    (i : ℕ) (s : Session)
    → IsGenerated i s.working
    → generate_commission_flows i s ≡ (ok (flows_by_order_id i s.working), s)
unfolding generate_commission_flows generate_missing IsGenerated
again i s ((o, found), there) = rw (found, there) refl

create_with-cases :
    (f : CommissionFlow) (l : List Bool) (s : Session)
    → s.faults ≡ l
    → let (x, s') = create_flow f s in
      ((s'.working.orders ≡ s.working.orders)
        × (s'.working.flows ≡ put s.working.next_flow f s.working.flows))
      ⊎ (x ≡ err Error.commit_failed)
unfolding create_flow commit commit_with
create_with-cases f [] s h = inl (ground (arith, h))
create_with-cases f (true ∷ rest) s h = inl (ground (arith, h))
create_with-cases f (false ∷ rest) s h = inr (ground (arith, h))

new_is_there :
    (i : ℕ) (o : Order) (t t' : Tables)
    → find t.next_flow t.flows ≡ none
    → t'.flows ≡ put t.next_flow (generated_flow i o) t.flows
    → has_order_flow (flows_by_order_id i t') ≡ true
unfolding flows_by_order_id generated_flow has_order_flow is_order_flow
new_is_there i o t t' new flows =
    let now =
      rw ((==_iff i i).1 refl) at
        (rows_where-put_new (λ f. f.order_id == i) t.next_flow (generated_flow i o) t.flows new) in
    rw (flows, now)
      (has_order_flow-++ (rows_where (λ f. f.order_id == i) t.flows)
        ((t.next_flow, generated_flow i o) ∷ []) refl)

generates :
    (i : ℕ) (s : Session) (fs : List (ℕ × CommissionFlow))
    → find s.working.next_flow s.working.flows ≡ none
    → (generate_commission_flows i s).0 ≡ ok fs
    → IsGenerated i (generate_commission_flows i s).1.working
unfolding generate_commission_flows generate_missing IsGenerated
generates i s fs new done = elim (Option-cases (find i s.working.orders)) [
  | inl missing ↦ absurd (ground (arith, missing, done))
  | inr (o, found) ↦ elim (Bool-cases (has_order_flow (flows_by_order_id i s.working))) [
    | inl there ↦ rw (found, there) ((o, found), there)
    | inr fresh ↦ elim (create_with-cases (generated_flow i o) s.faults s refl) [
      | inr failed ↦ absurd (ground (arith, found, fresh, failed, done))
      | inl (orders, flows) ↦
          let t' = (create_flow (generated_flow i o) s).1.working in
          rw (found, fresh) ((o, rw orders found), new_is_there i o s.working t' new flows)
    ]
  ]
]

-- Once flows were generated for an order, a second call returns and changes nothing, where the next key was
-- free at the first.
pub generate_commission_flows_once :
    (i : ℕ) (s : Session) (fs : List (ℕ × CommissionFlow))
    → find s.working.next_flow s.working.flows ≡ none
    → (generate_commission_flows i s).0 ≡ ok fs
    → let s1 = (generate_commission_flows i s).1 in
      generate_commission_flows i s1 ≡ (ok (flows_by_order_id i s1.working), s1)
generate_commission_flows_once i s fs new done =
    again i (generate_commission_flows i s).1 (generates i s fs new done)

-- The session after one flow was marked and committed.
abbrev with_mark : ℕ → String → CommissionFlow → Session → Session
with_mark k batch f s =
    let t = record s.working { flows = put k (marked batch f) s.working.flows } in
    record s { working = t; committed = t }

marks :
    (k : ℕ) (batch : String) (f : CommissionFlow) (s : Session)
    → s.faults ≡ []
    → is_blank batch ≡ false
    → find k s.working.flows ≡ some f
    → (batch_mark_settled (k ∷ []) batch s).1 ≡ with_mark k batch f s
unfolding batch_mark_settled mark_flows mark_flow lacks commit commit_with
marks k batch f s calm named found = ground (arith, named, found, calm)

takes :
    (i k : ℕ) (o : Order) (f : CommissionFlow) (a : Account) (s : Session)
    → s.faults ≡ []
    → is_pending_transfer f.transfer_status ≡ false
    → find o.user_id s.working.accounts ≡ some a
    → pos 0 ≤ℤ a.available_balance -ℤ f.amount
    → (deduct_on_refund_atomic i o k f s).1.committed.accounts
      ≡ put o.user_id (deducted a f.amount) s.working.accounts
unfolding deduct_on_refund_atomic deduct_arrived get_or_create_account_for_update commit commit_with
takes i k o f a s calm arrived has covers = ground (arith, arrived, has, calm, covers)

-- A pending flow that is marked as settled, while commits succeed, and that is then taken back: the marking
-- credits no account, the deduction takes the amount from the user's, where that holds it.
pub batch_mark_settled_uncredited :
    (k : ℕ) (batch : String) (i : ℕ) (o : Order) (f : CommissionFlow) (a : Account) (s : Session)
    → s.faults ≡ []
    → is_blank batch ≡ false
    → find k s.working.flows ≡ some f
    → find o.user_id s.working.accounts ≡ some a
    → pos 0 ≤ℤ a.available_balance -ℤ f.amount
    → let s1 = (batch_mark_settled (k ∷ []) batch s).1 in
      let s2 = (deduct_on_refund_atomic i o k (marked batch f) s1).1 in
      (find k s1.committed.flows ≡ some (marked batch f))
      × (s1.committed.accounts ≡ s.working.accounts)
      × (find o.user_id s2.committed.accounts ≡ some (deducted a f.amount))
unfolding marked is_pending_transfer
batch_mark_settled_uncredited k batch i o f a s calm named found has covers =
    let s1 = with_mark k batch f s in
    rw (marks k batch f s calm named found) (
      find-put_self k (marked batch f) s.working.flows,
      refl,
      rw (takes i k o (marked batch f) a s1 calm refl has covers)
          (find-put_self o.user_id (deducted a f.amount) s.working.accounts),
    )
