-- ===== src/Settlement/SettleLaws.antt =====
-- Which orders backend/src/services/commission_settlement_service.py pays and takes back, by the flows
-- that they have already.
use gaking.Base.{ℕ, ◌≡◌, refl, ap, ◌∙◌, true, Option, none, some, List, [], ◌∷◌, arith}
use gaking.Base.Int.{pos, ◌≤ℤ◌}
use gaking.Base.Table.{find, put, find-put_self}
use gaking.Store.Types.{Account, Order, CommissionFlow, TransferStatus}
use gaking.Store.Session.{Session, Result, ok}
use gaking.Orders.Status
use gaking.Settlement.Rules.{CommissionSplit, calculate}
use gaking.Settlement.Atomic.{
  settle_order_commission_atomic, earned, deduct_pending, is_pending_transfer,
  deduct_on_refund_atomic,
}
use gaking.Settlement.Settle.{
  skipped, settled_flow, deducted_flow, flows_of, is_order_flow, is_deduct_flow,
  settle_single_order, process_single_refund,
}
use Prim.Native.String.{String}

module _ (split_of : Order → Result CommissionSplit) (i : ℕ) (batch : String) (s : Session)
    {o : Order} where
  -- A SETTLED order the first ORDER flow of which has arrived is skipped, and nothing is changed.
  pub settle_single_order_skips :
      {k : ℕ} {f : CommissionFlow} {rest : List (ℕ × CommissionFlow)}
      → find i s.working.orders ≡ some o
      → o.order_status ≡ Status.value Status.settled
      → flows_of is_order_flow i s.working ≡ (k, f) ∷ rest
      → f.transfer_status ≡ TransferStatus.success
      → settle_single_order split_of i batch s ≡ (ok skipped, s)
  unfolding settle_single_order
  settle_single_order_skips found status flows arrived =
      ground (arith, found, status, flows, arrived)

  -- A SETTLED order the first ORDER flow of which is pending, as a freeze leaves it, is paid its
  -- commission in full, where that is positive and is what the split gives, the user has an account and
  -- the commits succeed.
  pub settle_single_order_pays_frozen :
      {k : ℕ} {f : CommissionFlow} {rest : List (ℕ × CommissionFlow)} {split : CommissionSplit}
      {a : Account}
      → find i s.working.orders ≡ some o
      → o.order_status ≡ Status.value Status.settled
      → flows_of is_order_flow i s.working ≡ (k, f) ∷ rest
      → f.transfer_status ≡ TransferStatus.pending
      → split_of o ≡ ok split
      → o.user_commission ≡ (calculate o.total_commission split).user_commission
      → ¬ (o.user_commission ≤ℤ pos 0)
      → find o.user_id s.working.accounts ≡ some a
      → s.faults ≡ []
      → let (r, s') = settle_single_order split_of i batch s in
        (r ≡ ok (settled_flow s.working.next_flow o.user_commission))
        × (find o.user_id s'.committed.accounts ≡ some (earned a o.user_commission))
  unfolding settle_single_order settle_order_commission_atomic
  settle_single_order_pays_frozen {split = split} {a = a} found status flows pends rates same
        positive there fine =
      ground (
        arith,
        found,
        status,
        flows,
        pends,
        rates,
        same,
        positive,
        there,
        fine,
        find-put_self o.user_id (earned a o.user_commission) s.working.accounts,
      )

pending_is : is_pending_transfer TransferStatus.pending ≡ true
unfolding is_pending_transfer
pending_is = refl

-- The original flow fails, and no account is touched.
abbrev Untouched : ℕ → CommissionFlow → Result (Option ℕ) × Session → Session → Type 0
Untouched k f (r, s') s =
    (r ≡ ok none)
    × (s'.committed.accounts ≡ s.working.accounts)
    × (s'.committed.flows
        ≡ put k (record f { transfer_status = TransferStatus.failed }) s.working.flows)

deduct_pending_done :
    (o : Order) (k : ℕ) (f : CommissionFlow) (s : Session)
    → s.faults ≡ []
    → Untouched k f (deduct_pending k f o s) s
unfolding deduct_pending
deduct_pending_done o k f s fine = ground (arith, fine)

pending_flow_fails :
    (i : ℕ) (o : Order) (k : ℕ) (f : CommissionFlow) (s : Session)
    → f.transfer_status ≡ TransferStatus.pending
    → s.faults ≡ []
    → Untouched k f (deduct_on_refund_atomic i o k f s) s
unfolding deduct_on_refund_atomic
pending_flow_fails i o k f s pends fine =
    let pt : is_pending_transfer f.transfer_status ≡ true =
      ap is_pending_transfer pends ∙ pending_is in
    rw pt (deduct_pending_done o k f s fine)

-- The refund of a REFUNDED order the first ORDER flow of which is pending, and that has no DEDUCT flow,
-- fails the flow and leaves every account as it is, where the commit succeeds.
pub process_single_refund_pending :
    (i : ℕ) (s : Session) {o : Order} {k : ℕ} {f : CommissionFlow}
    {rest : List (ℕ × CommissionFlow)}
    → find i s.working.orders ≡ some o
    → o.order_status ≡ Status.value Status.refunded
    → flows_of is_order_flow i s.working ≡ (k, f) ∷ rest
    → flows_of is_deduct_flow i s.working ≡ []
    → f.transfer_status ≡ TransferStatus.pending
    → s.faults ≡ []
    → let (r, s') = process_single_refund i s in
      (r ≡ ok (deducted_flow none f.amount))
      × (s'.committed.accounts ≡ s.working.accounts)
      × (find k s'.committed.flows ≡ some (record f { transfer_status = TransferStatus.failed }))
unfolding process_single_refund
process_single_refund_pending i s {o = o} {k = k} {f = f} found status flows nothing pends fine =
    ground (
      arith,
      found,
      status,
      flows,
      nothing,
      pending_flow_fails i o k f s pends fine,
      find-put_self k (record f { transfer_status = TransferStatus.failed }) s.working.flows,
    )
