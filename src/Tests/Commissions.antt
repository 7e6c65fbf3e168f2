-- ===== src/Tests/Commissions.antt =====
-- An order with a pending flow, and one without a flow.
use gaking.Base.{some, [], ◌∷◌, ◌≡◌, refl, arith}
use gaking.Base.Int.{pos, ◌-ℤ◌}
use gaking.Base.Table.{find, put, rows_where}
use gaking.Store.Types.{WithdrawStatus, TransferStatus}
use gaking.Store.Session.{Session, ok, commit}
use gaking.Settlement.Atomic.{deduct_on_refund_atomic, deducted}
use gaking.Commission.Service.{
  generated_flow, flows_by_order_id, generate_commission_flows, marked, is_blank,
  batch_mark_settled,
}
use gaking.Commission.ServiceLaws.{generate_commission_flows_once, batch_mark_settled_uncredited}
use gaking.Tests.Data.{alice, flow_of, order_of, session_of, tables_of}

abbrev settlable : Session
settlable = session_of (tables_of WithdrawStatus.pending 30 TransferStatus.pending)

generates :
    (generate_commission_flows 9 settlable).0 ≡ ok ((5, generated_flow 9 (order_of 30)) ∷ [])
unfolding generate_commission_flows commit find put rows_where
generates = refl

generate_commission_flows_once_example :
    let s1 = (generate_commission_flows 9 settlable).1 in
    generate_commission_flows 9 s1 ≡ (ok (flows_by_order_id 9 s1.working), s1)
unfolding find
generate_commission_flows_once_example =
    generate_commission_flows_once 9 settlable ((5, generated_flow 9 (order_of 30)) ∷ []) refl
      generates

batch_mark_settled_uncredited_example :
    let f = flow_of 8 TransferStatus.pending in
    let s1 = (batch_mark_settled (4 ∷ []) "B4" settlable).1 in
    let s2 = (deduct_on_refund_atomic 8 (order_of 30) 4 (marked "B4" f) s1).1 in
    (find 4 s1.committed.flows ≡ some (marked "B4" f))
    × (s1.committed.accounts ≡ settlable.working.accounts)
    × (find 1 s2.committed.accounts ≡ some (deducted alice (pos 5000)))
unfolding find is_blank ◌-ℤ◌
batch_mark_settled_uncredited_example =
    batch_mark_settled_uncredited 4 "B4" 8 (order_of 30) (flow_of 8 TransferStatus.pending) alice
      settlable refl refl refl refl (omega arith)
