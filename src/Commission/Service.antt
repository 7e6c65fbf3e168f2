-- ===== src/Commission/Service.antt =====
-- backend/src/services/commission_service.py: the writing methods.
use gaking.Base.{
  ℕ, suc, Bool, true, false, Option, none, some, List, [], ◌∷◌, ◌==◌, ◌||◌, if◌then◌else◌,
}
use gaking.Base.Int.{pos}
use gaking.Base.Table.{find, put, rows_where}
use gaking.Store.Types.{Order, CommissionFlow, FlowType, TransferStatus}
use gaking.Store.Session.{
  Tables, Error, Action, ◌>>=◌, ◌>>◌, pure, gets, or_raise, raise_if, modify, commit,
}
use gaking.Settlement.Settle.{is_order_flow}
use Prim.Native.String.{String}

unfoldable pub generated_flow : ℕ → Order → CommissionFlow
generated_flow order_id o = record {
  order_id = order_id;
  user_id = o.user_id;
  flow_type = FlowType.order;
  amount = o.user_commission;
  before_balance = pos 0;
  after_balance = o.user_commission;
  transfer_batch_id = "";
  transfer_status = TransferStatus.pending;
}

-- `any(f.flow_type == FLOW_TYPE_ORDER for f in existing_flows)`
unfoldable pub has_order_flow : List (ℕ × CommissionFlow) → Bool
unfolding is_order_flow
has_order_flow [] = false
has_order_flow (f ∷ fs) = is_order_flow f.1.flow_type || has_order_flow fs

-- `list_by_order_id`
unfoldable pub flows_by_order_id : ℕ → Tables → List (ℕ × CommissionFlow)
flows_by_order_id order_id t = rows_where (λ f. f.order_id == order_id) t.flows

unfoldable pub create_flow : CommissionFlow → Action (List (ℕ × CommissionFlow))
create_flow f = do
  id ← gets (λ t. t.next_flow)
  modify (λ t. record t { flows = put t.next_flow f t.flows; next_flow = suc t.next_flow })
  commit
  pure ((id, f) ∷ [])

unfoldable pub generate_missing :
    ℕ → Order → List (ℕ × CommissionFlow) → Action (List (ℕ × CommissionFlow))
unfolding has_order_flow create_flow generated_flow
generate_missing order_id o existing =
    if has_order_flow existing then pure existing else create_flow (generated_flow order_id o)

unfoldable pub generate_commission_flows : ℕ → Action (List (ℕ × CommissionFlow))
unfolding generate_missing flows_by_order_id
generate_commission_flows order_id = do
  o ← or_raise (← gets (λ t. find order_id t.orders)) Error.order_missing
  existing ← gets (flows_by_order_id order_id)
  generate_missing order_id o existing

unfoldable pub marked : String → CommissionFlow → CommissionFlow
marked batch f = record f { transfer_status = TransferStatus.success; transfer_batch_id = batch }

-- `update_by_id`, and whether the row was found
unfoldable pub mark_flow : ℕ → String → Option CommissionFlow → Action ℕ
unfolding marked
mark_flow id batch none = pure 0
mark_flow id batch (some f) = do
  modify (λ t. record t { flows = put id (marked batch f) t.flows })
  commit
  pure 1

-- the loop; the updates before an error stay
unfoldable pub mark_flows : List ℕ → String → ℕ → Action ℕ
unfolding mark_flow
mark_flows [] batch n = pure n
mark_flows (id ∷ ids) batch n = do
  row ← gets (λ t. find id t.flows)
  k ← mark_flow id batch row
  mark_flows ids batch (if k == 0 then n else suc n)

unfoldable pub is_blank : String → Bool
is_blank String.[] = true
is_blank text = false

unfoldable pub lacks : List ℕ → Bool
lacks [] = true
lacks (id ∷ ids) = false

unfoldable pub batch_mark_settled : List ℕ → String → Action ℕ
unfolding mark_flows is_blank lacks
batch_mark_settled ids batch = do
  raise_if (lacks ids) Error.empty_argument
  raise_if (is_blank batch) Error.empty_argument
  mark_flows ids batch 0
