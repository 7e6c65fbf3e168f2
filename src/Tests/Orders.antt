-- ===== src/Tests/Orders.antt =====
-- The theorems on backend/src/services/b12_order_state_machine_service.py, at concrete inputs.
use gaking.Base.{◌≡◌, refl, ◌↔◌, true, false, [], ◌∷◌}
use gaking.Base.Table.{find}
use gaking.Store.Session.{Session}
use gaking.Orders.Status.{frozen, settled, value, validate_transition}
use gaking.Orders.Service.{Request}
use gaking.Orders.Transitions.{◌⟶◌, here, validate_transition-valid_iff}
use gaking.Orders.Lifecycle.{Reached, reached, run, run-Reached}
use gaking.Tests.Data.{order_of, session}

abbrev to_settlable : Request
to_settlable = record {
  order_id = 8;
  target = 30;
  operation_type = "auto";
  operator_id = 0;
  operator_name = "job";
  remark = "";
  now = 70;
}

abbrev back_to_frozen : Request
back_to_frozen = record to_settlable { target = 20; operation_type = "manual_override" }

validate_transition-valid_iff_example :
    ((validate_transition (value frozen) (value settled) true).valid ≡ true) ↔ (frozen ⟶ settled)
validate_transition-valid_iff_example = validate_transition-valid_iff frozen settled true

start : Reached 8 frozen session.working
unfolding find value
start = reached frozen (order_of 20) here refl refl

run-Reached_example :
    let s = run (to_settlable ∷ back_to_frozen ∷ []) session in
    Reached 8 frozen s.committed × Reached 8 frozen s.working
run-Reached_example =
    run-Reached 8 frozen (to_settlable ∷ back_to_frozen ∷ []) session (start, start)

abbrev failing : Session
failing = record session { faults = true ∷ false ∷ [] }
