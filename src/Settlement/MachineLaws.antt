-- ===== src/Settlement/MachineLaws.antt =====
-- The chain of backend/src/services/settlement_state_machine.py, and what it says of a text.
use gaking.Base.{◌≡◌, ◌↔◌, refl, none, some, arith}
use gaking.Store.Types.{ColumnValue, str}
use gaking.Store.Session.{Error}
use gaking.Settlement.Machine.{
  SettlementStatus, ordered, settlable, settled, paid, value, validate_transition,
}
use Prim.Native.String.{String}

-- The documented chain ORDERED → SETTLABLE → SETTLED → PAID.
infix 50 ◌⟶◌
pub data ◌⟶◌ : SettlementStatus → SettlementStatus → Type 0 where
  freeze : ordered ⟶ settlable
  unfreeze : settlable ⟶ settled
  pay : settled ⟶ paid

passes_step : (a b : SettlementStatus) → validate_transition (value a) (value b) ≡ none → a ⟶ b
unfolding validate_transition value
passes_step ordered settlable h = freeze
passes_step settlable settled h = unfreeze
passes_step settled paid h = pay
passes_step _ _ h = absurd (ground arith)

step_passes : {a b : SettlementStatus} → a ⟶ b → validate_transition (value a) (value b) ≡ none
unfolding validate_transition value
step_passes freeze = refl
step_passes unfreeze = refl
step_passes pay = refl

-- A transition between two members passes just when it is a step of the chain.
pub validate_transition-chain :
    (a b : SettlementStatus) → (validate_transition (value a) (value b) ≡ none) ↔ (a ⟶ b)
validate_transition-chain a b = (passes_step a b, step_passes)

-- A status that was read as a text is refused as unknown, whatever the target.
pub validate_transition_text :
    (x : String) (to : ColumnValue) → validate_transition (str x) to ≡ some Error.unknown_status
unfolding validate_transition value
validate_transition_text x to = refl
