-- ===== src/Settlement/Machine.antt =====
-- backend/src/services/settlement_state_machine.py, with SettlementStatus and the tables of
-- backend/src/config/b12_constants.py. A status is a Python value: the members of the IntEnum are
-- numbers, and what a driver reads from the column, which is `String(32)`, may be a text.
use gaking.Base.{Bool, true, false, Option, none, some, not, ◌==◌, if◌then◌else◌, List, [], ◌∷◌}
use gaking.Store.Types.{ColumnValue, num, str}
use gaking.Store.Session.{Error}
use text.Mathlib.Text.{◌==◌ as str_eq}

pub data SettlementStatus : Type 0 where
  ordered settlable settled paid : SettlementStatus

unfoldable pub value : SettlementStatus → ColumnValue
value ordered = num 10
value settlable = num 20
value settled = num 30
value paid = num 40

-- Python's `==` between a number and a text is False.
unfoldable pub same_value : ColumnValue → ColumnValue → Bool
same_value (num a) (num b) = a == b
same_value (str a) (str b) = str_eq a b
same_value _ _ = false

unfoldable pub member : ColumnValue → List SettlementStatus → Bool
unfolding same_value value
member v [] = false
member v (s ∷ ss) = if same_value v (value s) then true else member v ss

-- `valid_statuses`
abbrev pub all_statuses : List SettlementStatus
all_statuses = ordered ∷ settlable ∷ settled ∷ paid ∷ []

-- `SETTLEMENT_TRANSITIONS.get(from_status, set())`
unfoldable pub allowed_next : ColumnValue → List SettlementStatus
unfolding same_value value
allowed_next v =
    if same_value v (value ordered)
    then settlable ∷ []
    else if same_value v (value settlable)
    then settled ∷ []
    else if same_value v (value settled)
    then paid ∷ []
    else []

-- `none` for a transition that passes, or what it raises
unfoldable pub validate_transition : ColumnValue → ColumnValue → Option Error
unfolding member allowed_next same_value
validate_transition from to =
    if not (member from all_statuses)
    then some Error.unknown_status
    else if not (member to all_statuses)
    then some Error.unknown_status
    else if same_value from to
    then some Error.same_status
    else if not (member to (allowed_next from))
    then some Error.illegal_transition
    else none

-- SETTLEMENT_TERMINAL_STATES
unfoldable pub is_terminal : ColumnValue → Bool
unfolding same_value value
is_terminal v = same_value v (value paid)

unfoldable pub can_freeze : ColumnValue → Bool
unfolding same_value value
can_freeze v = same_value v (value ordered)

unfoldable pub can_unfreeze : ColumnValue → Bool
unfolding same_value value
can_unfreeze v = same_value v (value settlable)

unfoldable pub can_mark_paid : ColumnValue → Bool
unfolding same_value value
can_mark_paid v = same_value v (value settled)
