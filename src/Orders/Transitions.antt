-- ===== src/Orders/Transitions.antt =====
-- The transition tables of backend/src/config/b12_constants.py against the diagram in its comment.
use gaking.Base.{
  ℕ, ◌≡◌, refl, ◌↔◌, ◌≢◌, Bool, true, false, Option, none, some, arith, ap, inl, inr, Option-cases,
  ◌<◌, ◌≤◌,
}
use gaking.Orders.Status.{
  OrderStatus, pending, frozen, settlable, settled, invalid, refunded, value, of_value, is_terminal,
  validate_transition, validate_target,
}

-- The diagram in the comment of b12_constants.py.
infix 40 ◌⟶◌
pub data ◌⟶◌ : OrderStatus → OrderStatus → Type 0 where
  paid : pending ⟶ frozen
  timed_out : pending ⟶ invalid
  cancelled : pending ⟶ refunded
  confirmed : frozen ⟶ settlable
  frozen_void : frozen ⟶ invalid
  commission_settled : settlable ⟶ settled
  settlable_void : settlable ⟶ invalid
  returned : settled ⟶ refunded

pub ruleset steps = (
  paid, timed_out, cancelled, confirmed, frozen_void, commission_settled, settlable_void, returned,
)

-- Every status is stored as a number that reads back as that status.
pub of_value-value : (s : OrderStatus) → of_value (value s) ≡ some s
unfolding of_value value
of_value-value pending = refl
of_value-value _ = refl

pub value-of_value : (n : ℕ) {s : OrderStatus} → of_value n ≡ some s → n ≡ value s
unfolding of_value value
value-of_value n h = ground arith

valid_step :
    (s t : OrderStatus) (manual : Bool)
    → (validate_transition (value s) (value t) manual).valid ≡ true
    → s ⟶ t
unfolding validate_transition value
valid_step pending frozen m h = paid
valid_step pending invalid m h = timed_out
valid_step pending refunded m h = cancelled
valid_step frozen settlable m h = confirmed
valid_step frozen invalid m h = frozen_void
valid_step settlable settled m h = commission_settled
valid_step settlable invalid m h = settlable_void
valid_step settled refunded m h = returned
valid_step _ _ m h = ground arith

step_valid :
    {s t : OrderStatus} (manual : Bool)
    → s ⟶ t
    → (validate_transition (value s) (value t) manual).valid ≡ true
unfolding validate_transition value
step_valid m paid = ground arith
step_valid m timed_out = ground arith
step_valid m cancelled = ground arith
step_valid m confirmed = ground arith
step_valid m frozen_void = ground arith
step_valid m commission_settled = ground arith
step_valid m settlable_void = ground arith
step_valid m returned = ground arith

-- The validation passes exactly the arrows of the diagram.
pub validate_transition-valid_iff :
    (s t : OrderStatus) (manual : Bool)
    → ((validate_transition (value s) (value t) manual).valid ≡ true) ↔ (s ⟶ t)
unfolding validate_transition value
validate_transition-valid_iff s t manual = (valid_step s t manual, step_valid manual)

valid_members :
    (c t : ℕ) (manual : Bool)
    → (validate_transition c t manual).valid ≡ true
    → (of_value c ≢ none) × (of_value t ≢ none)
unfolding validate_transition
valid_members c t manual h = ground arith

-- A transition that passes is between two members of the enumeration, along an arrow.
pub validate_transition_members :
    (c t : ℕ) (manual : Bool)
    → (validate_transition c t manual).valid ≡ true
    → (s s' : OrderStatus) × (c ≡ value s) × (t ≡ value s') × (s ⟶ s')
validate_transition_members c t manual h = elim (Option-cases (of_value c)) [
  | inl e ↦ absurd ((valid_members c t manual h).0 e)
  | inr (s, e) ↦ elim (Option-cases (of_value t)) [
    | inl e' ↦ absurd ((valid_members c t manual h).1 e')
    | inr (s', e') ↦
        let p = value-of_value c e in
        let q = value-of_value t e' in (s, s', p, q, valid_step s s' manual (rw (← p, ← q) h))
  ]
]

override_idle :
    (c t : Option OrderStatus)
    → (validate_target c t true).valid ≡ (validate_target c t false).valid
unfolding validate_target
override_idle none none = refl
override_idle (some pending) none = refl
override_idle _ _ = ground arith

-- Asking for a manual override changes no verdict between valid and refused.
pub manual_override_idle :
    (c t : ℕ) → (validate_transition c t true).valid ≡ (validate_transition c t false).valid
unfolding validate_transition
manual_override_idle c t = override_idle (of_value c) (of_value t)

-- The place of a status on the way; every arrow leads strictly onwards.
abbrev rank : OrderStatus → ℕ
rank pending = 0
rank frozen = 1
rank settlable = 2
rank settled = 3
rank invalid = 4
rank refunded = 4

⟶-rank : {s t : OrderStatus} → s ⟶ t → rank s < rank t
⟶-rank paid = omega arith
⟶-rank timed_out = omega arith
⟶-rank cancelled = omega arith
⟶-rank confirmed = omega arith
⟶-rank frozen_void = omega arith
⟶-rank commission_settled = omega arith
⟶-rank settlable_void = omega arith
⟶-rank returned = omega arith

infix 40 ◌⟶*◌
pub data ◌⟶*◌ (s : OrderStatus) : OrderStatus → Type 0 where
  here : s ⟶* s
  next : {t u : OrderStatus} → s ⟶* t → t ⟶ u → s ⟶* u

⟶*-rank : {s t : OrderStatus} → s ⟶* t → rank s ≤ rank t
⟶*-rank here = omega arith
⟶*-rank (next r e) = omega (arith, ⟶*-rank r, ⟶-rank e)

-- An order never comes back to a status that it has left.
pub no_return : {s t u : OrderStatus} → s ⟶ t → t ⟶* u → u ≢ s
no_return e r same = absurd (omega (arith, ⟶-rank e, ⟶*-rank r, ap rank same))

terminal_stuck : {s t : OrderStatus} → s ⟶ t → is_terminal s ≡ false
unfolding is_terminal
terminal_stuck paid = refl
terminal_stuck timed_out = refl
terminal_stuck cancelled = refl
terminal_stuck confirmed = refl
terminal_stuck frozen_void = refl
terminal_stuck commission_settled = refl
terminal_stuck settlable_void = refl
terminal_stuck returned = refl

stuck_terminal : (s : OrderStatus) → ((t : OrderStatus) → ¬ (s ⟶ t)) → is_terminal s ≡ true
unfolding is_terminal
stuck_terminal pending h = absurd (h frozen paid)
stuck_terminal frozen h = absurd (h settlable confirmed)
stuck_terminal settlable h = absurd (h settled commission_settled)
stuck_terminal settled h = absurd (h refunded returned)
stuck_terminal _ h = refl

-- The terminal statuses are those that no arrow leaves.
pub is_terminal_iff : (s : OrderStatus) → (is_terminal s ≡ true) ↔ ((t : OrderStatus) → ¬ (s ⟶ t))
is_terminal_iff s = (λ h t e. cc (terminal_stuck e), stuck_terminal s)
