-- ===== src/Refund/ValidateLaws.antt =====
-- What an answer of backend/src/services/commission_flow_validation_service.py says of the tables.
use gaking.Base.{
  ℕ, Bool, true, false, some, List, [], ◌∷◌, ◌≡◌, refl, sym, ◌∙◌, inl, inr, arith, ◌⊎◌, ◌<◌,
  Option-cases, Bool-cases,
}
use gaking.Base.Table.{find}
use gaking.Store.Types.{Order, CommissionFlow, CheckItem, ValidationLog}
use gaking.Store.Session.{Tables, Session, ok, commit_bare, commit_bare_with}
use gaking.Orders.Status
use gaking.Settlement.Settle.{flows_of, is_order_flow, is_deduct_flow}
use gaking.Refund.Validate.{
  Flows, is_empty, item, can_deduct, deduct_items, all_passed, Validation, save_validation_log,
  answer_with, validate_found, deduct_items_of, pre_validate_deduct,
}
use Prim.Native.String.{String}

-- Only the log of the validations differs.
abbrev pub Unchanged : Tables → Tables → Type 0
Unchanged t t' = t' ≡ record t { validation_logs = t'.validation_logs }

save_with-cases :
    (e : ValidationLog) (l : List Bool) (s : Session)
    → s.faults ≡ l
    → let (r, s') = save_validation_log e s in
      ((r ≡ ok true) × Unchanged s.working s'.working × (s'.committed ≡ s'.working))
      ⊎ ((r ≡ ok false) × (s'.working ≡ s.committed) × (s'.committed ≡ s.committed))
unfolding save_validation_log commit_bare commit_bare_with
save_with-cases e [] s h = inl (ground (arith, h))
save_with-cases e (true ∷ rest) s h = inl (ground (arith, h))
save_with-cases e (false ∷ rest) s h = inr (ground (arith, h))

-- An answer always comes. A usable session still has the tables that it had.
pub answer_with-cases :
    (i u : ℕ) (type : String) (operator : ℕ) (items : List CheckItem) (s : Session)
    → let (r, s') = answer_with i u type operator items s in
      (v : Validation) × ((r ≡ ok v)
        × (v.validation_result ≡ all_passed items)
        × (v.check_items ≡ items))
      × (((v.usable ≡ true) × Unchanged s.working s'.working × (s'.committed ≡ s'.working))
          ⊎ ((v.usable ≡ false) × (s'.working ≡ s.committed) × (s'.committed ≡ s.committed)))
unfolding answer_with
answer_with-cases i u type operator items s =
    let e : ValidationLog = record {
      order_id = i;
      user_id = u;
      validation_type = type;
      validation_result = all_passed items;
      check_items = items;
      operator_id = operator;
    } in
    elim (save_with-cases e s.faults s refl) [
      | inl (saved, same, kept) ↦ (
        record { validation_result = all_passed items; check_items = items; usable = true },
        ground (arith, saved),
        inl (ground (arith, saved, same, kept)),
      )
      | inr (lost, back, kept) ↦ (
        record { validation_result = all_passed items; check_items = items; usable = false },
        ground (arith, lost),
        inr (ground (arith, lost, back, kept)),
      )
    ]

-- What the tests of a deduction that pass have found.
abbrev pub IsDeductible : ℕ → Tables → Type 0
IsDeductible i t =
    (o : Order) × (find i t.orders ≡ some o)
    × (o.order_status ≡ Status.value Status.refunded)
    × (0 < o.user_id)
    × ((f : ℕ × CommissionFlow) × ((fs : Flows) × ((flows_of is_order_flow i t ≡ f ∷ fs)
            × (can_deduct f.1.transfer_status ≡ true))))
    × (flows_of is_deduct_flow i t ≡ [])

nonempty :
    (l : Flows) → is_empty l ≡ false → (f : ℕ × CommissionFlow) × ((fs : Flows) × (l ≡ f ∷ fs))
unfolding is_empty
nonempty [] h = cc
nonempty (f ∷ fs) h = (f, (fs, refl))

empty_is : (l : Flows) → is_empty l ≡ true → l ≡ []
unfolding is_empty
empty_is [] h = refl
empty_is (f ∷ fs) h = cc

deduct_items_sound :
    (i : ℕ) (o : Order) (t : Tables)
    → find i t.orders ≡ some o
    → all_passed (deduct_items_of i o t) ≡ true
    → IsDeductible i t
unfolding deduct_items_of deduct_items all_passed item
deduct_items_sound i o t found passed = elim (Bool-cases (is_empty (flows_of is_order_flow i t))) [
  | inl none_there ↦ absurd (ground (arith, none_there, passed))
  | inr some_there ↦
      let (f, (fs, flows)) = nonempty (flows_of is_order_flow i t) some_there in
      let tested = rw flows at passed in
      (
        o,
        found,
        ground (arith, some_there, passed),
        ground (arith, some_there, passed),
        (f, (fs, (flows, ground (arith, tested)))),
        empty_is (flows_of is_deduct_flow i t) (ground (arith, tested)),
      )
]

missing_fails : ¬ (all_passed (item "order_exists" false ∷ []) ≡ true)
unfolding all_passed item
missing_fails h = cc

-- An answer of a deduction's validation always comes, and one that passes has found what is to be deducted.
pub pre_validate_deduct-cases :
    (i operator : ℕ) (s : Session)
    → let (r, s') = pre_validate_deduct i operator s in
      (v : Validation) × (r ≡ ok v)
      × (v.validation_result ≡ true → IsDeductible i s.working)
      × (((v.usable ≡ true) × Unchanged s.working s'.working × (s'.committed ≡ s'.working))
          ⊎ ((v.usable ≡ false) × (s'.working ≡ s.committed) × (s'.committed ≡ s.committed)))
unfolding pre_validate_deduct validate_found
pre_validate_deduct-cases i operator s = elim (Option-cases (find i s.working.orders)) [
  | inl missing ↦
      let items : List CheckItem = item "order_exists" false ∷ [] in
      let (v, (done, result, same), kept) = answer_with-cases i 0 "PRE_DEDUCT" operator items s in
      rw missing (v, done, (λ passed. absurd (missing_fails (sym result ∙ passed))), kept)
  | inr (o, found) ↦
      let items = deduct_items_of i o s.working in
      let (v, (done, result, same), kept) =
        answer_with-cases i o.user_id "PRE_DEDUCT" operator items s in
      rw found (
        v,
        done,
        (λ passed. rw found at (deduct_items_sound i o s.working found (sym result ∙ passed))),
        kept,
      )
]
