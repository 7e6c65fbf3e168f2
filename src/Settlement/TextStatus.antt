-- ===== src/Settlement/TextStatus.antt =====
-- backend/src/services/commission_settlement_b12_service.py when the status column is read as the text
-- that backend/src/models/business/settlement_record_model.py declares.
use gaking.Base.{ℕ, ◌≡◌, ap, ◌∙◌, inl, inr, Bool, true, false, some, ◌==◌, arith, Bool-cases}
use gaking.Base.Table.{rows_where, List-cases}
use gaking.Breaker.Circuit.{default_settings, allow_request}
use gaking.Store.Types.{ColumnValue, str, SettlementRecord}
use gaking.Store.Session.{Session, Error, Result, ok, err, one_or_none}
use gaking.Settlement.Machine.{settled, value, validate_transition}
use gaking.Settlement.MachineLaws.{validate_transition_text}
use gaking.Settlement.Freeze.{
  OpEnv, get_by_order_id, unfreeze_on_settled, unfreeze_order, unfreeze_record, check_breaker,
  with_breaker,
}
use Prim.Native.String.{String}

abbrev pub is_ok : {A : Type 0} → Result A → Bool
is_ok (ok a) = true
is_ok (err e) = false

-- A call that raises, and changes no table.
abbrev pub Fails : {A : Type 0} → Result A × Session → Session → Type 0
Fails (r, s') s = (is_ok r ≡ false) × (s'.committed ≡ s.committed) × (s'.working ≡ s.working)

module _ (load : ColumnValue → ColumnValue)
    (text : (v : ColumnValue) → (x : String) × (load v ≡ str x)) where
  unfreeze_record_text :
      (env : OpEnv) (order_id i : ℕ) (st : SettlementRecord) (s : Session)
      → unfreeze_record load env order_id i st s ≡ (err Error.unknown_status, s)
  unfolding unfreeze_record
  unfreeze_record_text env order_id i st s =
      let (x, e) = text st.settlement_status in
      let refused : validate_transition (load st.settlement_status) (value settled)
          ≡ some Error.unknown_status =
        ap (λ v. validate_transition v (value settled)) e
        ∙ validate_transition_text x (value settled) in
      ground (arith, refused)

  unfreeze_order_text :
      (env : OpEnv) (order_id : ℕ) (s : Session) → Fails (unfreeze_order load env order_id s) s
  unfolding unfreeze_order get_by_order_id one_or_none
  unfreeze_order_text env order_id s =
      elim (List-cases (rows_where (λ st. st.order_id == order_id) s.working.settlements)) [
        | inl absent ↦ ground (arith, absent)
        | inr (inl (row, one)) ↦
            ground (arith, one, unfreeze_record_text env order_id row.0 row.1 s)
        | inr (inr (v, w, rest, many)) ↦ ground (arith, many)
      ]

  -- Where the status column is read as a text, no frozen commission can be released: every call
  -- raises, and leaves every table as it was.
  pub unfreeze_on_settled_text :
      (env : OpEnv) (order_id : ℕ) (s : Session) → Fails (unfreeze_on_settled load env order_id s) s
  unfolding unfreeze_on_settled check_breaker with_breaker
  unfreeze_on_settled_text env order_id s = elim (Bool-cases env.lock_granted) [
    | inl granted ↦ elim (Bool-cases (allow_request default_settings env.now s.breaker).0) [
      | inl allowed ↦
          let s1 = record s { breaker = (allow_request default_settings env.now s.breaker).1 } in
          ground (arith, granted, allowed, unfreeze_order_text env order_id s1)
      | inr blocked ↦ ground (arith, granted, blocked)
    ]
    | inr waits ↦ ground arith
  ]
