-- ===== src/Refund/Stuck.antt =====
-- What a deduction that is refused makes of a record of backend/src/services/b07_1_reverse_commission_service.py.
use gaking.Base.{
  ℕ, false, none, some, List, [], ◌∷◌, ◌++◌, ◌&&◌, ltb, ◌≡◌, refl, inl, inr, arith, Option-cases,
  Bool-cases, ◌<◌,
}
use gaking.Base.Int.{ℤ}
use gaking.Base.Listed.{Listed, ++-Listed}
use gaking.Base.Table.{find, put, find-put_self}
use gaking.Store.Types.{ReverseRecord, ReverseStatus, ValidationLog, CheckItem}
use gaking.Store.Session.{
  Tables, Session, ok, err, Error, commit, commit_with, commit_bare, commit_bare_with,
}
use gaking.Settlement.Settle.{flows_of}
use gaking.Refund.Validate.{
  item, all_passed, deduct_items_of, pre_validate_deduct, answer_with, save_validation_log,
  validate_found,
}
use gaking.Refund.ValidateLaws.{IsDeductible, pre_validate_deduct-cases}
use gaking.Refund.Deduct.{execute_refund_deduction}
use gaking.Refund.Reverse.{
  is_finished, is_identified, is_failed, execute_reverse_commission, is_inactive, execute_row,
  reverse_body, handle, update_status, save_record, changed, change_to, increment_retry, retried,
  adjust_commission, adjust_row, adjust_refused, can_adjust,
}
use gaking.Refund.ReverseBatch.{take, waiting, retryable, to_execute}
use gaking.Refund.Listed.{Once, put-Once, failing-Listed, take-Listed}
use Prim.Native.String.{String}

-- The session after a log of the tests that has been committed.
abbrev logged : ValidationLog → Session → Session
logged e s =
    let t = record s.working { validation_logs = e ∷ s.working.validation_logs } in
    record s { working = t; committed = t }

answer_calm :
    (i u : ℕ) (type : String) (operator : ℕ) (items : List CheckItem) (s : Session)
    → s.faults ≡ []
    → (e : ValidationLog) × ((answer_with i u type operator items s).1 ≡ logged e s)
unfolding answer_with save_validation_log commit_bare commit_bare_with
answer_calm i u type operator items s calm = (
  record {
    order_id = i;
    user_id = u;
    validation_type = type;
    validation_result = all_passed items;
    check_items = items;
    operator_id = operator;
  },
  rw calm refl,
)

validate_calm :
    (i operator : ℕ) (s : Session)
    → s.faults ≡ []
    → (e : ValidationLog) × ((pre_validate_deduct i operator s).1 ≡ logged e s)
unfolding pre_validate_deduct validate_found
validate_calm i operator s calm = elim (Option-cases (find i s.working.orders)) [
  | inl missing ↦
      rw missing (answer_calm i 0 "PRE_DEDUCT" operator (item "order_exists" false ∷ []) s calm)
  | inr (o, found) ↦
      rw found
        (answer_calm i o.user_id "PRE_DEDUCT" operator (deduct_items_of i o s.working) s calm)
]

refused_calm :
    (i operator : ℕ) (s : Session)
    → s.faults ≡ []
    → ¬ IsDeductible i s.working
    → (e : ValidationLog) × (execute_refund_deduction i operator s
        ≡ (err Error.validation_failed, logged e s))
unfolding execute_refund_deduction
refused_calm i operator s calm fails =
    let (v, done, sound, kept) = pre_validate_deduct-cases i operator s in
    let (e, after) = validate_calm i operator s calm in
    elim (Bool-cases v.validation_result) [
      | inl passes ↦ absurd (fails (sound passes))
      | inr stops ↦ (e, ground (arith, done, stops, after))
    ]

-- What a failed execution leaves of a record.
abbrev pub stuck : ℕ → String → ReverseRecord → ReverseRecord
stuck operator name r = retried (changed (change_to ReverseStatus.frozen none none operator name) r)

-- A refused deduction leaves its record on FROZEN, with one more retry, and no other record changed.
freezes :
    (i operator : ℕ) (name : String) (s : Session) (r : ReverseRecord)
    → s.faults ≡ []
    → find i s.working.reverse_records ≡ some r
    → is_finished r.status ≡ false
    → r.retry_count < r.max_retry
    → ¬ IsDeductible r.order_id s.working
    → let s1 = (execute_reverse_commission i operator name s).1 in
      s1.working.reverse_records
      ≡ put i (stuck operator name r) (
          put i
            (changed (change_to ReverseStatus.frozen none none operator name) r)
            s.working.reverse_records)
unfolding execute_reverse_commission execute_row reverse_body handle increment_retry is_inactive
    update_status save_record commit commit_with flows_of
freezes i operator name s r calm found live remains fails =
    let c = changed (change_to ReverseStatus.frozen none none operator name) in
    let t = record s.working { reverse_records = put i (c r) s.working.reverse_records } in
    let s0 = record s { working = t; committed = t } in
    let (e, refused) = refused_calm r.order_id operator s0 calm (λ d. fails d) in
    ground
      (arith, calm, found, live, remains, refused, find-put_self i (c r) s.working.reverse_records)

frozen_unlisted :
    (i limit : ℕ) (r : ReverseRecord) (t : Tables)
    → Once i t.reverse_records
    → find i t.reverse_records ≡ some r
    → is_identified r.status ≡ false
    → is_failed r.status ≡ false
    → ¬ Listed i (to_execute limit t)
unfolding to_execute waiting retryable
frozen_unlisted i limit r t once found fresh failed h =
    elim (++-Listed i (take limit (waiting t)) (take limit (retryable t))
      (take-Listed i limit (take limit (waiting t) ++ take limit (retryable t)) h)) [
        | inl w ↦
            failing-Listed (λ r. is_identified r.status) i r t.reverse_records once found fresh
              (take-Listed i limit (waiting t) w)
        | inr w ↦
            failing-Listed (λ r. is_failed r.status && ltb r.retry_count r.max_retry) i r
              t.reverse_records once found (ground (arith, failed))
              (take-Listed i limit (retryable t) w)
      ]

-- A record whose order does not pass the tests, executed while commits succeed and retries are left: it
-- stays on FROZEN with one more retry, no batch takes it up again, and no correction by hand is accepted.
pub execute_reverse_commission_strands :
    (i operator : ℕ) (name : String) (s : Session) (r : ReverseRecord)
    → s.faults ≡ []
    → Once i s.working.reverse_records
    → find i s.working.reverse_records ≡ some r
    → is_finished r.status ≡ false
    → r.retry_count < r.max_retry
    → ¬ IsDeductible r.order_id s.working
    → let s1 = (execute_reverse_commission i operator name s).1 in
      (find i s1.working.reverse_records ≡ some (stuck operator name r))
      × ((limit : ℕ) → ¬ Listed i (to_execute limit s1.working))
      × ((x : ℤ) (other : ℕ) (n : String)
          → (adjust_commission i x other n s1).0 ≡ ok adjust_refused)
unfolding adjust_commission adjust_row can_adjust changed change_to is_identified is_failed
execute_reverse_commission_strands i operator name s r calm once found live remains fails =
    let frozen = changed (change_to ReverseStatus.frozen none none operator name) r in
    let s1 = (execute_reverse_commission i operator name s).1 in
    let now = freezes i operator name s r calm found live remains fails in
    let here : find i s1.working.reverse_records ≡ some (stuck operator name r) =
      rw now (find-put_self i (stuck operator name r) (put i frozen s.working.reverse_records)) in
    (
      here,
      (λ limit.
          frozen_unlisted i limit (stuck operator name r) s1.working
            (rw now (
              put-Once i (stuck operator name r) (put i frozen s.working.reverse_records)
                (put-Once i frozen s.working.reverse_records once)))
            here refl refl),
      (λ x other n. rw here refl),
    )
