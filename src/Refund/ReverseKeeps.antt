-- ===== src/Refund/ReverseKeeps.antt =====
-- A property of the tables goes through backend/src/services/b07_1_reverse_commission_service.py.
use gaking.Base.{
  ℕ, suc, Bool, true, false, Option, none, some, List, [], ◌∷◌, not, ◌==◌, ◌&&◌, leb, ◌≡◌, refl,
  inl, inr, Option-cases, Bool-cases,
}
use gaking.Base.Int.{ℤ, pos, ltb_ℤ}
use gaking.Base.Table.{Table, find, put, rows_where}
use gaking.Store.Types.{Order, TransferStatus, ReverseRecord, ReverseStatus}
use gaking.Store.Session.{Tables, Result, ok, err, Action, ◌>>=◌, pure, gets, one_or_none}
use gaking.Store.Keeps.{Keeps, then-Both, then-Keeps, commit-Keeps}
use gaking.Accounts.Dao.{attempt}
use gaking.Settlement.Settle.{flows_of, is_order_flow}
use gaking.Refund.Deduct.{Response, skipped, success, execute_refund_deduction}
use gaking.Refund.Reverse.{
  new_record, create_record, StatusChange, changed, change_to, save_record, update_status, retried,
  increment_retry, is_failed, is_finished, is_inactive, Execution, finish, reversed, reverse_failed,
  retries_reported, reverse_body, handle, execute_row, execute_reverse_commission, can_adjust,
  adjust_row, adjust_commission,
}
use gaking.Refund.ReverseBatch.{
  take, exists_by_order_id, record_if_new, identify_flow, newest, identify_order, count_identified,
  identify_all, unrecorded, identify_refund_orders, execute_all, count_execution, to_execute,
  batch_execute, scheduled_reverse_commission, batch_size, system_operator,
}
use Prim.Native.String.{String}

module _ (P : Tables → Type 0)
    (deducts : (i operator : ℕ) → Keeps P (execute_refund_deduction i operator))
    (kept : (i : ℕ) (old new : ReverseRecord) (t : Tables)
      → find i t.reverse_records ≡ some old
      → (is_failed old.status ≡ false → is_failed new.status ≡ false)
      → P t
      → P (record t { reverse_records = put i new t.reverse_records }))
    (added : (r : ReverseRecord) (t : Tables)
      → is_failed r.status ≡ false
      → P t
      → P (record t {
        reverse_records = put t.next_reverse r t.reverse_records;
        next_reverse = suc t.next_reverse;
      })) where
  then_pure-Keeps :
      {A : Type 0} (m : Action (Unit {0})) (a : A) → Keeps P m → Keeps P (m >>= λ _. pure a)
  then_pure-Keeps m a f = then-Keeps P m (λ _. pure a) f (λ _ s h. h)

  update_status-Keeps :
      (i : ℕ) (c : StatusChange) → is_failed c.status ≡ false → Keeps P (update_status i c)
  unfolding update_status save_record changed
  update_status-Keeps i c fine s h = elim (Option-cases (find i s.working.reverse_records)) [
    | inl missing ↦ rw missing h
    | inr (r, found) ↦ rw found (
        commit-Keeps P
          (record s {
            working = record s.working {
              reverse_records = put i (changed c r) s.working.reverse_records;
            };
          })
          (h.0, kept i r (changed c r) s.working found (λ _. fine) h.1))
  ]

  increment_retry-Keeps : (i : ℕ) → Keeps P (increment_retry i)
  unfolding increment_retry save_record
  increment_retry-Keeps i s h = elim (Option-cases (find i s.working.reverse_records)) [
    | inl missing ↦ rw missing h
    | inr (r, found) ↦ rw found (
        commit-Keeps P
          (record s {
            working = record s.working {
              reverse_records = put i (retried r) s.working.reverse_records;
            };
          })
          (h.0, kept i r (retried r) s.working found (λ same. same) h.1))
  ]

  create_record-Keeps : (r : ReverseRecord) → is_failed r.status ≡ false → Keeps P (create_record r)
  unfolding create_record
  create_record-Keeps r fine s h =
      commit-Keeps P
        (record s {
          working = record s.working {
            reverse_records = put s.working.next_reverse r s.working.reverse_records;
            next_reverse = suc s.working.next_reverse;
          };
        })
        (h.0, added r s.working fine h.1)

  finish-Keeps :
      (i operator : ℕ) (name : String) (d : Response) → Keeps P (finish i operator name d)
  unfolding finish change_to is_failed
  finish-Keeps i operator name skipped =
      then_pure-Keeps
        (update_status i (change_to ReverseStatus.clawback_done (some (pos 0)) none operator name))
        (reversed (pos 0) none)
        (update_status-Keeps i
          (change_to ReverseStatus.clawback_done (some (pos 0)) none operator name) refl)
  finish-Keeps i operator name (success d) =
      let c =
        change_to ReverseStatus.clawback_done (some d.deduct_amount) d.deduct_flow_id operator
          name in
      then_pure-Keeps (update_status i c) (reversed d.deduct_amount d.deduct_flow_id)
        (update_status-Keeps i c refl)

  reverse_body-Keeps :
      (i : ℕ) (r : ReverseRecord) (operator : ℕ) (name : String)
      → Keeps P (reverse_body i r operator name)
  unfolding reverse_body change_to is_failed
  reverse_body-Keeps i r operator name =
      then-Keeps P (update_status i (change_to ReverseStatus.frozen none none operator name))
        (λ _. execute_refund_deduction r.order_id operator >>= finish i operator name)
        (update_status-Keeps i (change_to ReverseStatus.frozen none none operator name) refl)
        (λ _.
          then-Keeps P (execute_refund_deduction r.order_id operator) (finish i operator name)
            (deducts r.order_id operator) (finish-Keeps i operator name))

  handle-Keeps : (i : ℕ) (r : ReverseRecord) (x : Result Execution) → Keeps P (handle i r x)
  unfolding handle
  handle-Keeps i r (ok x) s h = h
  handle-Keeps i r (err e) s h = elim (Bool-cases (is_inactive e)) [
    | inl lost ↦ rw lost h
    | inr usable ↦ rw usable (
        then-Both P (increment_retry i)
          (λ _. gets (λ t. find i t.reverse_records) >>= λ now.
            pure (reverse_failed (retries_reported now r)))
          s (increment_retry-Keeps i s h) (λ _ s h. h))
  ]

  execute_row-Keeps :
      (i operator : ℕ) (name : String) (o : Option ReverseRecord)
      → Keeps P (execute_row i operator name o)
  unfolding execute_row
  execute_row-Keeps i operator name none s h = h
  execute_row-Keeps i operator name (some r) s h = elim (Bool-cases (is_finished r.status)) [
    | inl done ↦ rw done h
    | inr live ↦ elim (Bool-cases (leb r.max_retry r.retry_count)) [
      | inl exhausted ↦ rw (live, exhausted) h
      | inr remains ↦
          rw (live, remains)
            (then-Both P (attempt (reverse_body i r operator name)) (handle i r) s
              (reverse_body-Keeps i r operator name s h) (handle-Keeps i r))
    ]
  ]

  pub execute_reverse_commission-Keeps :
      (i operator : ℕ) (name : String) → Keeps P (execute_reverse_commission i operator name)
  unfolding execute_reverse_commission
  execute_reverse_commission-Keeps i operator name s h =
      execute_row-Keeps i operator name (find i s.working.reverse_records) s h

  pub adjust_commission-Keeps :
      (i : ℕ) (amount : ℤ) (operator : ℕ) (name : String)
      → Keeps P (adjust_commission i amount operator name)
  unfolding adjust_commission adjust_row change_to is_failed
  adjust_commission-Keeps i amount operator name s h =
      elim (Option-cases (find i s.working.reverse_records)) [
        | inl missing ↦ rw missing h
        | inr (r, found) ↦ elim (Bool-cases (can_adjust r.status && not (ltb_ℤ amount (pos 0)))) [
          | inl can ↦
              rw (found, can)
                (update_status-Keeps i
                  (change_to ReverseStatus.adjusted (some amount) none operator name) refl s h)
          | inr cannot ↦ rw (found, cannot) h
        ]
      ]

  one_or_none-Keeps : (rows : List (ℕ × ReverseRecord)) → Keeps P (one_or_none rows)
  unfolding one_or_none
  one_or_none-Keeps [] s h = h
  one_or_none-Keeps (r ∷ []) s h = h
  one_or_none-Keeps (r ∷ r' ∷ rs) s h = h

  exists_by_order_id-Keeps : (i : ℕ) → Keeps P (exists_by_order_id i)
  unfolding exists_by_order_id
  exists_by_order_id-Keeps i s h =
      let rows =
        rows_where (λ (r : ReverseRecord). r.order_id == i && not (is_failed r.status))
          s.working.reverse_records in
      then-Both P (one_or_none rows) (λ found. pure (elim found [ none ↦ false | some r ↦ true ])) s
        (one_or_none-Keeps rows s h) (λ _ s h. h)

  record_if_new-Keeps :
      (i : ℕ) (o : Order) (operator : ℕ) (name : String) (status : TransferStatus) (there : Bool)
      → Keeps P (record_if_new i o operator name status there)
  unfolding record_if_new new_record is_failed
  record_if_new-Keeps i o operator name status true s h = h
  record_if_new-Keeps i o operator name status false s h =
      then_pure-Keeps (create_record (new_record i o status operator name)) true
        (create_record-Keeps (new_record i o status operator name) refl) s h

  identify_flow-Keeps :
      (i : ℕ) (o : Order) (operator : ℕ) (name : String) (status : Option TransferStatus)
      → Keeps P (identify_flow i o operator name status)
  unfolding identify_flow
  identify_flow-Keeps i o operator name none s h = h
  identify_flow-Keeps i o operator name (some status) s h =
      then-Both P (exists_by_order_id i) (record_if_new i o operator name status) s
        (exists_by_order_id-Keeps i s h) (record_if_new-Keeps i o operator name status)

  identify_all-Keeps :
      (orders : Table Order) (operator : ℕ) (name : String) (counts : ℕ × ℕ)
      → Keeps P (identify_all orders operator name counts)
  unfolding identify_all identify_order
  identify_all-Keeps [] operator name counts s h = h
  identify_all-Keeps (e ∷ t) operator name counts s h =
      then-Keeps P (attempt (identify_order e operator name))
        (λ r. identify_all t operator name (count_identified r counts))
        (λ s h.
          identify_flow-Keeps e.0 e.1 operator name (newest (flows_of is_order_flow e.0 s.working))
            s h)
        (λ r. identify_all-Keeps t operator name (count_identified r counts)) s h

  execute_all-Keeps :
      (is : List ℕ) (operator : ℕ) (name : String) (counts : ℕ × ℕ)
      → Keeps P (execute_all is operator name counts)
  unfolding execute_all
  execute_all-Keeps [] operator name counts s h = h
  execute_all-Keeps (i ∷ is) operator name counts s h =
      then-Keeps P (execute_reverse_commission i operator name)
        (λ x. execute_all is operator name (count_execution x counts))
        (execute_reverse_commission-Keeps i operator name)
        (λ x. execute_all-Keeps is operator name (count_execution x counts)) s h

  pub identify_refund_orders-Keeps :
      (limit operator : ℕ) (name : String) → Keeps P (identify_refund_orders limit operator name)
  unfolding identify_refund_orders
  identify_refund_orders-Keeps limit operator name s h =
      identify_all-Keeps (take limit (unrecorded s.working.reverse_records s.working.orders))
        operator name (0, 0) s h

  pub batch_execute-Keeps :
      (limit operator : ℕ) (name : String) → Keeps P (batch_execute limit operator name)
  unfolding batch_execute
  batch_execute-Keeps limit operator name s h =
      execute_all-Keeps (to_execute limit s.working) operator name (0, 0) s h

  -- a round of the schedule: what it finds, and what it executes
  pub scheduled_reverse_commission-Keeps : Keeps P scheduled_reverse_commission
  unfolding scheduled_reverse_commission
  scheduled_reverse_commission-Keeps =
      then-Keeps P (identify_refund_orders batch_size system_operator "系统自动")
        (λ identified. batch_execute batch_size system_operator "系统自动" >>= λ executed.
          pure {A = (ℕ × ℕ) × Result (ℕ × ℕ)} (identified, executed))
        (identify_refund_orders-Keeps batch_size system_operator "系统自动")
        (λ identified.
          then-Keeps P (batch_execute batch_size system_operator "系统自动")
            (λ executed. pure {A = (ℕ × ℕ) × Result (ℕ × ℕ)} (identified, executed))
            (batch_execute-Keeps batch_size system_operator "系统自动") (λ _ s h. h))
