-- ===== src/Refund/NoneFailed.antt =====
-- backend/src/services/b07_1_reverse_commission_service.py never puts a record on FAILED.
use gaking.Base.{ℕ, suc, false, some, List, [], ◌∷◌, ◌&&◌, ltb, ◌≡◌, refl, arith}
use gaking.Base.Table.{Table, find, put, rows_where, Rows, find-Rows, put-Rows}
use gaking.Store.Types.{ReverseRecord}
use gaking.Store.Session.{Tables, Session}
use gaking.Store.Keeps.{Both, Keeps}
use gaking.Funds.Transactions.{deduct_on_refund-Both}
use gaking.Refund.Deduct.{execute_refund_deduction}
use gaking.Refund.Keeps.{execute_refund_deduction-Keeps}
use gaking.Refund.Reverse.{is_failed}
use gaking.Refund.ReverseBatch.{keys, retryable}
use gaking.Refund.Run.{Clawback, perform_clawbacks, perform_clawbacks-Keeps}

abbrev pub NoneFailed : Tables → Type 0
NoneFailed t = Rows (λ (r : ReverseRecord). is_failed r.status ≡ false) t.reverse_records

deduct-NoneFailed : (i operator : ℕ) → Keeps NoneFailed (execute_refund_deduction i operator)
deduct-NoneFailed i operator =
    execute_refund_deduction-Keeps NoneFailed (λ t v r h. h) (λ t orders h. h)
      (λ i o k f s h.
        deduct_on_refund-Both NoneFailed i o k f s (λ missing. h.1) (λ flows. h.1)
          (λ v b c t flows n found same k. (k, k)) h)
      i operator

kept :
    (i : ℕ) (old new : ReverseRecord) (t : Tables)
    → find i t.reverse_records ≡ some old
    → (is_failed old.status ≡ false → is_failed new.status ≡ false)
    → NoneFailed t
    → NoneFailed (record t { reverse_records = put i new t.reverse_records })
kept i old new t found fine h =
    let same : (r : ReverseRecord) → Type 0 = λ r. is_failed r.status ≡ false in
    put-Rows same i new t.reverse_records (fine (find-Rows same i t.reverse_records h found)) h

added :
    (r : ReverseRecord) (t : Tables)
    → is_failed r.status ≡ false
    → NoneFailed t
    → NoneFailed (record t {
      reverse_records = put t.next_reverse r t.reverse_records;
      next_reverse = suc t.next_reverse;
    })
added r t fine h =
    put-Rows (λ (r : ReverseRecord). is_failed r.status ≡ false) t.next_reverse r t.reverse_records
      fine h

none_passes :
    (t : Table ReverseRecord)
    → Rows (λ (r : ReverseRecord). is_failed r.status ≡ false) t
    → rows_where (λ (r : ReverseRecord). is_failed r.status && ltb r.retry_count r.max_retry) t ≡ []
unfolding rows_where
none_passes [] h = refl
none_passes (e ∷ t) h = ground (arith, h.0, none_passes t h.1)

-- Where no record is on FAILED, none ever gets there, whatever is called, raises or fails to commit: the
-- query of the records to try again stays empty.
pub perform_clawbacks-none_retryable :
    (cs : List Clawback) (s : Session)
    → Both NoneFailed s
    → (retryable (perform_clawbacks cs s).working ≡ []) × Both NoneFailed (perform_clawbacks cs s)
unfolding retryable keys
perform_clawbacks-none_retryable cs s h =
    let after = perform_clawbacks-Keeps NoneFailed deduct-NoneFailed kept added cs s h in
    (rw (none_passes (perform_clawbacks cs s).working.reverse_records after.1), after)
