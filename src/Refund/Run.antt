-- ===== src/Refund/Run.antt =====
-- Runs of the calls of backend/src/services/b07_1_reverse_commission_service.py and
-- services/refund_deduction_service.py.
use gaking.Base.{ℕ, suc, false, some, List, [], ◌∷◌, ◌≡◌}
use gaking.Base.Int.{ℤ}
use gaking.Base.Table.{find, put}
use gaking.Store.Types.{ReverseRecord}
use gaking.Store.Session.{Tables, Session}
use gaking.Store.Keeps.{Both, Keeps}
use gaking.Refund.Deduct.{execute_refund_deduction}
use gaking.Refund.Reverse.{is_failed, execute_reverse_commission, retry_failed, adjust_commission}
use gaking.Refund.ReverseBatch.{identify_refund_orders, batch_execute, scheduled_reverse_commission}
use gaking.Refund.ReverseKeeps.{
  identify_refund_orders-Keeps, execute_reverse_commission-Keeps, batch_execute-Keeps,
  adjust_commission-Keeps, scheduled_reverse_commission-Keeps,
}
use Prim.Native.String.{String}

-- A call of the services that take commissions back.
pub data Clawback : Type 0 where
  identify : ℕ → ℕ → String → Clawback
  execute_record : ℕ → ℕ → String → Clawback
  retry : ℕ → ℕ → String → Clawback
  execute_batch : ℕ → ℕ → String → Clawback
  adjust_record : ℕ → ℤ → ℕ → String → Clawback
  execute_deduction : ℕ → ℕ → Clawback
  scheduled : Clawback

-- What the session is after a call, returned or raised.
unfoldable pub perform_clawback : Clawback → Session → Session
perform_clawback (identify limit operator name) s = (identify_refund_orders limit operator name s).1
perform_clawback (execute_record i operator name) s =
    (execute_reverse_commission i operator name s).1
perform_clawback (retry i operator name) s = (retry_failed i operator name s).1
perform_clawback (execute_batch limit operator name) s = (batch_execute limit operator name s).1
perform_clawback (adjust_record i amount operator name) s =
    (adjust_commission i amount operator name s).1
perform_clawback (execute_deduction i operator) s = (execute_refund_deduction i operator s).1
perform_clawback scheduled s = (scheduled_reverse_commission s).1

unfoldable pub perform_clawbacks : List Clawback → Session → Session
perform_clawbacks [] s = s
perform_clawbacks (c ∷ cs) s = perform_clawbacks cs (perform_clawback c s)

module _ (P : Tables → Type 0)
    (deducts : (i operator : ℕ) → Keeps P (execute_refund_deduction i operator))
    (kept : (i : ℕ) (old new : ReverseRecord) (t : Tables)
      → find i t.reverse_records ≡ some old
      → (is_failed old.status ≡ false → is_failed new.status ≡ false)
      → P t
      → P (record t { reverse_records = put i new t.reverse_records }))
    (added : (r : ReverseRecord) (t : Tables)
      → is_failed r.status ≡ false
      → P t
      → P (record t {
        reverse_records = put t.next_reverse r t.reverse_records;
        next_reverse = suc t.next_reverse;
      })) where
  pub perform_clawback-Keeps :
      (c : Clawback) (s : Session) → Both P s → Both P (perform_clawback c s)
  unfolding perform_clawback retry_failed
  perform_clawback-Keeps (identify limit operator name) s h =
      identify_refund_orders-Keeps P deducts kept added limit operator name s h
  perform_clawback-Keeps (execute_record i operator name) s h =
      execute_reverse_commission-Keeps P deducts kept added i operator name s h
  perform_clawback-Keeps (retry i operator name) s h =
      execute_reverse_commission-Keeps P deducts kept added i operator name s h
  perform_clawback-Keeps (execute_batch limit operator name) s h =
      batch_execute-Keeps P deducts kept added limit operator name s h
  perform_clawback-Keeps (adjust_record i amount operator name) s h =
      adjust_commission-Keeps P deducts kept added i amount operator name s h
  perform_clawback-Keeps (execute_deduction i operator) s h = deducts i operator s h
  perform_clawback-Keeps scheduled s h = scheduled_reverse_commission-Keeps P deducts kept added s h

  pub perform_clawbacks-Keeps :
      (cs : List Clawback) (s : Session) → Both P s → Both P (perform_clawbacks cs s)
  unfolding perform_clawbacks
  perform_clawbacks-Keeps [] s h = h
  perform_clawbacks-Keeps (c ∷ cs) s h =
      perform_clawbacks-Keeps cs (perform_clawback c s) (perform_clawback-Keeps c s h)
