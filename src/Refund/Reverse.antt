-- ===== src/Refund/Reverse.antt =====
-- backend/src/services/b07_1_reverse_commission_service.py over dao/b07_1_reverse_commission_dao.py: a
-- record for each refunded order, and the deduction that it asks for. Times, remarks and the texts of
-- errors are not modelled.
use gaking.Base.{ℕ, suc, Bool, true, false, Option, none, some, not, ◌&&◌, leb, if◌then◌else◌}
use gaking.Base.Int.{ℤ, pos, ltb_ℤ}
use gaking.Base.Table.{find, put}
use gaking.Store.Types.{Order, ReverseRecord, ReverseStatus, TransferStatus}
use gaking.Store.Session.{
  Result, ok, err, Error, Action, ◌>>=◌, ◌>>◌, pure, gets, raise_if, modify, commit,
}
use gaking.Accounts.Dao.{attempt}
use gaking.Refund.Deduct.{Response, skipped, success, execute_refund_deduction}
use Prim.Native.String.{String}

abbrev pub max_retry_count : ℕ
max_retry_count = 3

unfoldable pub new_record : ℕ → Order → TransferStatus → ℕ → String → ReverseRecord
new_record order_id o status operator name = record {
  order_id = order_id;
  out_order_no = o.out_order_no;
  user_id = o.user_id;
  channel_code = o.channel_code;
  original_commission = o.user_commission;
  deducted_amount = pos 0;
  flow_transfer_status = status;
  status = ReverseStatus.identified;
  retry_count = 0;
  max_retry = max_retry_count;
  deduct_flow_id = none;
  operator_id = operator;
  operator_name = name;
}

-- `create_record`
unfoldable pub create_record : ReverseRecord → Action (Unit {0})
create_record r = do
  modify (λ t. record t {
    reverse_records = put t.next_reverse r t.reverse_records;
    next_reverse = suc t.next_reverse;
  })
  commit

-- What `update_status` is given; a column is left as it is by none, and the name by an empty text.
pub record StatusChange : Type 0 where
  pub status : ReverseStatus
  pub deducted_amount : Option ℤ
  pub deduct_flow_id : Option ℕ
  pub operator_id : ℕ
  pub operator_name : String

or_old : {A : Type 0} → A → Option A → A
or_old a none = a
or_old a (some b) = b

some_or_old : Option ℕ → Option ℕ → Option ℕ
some_or_old a none = a
some_or_old a (some b) = some b

text_or_old : String → String → String
text_or_old old String.[] = old
text_or_old old new = new

unfoldable pub changed : StatusChange → ReverseRecord → ReverseRecord
unfolding or_old some_or_old text_or_old
changed c r = record r {
  status = c.status;
  deducted_amount = or_old r.deducted_amount c.deducted_amount;
  deduct_flow_id = some_or_old r.deduct_flow_id c.deduct_flow_id;
  operator_id = c.operator_id;
  operator_name = text_or_old r.operator_name c.operator_name;
}

-- `update_by_id` on the row that was found
unfoldable pub save_record :
    ℕ → (ReverseRecord → ReverseRecord) → Option ReverseRecord → Action (Unit {0})
save_record i f none = pure tt
save_record i f (some r) = do
  modify (λ t. record t { reverse_records = put i (f r) t.reverse_records })
  commit

unfoldable pub update_status : ℕ → StatusChange → Action (Unit {0})
unfolding save_record
update_status i c = gets (λ t. find i t.reverse_records) >>= save_record i (changed c)

abbrev pub retried : ReverseRecord → ReverseRecord
retried r = record r { retry_count = suc r.retry_count }

unfoldable pub increment_retry : ℕ → Action (Unit {0})
unfolding save_record
increment_retry i = gets (λ t. find i t.reverse_records) >>= save_record i retried

unfoldable pub is_identified : ReverseStatus → Bool
is_identified ReverseStatus.identified = true
is_identified _ = false

unfoldable pub is_failed : ReverseStatus → Bool
is_failed ReverseStatus.failed = true
is_failed _ = false

-- CLAWBACK_DONE or ADJUSTED
unfoldable pub is_finished : ReverseStatus → Bool
is_finished ReverseStatus.clawback_done = true
is_finished ReverseStatus.adjusted = true
is_finished _ = false

-- What `execute_reverse_commission` returns, with the retries that it reports.
pub data Execution : Type 0 where
  record_missing already_finished retries_exhausted : Execution
  reversed : ℤ → Option ℕ → Execution
  reverse_failed : ℕ → Execution

unfoldable pub change_to : ReverseStatus → Option ℤ → Option ℕ → ℕ → String → StatusChange
change_to status amount flow_id operator name = record {
  status = status;
  deducted_amount = amount;
  deduct_flow_id = flow_id;
  operator_id = operator;
  operator_name = name;
}

-- the branches on the answer of the deduction
unfoldable pub finish : ℕ → ℕ → String → Response → Action Execution
unfolding change_to
finish i operator name skipped = do
  update_status i (change_to ReverseStatus.clawback_done (some (pos 0)) none operator name)
  pure (reversed (pos 0) none)
finish i operator name (success d) = do
  update_status i
      (change_to ReverseStatus.clawback_done (some d.deduct_amount) d.deduct_flow_id operator name)
  pure (reversed d.deduct_amount d.deduct_flow_id)

-- the body of the `try`
unfoldable pub reverse_body : ℕ → ReverseRecord → ℕ → String → Action Execution
unfolding finish change_to
reverse_body i r operator name = do
  update_status i (change_to ReverseStatus.frozen none none operator name)
  d ← execute_refund_deduction r.order_id operator
  finish i operator name d

unfoldable pub is_inactive : Error → Bool
is_inactive Error.session_inactive = true
is_inactive _ = false

-- `record.retry_count + 1`, of the row that `increment_retry` has changed
unfoldable pub retries_reported : Option ReverseRecord → ReverseRecord → ℕ
retries_reported none r = suc r.retry_count
retries_reported (some now) r = suc now.retry_count

-- The `except`: on a session that is not rolled back `increment_retry` raises too.
unfoldable pub handle : ℕ → ReverseRecord → Result Execution → Action Execution
unfolding is_inactive retries_reported
handle i r (ok x) = pure x
handle i r (err e) = do
  raise_if (is_inactive e) Error.session_inactive
  increment_retry i
  now ← gets (λ t. find i t.reverse_records)
  pure (reverse_failed (retries_reported now r))

unfoldable pub execute_row : ℕ → ℕ → String → Option ReverseRecord → Action Execution
unfolding is_finished reverse_body handle
execute_row i operator name none = pure record_missing
execute_row i operator name (some r) =
    if is_finished r.status
    then pure already_finished
    else (if leb r.max_retry r.retry_count
        then pure retries_exhausted
        else attempt (reverse_body i r operator name) >>= handle i r)

unfoldable pub execute_reverse_commission : ℕ → ℕ → String → Action Execution
unfolding execute_row
execute_reverse_commission i operator name =
    gets (λ t. find i t.reverse_records) >>= execute_row i operator name

unfoldable pub retry_failed : ℕ → ℕ → String → Action Execution
unfolding execute_reverse_commission
retry_failed i operator name = execute_reverse_commission i operator name

-- `adjust_commission`: refused, or what the record says is changed, and no balance is
pub data Adjustment : Type 0 where
  adjust_refused adjust_failed adjust_done : Adjustment

unfoldable pub can_adjust : ReverseStatus → Bool
unfolding is_failed is_identified
can_adjust ReverseStatus.identified = true
can_adjust status = is_failed status

unfoldable pub adjusted_or_failed : Result (Unit {0}) → Adjustment
adjusted_or_failed (ok _) = adjust_done
adjusted_or_failed (err e) = adjust_failed

unfoldable pub adjust_row : ℕ → ℤ → ℕ → String → Option ReverseRecord → Action Adjustment
unfolding can_adjust change_to adjusted_or_failed
adjust_row i amount operator name none = pure adjust_refused
adjust_row i amount operator name (some r) =
    if can_adjust r.status && not (ltb_ℤ amount (pos 0))
    then (do
      done ←
          attempt
            (update_status i (change_to ReverseStatus.adjusted (some amount) none operator name))
      pure (adjusted_or_failed done))
    else pure adjust_refused

unfoldable pub adjust_commission : ℕ → ℤ → ℕ → String → Action Adjustment
unfolding adjust_row
adjust_commission i amount operator name =
    gets (λ t. find i t.reverse_records) >>= adjust_row i amount operator name
