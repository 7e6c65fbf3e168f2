-- ===== src/Withdraw/Service.antt =====
-- The four flows of backend/src/services/withdraw_service.py, over the DAOs of the accounts and of
-- the applications (backend/src/dao/user_withdraw_apply_dao.py).
use gaking.Base.{ℕ, suc, Bool, true, false, Option, none, some, not}
use gaking.Base.Int.{ℤ, pos, ◌-ℤ◌, ltb_ℤ}
use gaking.Base.Table.{find, put}
use gaking.Store.Types.{WithdrawApply, WithdrawStatus}
use gaking.Store.Session.{
  Error, Action, ◌>>=◌, ◌>>◌, pure, gets, or_raise, raise_if, modify, commit,
  invalidate_account_cache,
}
use gaking.Accounts.Dao.{Deltas, no_deltas, adjust_balance}
use gaking.Withdraw.Rules.{RuleEnv, withdraw_min_amount, validate_all, invalidate_daily_used_cache}
use Prim.Native.String.{String}

-- What an application finds outside the database: whether SETNX set the key of the interval, whether
-- the lock was granted, the number that it is given and the clock.
pub record ApplyEnv : Type 0 where
  pub interval_free : Bool
  pub lock_granted : Bool
  pub apply_no : String
  pub now : ℕ
  pub rules : RuleEnv

unfoldable pub new_apply : ApplyEnv → ℕ → ℤ → ℤ → WithdrawApply
new_apply env u amount fee = record {
  apply_no = env.apply_no;
  user_id = u;
  apply_amount = amount;
  fee = fee;
  actual_amount = amount -ℤ fee;
  status = WithdrawStatus.pending;
  review_user_id = none;
  review_remark = "";
  review_time = none;
  transfer_batch_id = "";
  transfer_time = none;
  reject_reason = "";
  create_time = env.now;
}

-- `apply_dao.create`: a row under the next id, a commit, and the user's account cache deleted
unfoldable pub create_apply : WithdrawApply → Action WithdrawApply
unfolding commit
create_apply a = do
  modify (λ t. record t { applies = put t.next_apply a t.applies; next_apply = suc t.next_apply })
  commit
  invalidate_account_cache a.user_id
  pure a

-- the deltas that lock an amount, that give it back, and that pay it out
unfoldable pub lock_deltas : ℤ → Deltas
lock_deltas amount = record no_deltas { available = pos 0 -ℤ amount; frozen = amount }

unfoldable pub return_deltas : ℤ → Deltas
return_deltas amount = record no_deltas { available = amount; frozen = pos 0 -ℤ amount }

unfoldable pub payout_deltas : WithdrawApply → Deltas
payout_deltas a = record no_deltas {
  frozen = pos 0 -ℤ a.apply_amount;
  withdrawn = a.actual_amount;
  fee = a.fee;
}

-- steps 4 and 5, once the rules have passed
unfoldable pub lock_and_create : ApplyEnv → ℕ → ℤ → ℤ → Action WithdrawApply
unfolding lock_deltas new_apply create_apply
lock_and_create env u amount fee = do
  adjust_balance u (lock_deltas amount)
  apply_record ← create_apply (new_apply env u amount fee)
  invalidate_daily_used_cache u
  pure apply_record

unfoldable pub apply_withdraw : ApplyEnv → ℕ → ℤ → Action WithdrawApply
unfolding lock_and_create
apply_withdraw env u amount = do
  raise_if (not env.interval_free) Error.too_frequent
  raise_if (ltb_ℤ amount withdraw_min_amount) Error.below_minimum
  raise_if (not env.lock_granted) Error.busy
  result ← validate_all u amount env.rules
  lock_and_create env u amount (pos result.fee)

save_found : Option WithdrawApply → ℕ → (WithdrawApply → WithdrawApply) → Action (Unit {0})
unfolding commit
save_found none i f = pure tt
save_found (some a) i f = do
  modify (λ t. record t { applies = put i (f a) t.applies })
  commit
  invalidate_account_cache a.user_id

-- `apply_dao.update_by_id`
unfoldable pub update_apply : ℕ → (WithdrawApply → WithdrawApply) → Action (Unit {0})
unfolding save_found
update_apply i f = do a ← gets (λ t. find i t.applies); save_found a i f

-- What a review finds: whether the lock of the application was granted, and the clock.
pub record ReviewEnv : Type 0 where
  pub lock_granted : Bool
  pub now : ℕ

unfoldable pub is_pending : WithdrawStatus → Bool
is_pending WithdrawStatus.pending = true
is_pending _ = false

-- the set `allowed` of `complete_apply` and `fail_apply`
unfoldable pub is_payable : WithdrawStatus → Bool
is_payable WithdrawStatus.approved = true
is_payable WithdrawStatus.processing = true
is_payable _ = false

-- the common head of the reviews: the lock, the application and its status
unfoldable pub load_apply : ReviewEnv → ℕ → (WithdrawStatus → Bool) → Action WithdrawApply
load_apply env i admitted = do
  raise_if (not env.lock_granted) Error.busy
  a ← or_raise (← gets (λ t. find i t.applies)) Error.apply_missing
  raise_if (not (admitted a.status)) Error.apply_status
  pure a

unfoldable pub rejected : ReviewEnv → ℕ → String → WithdrawApply → WithdrawApply
rejected env reviewer reason a = record a {
  status = WithdrawStatus.rejected;
  review_user_id = some reviewer;
  review_time = some env.now;
  reject_reason = reason;
}

unfoldable pub approved : ReviewEnv → ℕ → String → WithdrawApply → WithdrawApply
approved env reviewer remark a = record a {
  status = WithdrawStatus.approved;
  review_user_id = some reviewer;
  review_remark = remark;
  review_time = some env.now;
}

unfoldable pub completed : ReviewEnv → String → WithdrawApply → WithdrawApply
completed env batch a = record a {
  status = WithdrawStatus.success;
  transfer_batch_id = batch;
  transfer_time = some env.now;
}

unfoldable pub failed : ReviewEnv → String → WithdrawApply → WithdrawApply
failed env reason a = record a {
  status = WithdrawStatus.rejected;
  reject_reason = reason;
  transfer_time = some env.now;
}

-- The status first, then the balance: what the three flows that end an application share.
unfoldable pub settle_apply :
    ReviewEnv
    → ℕ
    → (WithdrawStatus → Bool)
    → (WithdrawApply → WithdrawApply)
    → (WithdrawApply → Deltas)
    → Action WithdrawApply
unfolding load_apply update_apply
settle_apply env i admitted f deltas = do
  a ← load_apply env i admitted
  update_apply i f
  adjust_balance a.user_id (deltas a)
  pure (f a)

unfoldable pub reject_apply : ReviewEnv → ℕ → ℕ → String → Action WithdrawApply
unfolding settle_apply
reject_apply env i reviewer reason =
    settle_apply env i is_pending (rejected env reviewer reason) (λ a. return_deltas a.apply_amount)

unfoldable pub approve_apply : ReviewEnv → ℕ → ℕ → String → Action WithdrawApply
unfolding load_apply update_apply
approve_apply env i reviewer remark = do
  a ← load_apply env i is_pending
  update_apply i (approved env reviewer remark)
  pure (approved env reviewer remark a)

unfoldable pub complete_apply : ReviewEnv → ℕ → String → Action WithdrawApply
unfolding settle_apply
complete_apply env i batch = settle_apply env i is_payable (completed env batch) payout_deltas

unfoldable pub fail_apply : ReviewEnv → ℕ → String → Action WithdrawApply
unfolding settle_apply
fail_apply env i reason =
    settle_apply env i is_payable (failed env reason) (λ a. return_deltas a.apply_amount)
