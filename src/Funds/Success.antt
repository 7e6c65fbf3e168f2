-- ===== src/Funds/Success.antt =====
-- A covered frozen balance lets the flows of backend/src/services/withdraw_service.py that end an
-- application succeed.
use gaking.Base.{ℕ, ◌≡◌, refl, ap, Bool, true, Option, none, some, arith, []}
use gaking.Base.Int.{ℤ, pos, ◌+ℤ◌, ◌-ℤ◌, ◌≤ℤ◌, int_laws, pos_part, neg_part}
use gaking.Base.Table.{find}
use gaking.Store.Types.{Account, WithdrawApply, WithdrawStatus}
use gaking.Store.Session.{Tables, Session, ok, Action}
use gaking.Accounts.Dao.{Deltas, adjusted, adjust_balance}
use gaking.Withdraw.Service.{
  ReviewEnv, return_deltas, payout_deltas, reject_apply, complete_apply, fail_apply, rejected,
  completed, failed, is_pending, is_payable, settle_apply,
}
use gaking.Funds.Cover.{is_open, IsFunded, frozen_of, claim_le, holds_nonneg, claim-own_user}
use gaking.Funds.Keeps.{with_account, with_apply}
use gaking.Funds.Withdraws.{pending_open, payable_open}
use Prim.Native.String.{String}

-- The tables once application `i` has become `a'` and its user's account has been adjusted.
abbrev pub ended : ℕ → WithdrawApply → Account → Deltas → Tables → Tables
ended i a' b d t = with_account a'.user_id (adjusted b d) (with_apply i a' t)

-- The claim of an application is frozen, in an account that is there if the claim is positive.
frozen_for :
    (i : ℕ) (t : Tables) {a : WithdrawApply}
    → find i t.applies ≡ some a
    → is_open a.status ≡ true
    → IsFunded a.user_id t
    → a.apply_amount ≤ℤ frozen_of (find a.user_id t.accounts)
frozen_for i t {a = a} found opens (cover, rows, held, below, low) =
    let c = claim-own_user a opens in
    omega (
      int_laws,
      claim_le a.user_id i t.applies rows found,
      holds_nonneg a.user_id t.settlements held,
      ap pos_part c,
      ap neg_part c,
    )

account_there :
    (x : ℤ) (row : Option Account)
    → ¬ (x ≤ℤ pos 0)
    → x ≤ℤ frozen_of row
    → (b : Account) × (row ≡ some b) × (x ≤ℤ b.frozen_balance)
account_there x none p h = absurd (p h)
account_there x (some b) p h = (b, refl, h)

-- The account, if there is one, has no negative available balance.
abbrev pub HasNoDebt : Option Account → Type 0
HasNoDebt none = Unit
HasNoDebt (some b) = pos 0 ≤ℤ b.available_balance

-- What a flow that ends an application needs: the application's lock, the stored application in an admitted
-- state and of a positive amount, a frozen balance of its user that is covered, an available balance that
-- is not negative, and commits that succeed. And what it does.
module _ (env : ReviewEnv) (i : ℕ) (s : Session) (a : WithdrawApply) where
  abbrev pub CanEnd : (WithdrawStatus → Bool) → Type 0
  CanEnd admitted =
      (env.lock_granted ≡ true)
      × (find i s.working.applies ≡ some a)
      × (admitted a.status ≡ true)
      × ¬ (a.apply_amount ≤ℤ pos 0)
      × IsFunded a.user_id s.working
      × HasNoDebt (find a.user_id s.working.accounts)
      × (s.faults ≡ [])

  abbrev pub Ends : Action WithdrawApply → WithdrawApply → Deltas → Type 0
  Ends m a' d =
      ((m s).0 ≡ ok a')
      × ((m s).1.committed ≡ (m s).1.working)
      × ((b : Account) × (find a.user_id s.working.accounts ≡ some b)
          × ((m s).1.working ≡ ended i a' b d s.working))

  settle_apply-Ends :
      (admitted : WithdrawStatus → Bool) (f : WithdrawApply → WithdrawApply)
      (deltas : WithdrawApply → Deltas)
      → ((st : WithdrawStatus) → admitted st ≡ true → is_open st ≡ true)
      → (f a).user_id ≡ a.user_id
      → pos 0 ≤ℤ (deltas a).available
      → (deltas a).frozen ≡ pos 0 -ℤ a.apply_amount
      → CanEnd admitted
      → Ends (settle_apply env i admitted f deltas) (f a) (deltas a)
  unfolding settle_apply adjust_balance
  settle_apply-Ends admitted f deltas opens same gives takes
        (lock, found, ad, positive, fund, no_debt, fine) =
      let (b, there, enough) =
        account_there a.apply_amount (find a.user_id s.working.accounts) positive
          (frozen_for i s.working found (opens a.status ad) fund) in
      let avail : pos 0 ≤ℤ b.available_balance = rw there at no_debt in
      let avail' : pos 0 ≤ℤ b.available_balance +ℤ (deltas a).available = omega int_laws in
      let froz' : pos 0 ≤ℤ b.frozen_balance +ℤ (deltas a).frozen =
        omega (int_laws, ap pos_part takes, ap neg_part takes) in
      (
        ground (arith, lock, found, ad, there, avail', froz', fine),
        ground (arith, lock, found, ad, there, avail', froz', fine),
        (b, there, ground (arith, lock, found, ad, there, avail', froz', fine, same)),
      )

  at_least_nothing : (x : ℤ) → ¬ (x ≤ℤ pos 0) → pos 0 ≤ℤ x
  at_least_nothing x p = omega arith

  -- Where its lock is granted, its user's frozen balance is covered, the user's available balance is not
  -- negative and no commit fails, a stored, pending application of a positive amount can be rejected: the
  -- call returns, the status is committed, and the amount has gone back from the frozen to the available
  -- balance.
  pub reject_apply_succeeds :
      (reviewer : ℕ) (reason : String)
      → CanEnd is_pending
      → Ends
          (reject_apply env i reviewer reason)
          (rejected env reviewer reason a)
          (return_deltas a.apply_amount)
  unfolding reject_apply return_deltas rejected
  reject_apply_succeeds reviewer reason h =
      settle_apply-Ends is_pending (rejected env reviewer reason)
        (λ c. return_deltas c.apply_amount) pending_open refl (at_least_nothing a.apply_amount h.3)
        refl h

  -- Where its lock is granted, its user's frozen balance is covered, the user's available balance is not
  -- negative and no commit fails, the payment of a stored application of a positive amount that is
  -- approved or processing can be completed: the call returns, the status is committed, and the frozen
  -- amount is booked as paid out and as a fee.
  pub complete_apply_succeeds :
      (batch : String)
      → CanEnd is_payable
      → Ends (complete_apply env i batch) (completed env batch a) (payout_deltas a)
  unfolding complete_apply payout_deltas completed
  complete_apply_succeeds batch h =
      settle_apply-Ends is_payable (completed env batch) payout_deltas payable_open refl
        (omega arith) refl h

  -- Where its lock is granted, its user's frozen balance is covered, the user's available balance is not
  -- negative and no commit fails, the payment of a stored application of a positive amount that is
  -- approved or processing can be marked as failed: the call returns, the status is committed, and the
  -- amount has gone back to the available balance.
  pub fail_apply_succeeds :
      (reason : String)
      → CanEnd is_payable
      → Ends (fail_apply env i reason) (failed env reason a) (return_deltas a.apply_amount)
  unfolding fail_apply return_deltas failed
  fail_apply_succeeds reason h =
      settle_apply-Ends is_payable (failed env reason) (λ c. return_deltas c.apply_amount)
        payable_open refl (at_least_nothing a.apply_amount h.3) refl h
