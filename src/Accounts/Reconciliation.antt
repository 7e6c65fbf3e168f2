-- ===== src/Accounts/Reconciliation.antt =====
-- What `credit_on_reconciliation` of backend/src/dao/user_commission_account_dao.py does to the accounts.
use gaking.Base.{ℕ, ◌≤◌, ◌≡◌, refl, ap, inl, inr, true, false, some, arith}
use gaking.Base.Int.{ℤ, pos, pos_part, neg_part, ◌≤ℤ◌, int_laws}
use gaking.Base.Table.{find, find-put_self, find-Rows, put-Rows}
use gaking.Store.Types.{Account}
use gaking.Store.Session.{Session, ok, commit, Result-cases}
use gaking.Accounts.Dao.{
  new_account, credit_on_reconciliation, credited, credit_account, get_or_create_by_user_id,
}
use gaking.Accounts.Balances.{IsSolvent, IsBalanced, OfAccounts}

credited-IsBalanced :
    (a : Account) (x : ℤ) (date : ℕ) → IsBalanced a → IsBalanced (credited a x date)
credited-IsBalanced a x date b = omega (int_laws, ap pos_part b, ap neg_part b)

credited-IsSolvent :
    (a : Account) (x : ℤ) (date : ℕ) → ¬ (x ≤ℤ pos 0) → IsSolvent a → IsSolvent (credited a x date)
credited-IsSolvent a x date p h = omega int_laws

-- A property that a new account has and that a credit keeps holds of all accounts after a call.
module _ (P : Account → Type 0) (fresh : (u : ℕ) → P (new_account u)) where
  get_or_create-OfAccounts :
      (u : ℕ) (s : Session) → OfAccounts P s → OfAccounts P (get_or_create_by_user_id u s).1
  unfolding get_or_create_by_user_id commit
  get_or_create-OfAccounts u s h =
      ground (arith, put-Rows P u (new_account u) s.working.accounts (fresh u))

  credit_account-OfAccounts :
      (u : ℕ) (x : ℤ) (date : ℕ) (a : Account) (s : Session)
      → P (credited a x date)
      → OfAccounts P s
      → OfAccounts P (credit_account u x date a s).1
  unfolding credit_account
  credit_account-OfAccounts u x date a s p h =
      ground (arith, put-Rows P u (credited a x date) s.working.accounts p)

  get_or_create_found :
      (u : ℕ) (s : Session) {a : Account}
      → (get_or_create_by_user_id u s).0 ≡ ok a
      → find u (get_or_create_by_user_id u s).1.working.accounts ≡ some a
  unfolding get_or_create_by_user_id commit
  get_or_create_found u s h = ground (arith, find-put_self u (new_account u) s.working.accounts)

  credit-OfAccounts :
      ((a : Account) (x : ℤ) (date : ℕ) → ¬ (x ≤ℤ pos 0) → P a → P (credited a x date))
      → (u : ℕ) (x : ℤ) (date : ℕ) (s : Session) → OfAccounts P s
      → OfAccounts P (credit_on_reconciliation u x date s).1
  unfolding credit_on_reconciliation
  credit-OfAccounts keep u x date s h = elim (Result-cases (get_or_create_by_user_id u s).0) [
    | inl (a, e) ↦
        let s1 = (get_or_create_by_user_id u s).1 in
        let h1 = get_or_create-OfAccounts u s h in
        let p = find-Rows P u s1.working.accounts h1.1 (get_or_create_found u s e) in
        ground (arith, h1, p, credit_account-OfAccounts u x date a s1, keep a x date)
    | inr (x, e) ↦ ground (arith, get_or_create-OfAccounts u s h)
  ]

-- No reconciliation credit overdraws an account, whatever the amount.
pub credit_on_reconciliation-IsSolvent :
    (u : ℕ) (x : ℤ) (date : ℕ) (s : Session)
    → OfAccounts IsSolvent s
    → OfAccounts IsSolvent (credit_on_reconciliation u x date s).1
credit_on_reconciliation-IsSolvent =
    credit-OfAccounts IsSolvent (λ u. omega arith) credited-IsSolvent

-- No reconciliation credit unbalances an account, whatever the amount and whichever commit fails.
pub credit_on_reconciliation-IsBalanced :
    (u : ℕ) (x : ℤ) (date : ℕ) (s : Session)
    → OfAccounts IsBalanced s
    → OfAccounts IsBalanced (credit_on_reconciliation u x date s).1
credit_on_reconciliation-IsBalanced =
    credit-OfAccounts IsBalanced (λ u. omega int_laws) (λ a x date p. credited-IsBalanced a x date)

credit_account_found :
    (u : ℕ) (x : ℤ) (date : ℕ) (a : Account) (s : Session)
    → (credit_account u x date a s).0 ≡ ok true
    → find u (credit_account u x date a s).1.working.accounts ≡ some (credited a x date)
unfolding credit_account
credit_account_found u x date a s h =
    ground (arith, find-put_self u (credited a x date) s.working.accounts)

credit_found :
    (u : ℕ) (x : ℤ) (date : ℕ) (s : Session)
    → (credit_on_reconciliation u x date s).0 ≡ ok true
    → (a : Account) × (find u (credit_on_reconciliation u x date s).1.working.accounts
        ≡ some (credited a x date))
unfolding credit_on_reconciliation
credit_found u x date s h = elim (Result-cases (get_or_create_by_user_id u s).0) [
  | inl (a, e) ↦
      (a, ground (arith, credit_account_found u x date a (get_or_create_by_user_id u s).1))
  | inr (x, e) ↦ absurd (ground arith)
]

credit_skips :
    (u : ℕ) (y : ℤ) (date earlier : ℕ) (b : Account) (s : Session)
    → find u s.working.accounts ≡ some b
    → b.last_settle_date ≡ some date
    → earlier ≤ date
    → credit_on_reconciliation u y earlier s ≡ (ok false, s)
unfolding credit_on_reconciliation get_or_create_by_user_id credit_account
credit_skips u y date earlier b s found last le = ground arith

-- Once a date is credited, a later call for that date or an earlier one changes nothing.
pub credit_on_reconciliation_once :
    (u : ℕ) (x y : ℤ) (date earlier : ℕ) (s : Session)
    → (credit_on_reconciliation u x date s).0 ≡ ok true
    → earlier ≤ date
    → let s' = (credit_on_reconciliation u x date s).1 in
      credit_on_reconciliation u y earlier s' ≡ (ok false, s')
credit_on_reconciliation_once u x y date earlier s h le =
    let (a, found) = credit_found u x date s h in
    credit_skips u y date earlier (credited a x date) (credit_on_reconciliation u x date s).1 found
      refl le
