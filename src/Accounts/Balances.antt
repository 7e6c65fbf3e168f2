-- ===== src/Accounts/Balances.antt =====
-- What the DAO of backend/src/dao/user_commission_account_dao.py does to the balances.
use gaking.Base.{ℕ, ◌≡◌, refl, ap, ◌⊎◌, inl, inr, some, List, [], ◌∷◌, map, arith, Option-cases}
use gaking.Base.Int.{pos, pos_part, neg_part, ◌+ℤ◌, ◌≤ℤ◌, int_laws}
use gaking.Base.Table.{find, put, Rows, find-Rows, put-Rows}
use gaking.Store.Types.{Account}
use gaking.Store.Session.{Session, Error, ok, err}
use gaking.Accounts.Dao.{
  Deltas, adjusted, adjust_balance, BatchItem, adjust_balance_batch, new_available,
}

-- Neither balance is overdrawn.
abbrev pub IsSolvent : Account → Type 0
IsSolvent a = (pos 0 ≤ℤ a.available_balance) × (pos 0 ≤ℤ a.frozen_balance)

-- Every cent that was ever credited is available, frozen, paid out or taken as a fee.
abbrev pub IsBalanced : Account → Type 0
IsBalanced a =
    a.available_balance +ℤ a.frozen_balance +ℤ a.cumulative_withdrawn +ℤ a.cumulative_fee
    ≡ a.total_balance

-- A call that raises has committed nothing. What the session sees is then what it saw before, or,
-- after a failed commit, what the database holds; the cache is as before.
pub adjust_balance_failed :
    (u : ℕ) (d : Deltas) (s : Session) {e : Error}
    → (adjust_balance u d s).0 ≡ err e
    → let s' = (adjust_balance u d s).1 in
      (s'.committed ≡ s.committed)
      × ((s'.working ≡ s.working) ⊎ (s'.working ≡ s.committed))
      × (s'.cache ≡ s.cache)
unfolding adjust_balance
adjust_balance_failed u d s h = ground arith

-- A call that returns has added the deltas to the user's row, of which neither balance is then
-- negative; that row alone is rewritten, and the change is committed.
pub adjust_balance_done :
    (u : ℕ) (d : Deltas) (s : Session) {a a' : Account}
    → find u s.working.accounts ≡ some a
    → (adjust_balance u d s).0 ≡ ok a'
    → let s' = (adjust_balance u d s).1 in
      (a' ≡ adjusted a d)
      × IsSolvent a'
      × (s'.committed ≡ s'.working)
      × (s'.working ≡ record s.working { accounts = put u a' s.working.accounts })
unfolding adjust_balance
adjust_balance_done u d s found h = ground arith

-- A property of the accounts, of what the session sees and of what the database holds.
abbrev pub OfAccounts : (Account → Type 0) → Session → Type 0
OfAccounts P s = Rows P s.committed.accounts × Rows P s.working.accounts

-- No call, whatever its deltas and also where the commit fails, overdraws an account.
pub adjust_balance-IsSolvent :
    (u : ℕ) (d : Deltas) (s : Session)
    → OfAccounts IsSolvent s
    → OfAccounts IsSolvent (adjust_balance u d s).1
unfolding adjust_balance
adjust_balance-IsSolvent u d s h = elim (Option-cases (find u s.working.accounts)) [
  | inl missing ↦ ground arith
  | inr (a, found) ↦ ground (arith, put-Rows IsSolvent u (adjusted a d) s.working.accounts)
]

-- The deltas move money between the balances, and change the total by what comes in.
abbrev pub IsNeutral : Deltas → Type 0
IsNeutral d = d.available +ℤ d.frozen +ℤ d.withdrawn +ℤ d.fee ≡ d.total

adjusted-IsBalanced :
    (a : Account) (d : Deltas) → IsNeutral d → IsBalanced a → IsBalanced (adjusted a d)
adjusted-IsBalanced a d n b =
    omega (int_laws, ap pos_part n, ap neg_part n, ap pos_part b, ap neg_part b)

-- A call with neutral deltas keeps every account balanced, also where it raises.
pub adjust_balance-IsBalanced :
    (u : ℕ) (d : Deltas) (s : Session)
    → IsNeutral d
    → OfAccounts IsBalanced s
    → OfAccounts IsBalanced (adjust_balance u d s).1
unfolding adjust_balance
adjust_balance-IsBalanced u d s n h = elim (Option-cases (find u s.working.accounts)) [
  | inl missing ↦ ground arith
  | inr (a, found) ↦ ground (
    arith,
    put-Rows IsBalanced u (adjusted a d) s.working.accounts
        (adjusted-IsBalanced a d n (find-Rows IsBalanced u s.working.accounts h.1 found)),
  )
]

-- A batch overdraws no account, whatever the items and whichever commits fail.
pub adjust_balance_batch-IsSolvent :
    (items : List (ℕ × Deltas)) (s : Session)
    → OfAccounts IsSolvent s
    → OfAccounts IsSolvent (adjust_balance_batch items s).1
unfolding adjust_balance_batch
adjust_balance_batch-IsSolvent [] s h = h
adjust_balance_batch-IsSolvent ((u, d) ∷ rest) s h = ground (
  arith,
  adjust_balance-IsSolvent u d s h,
  adjust_balance_batch-IsSolvent rest (adjust_balance u d s).1,
)

abbrev pub users : List (ℕ × Deltas) → List ℕ
users [] = []
users ((u, d) ∷ rest) = u ∷ users rest

abbrev pub reported : List BatchItem → List ℕ
reported = map (λ i. i.user_id)

-- A batch never raises, and reports one outcome for each item, in the order given.
pub adjust_balance_batch-reports :
    (items : List (ℕ × Deltas)) (s : Session)
    → (results : List BatchItem) × ((adjust_balance_batch items s).0 ≡ ok results)
      × (reported results ≡ users items)
unfolding adjust_balance_batch
adjust_balance_batch-reports [] s = ([], refl, refl)
adjust_balance_batch-reports ((u, d) ∷ rest) s =
    let (results, e, same) = adjust_balance_batch-reports rest (adjust_balance u d s).1 in
    (
      record { user_id = u; outcome = new_available (adjust_balance u d s).0 } ∷ results,
      ground arith,
      ap (λ us. u ∷ us) same,
    )
