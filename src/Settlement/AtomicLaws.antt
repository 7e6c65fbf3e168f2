-- ===== src/Settlement/AtomicLaws.antt =====
-- The single-transaction methods of backend/src/dao/settlement_atomic_dao.py and
-- backend/src/dao/commission_settlement_dao.py: all or nothing, and what they keep of the balances.
use gaking.Base.{ℕ, ◌≡◌, ap, inl, inr, arith, Option-cases}
use gaking.Base.Int.{ℤ, pos, pos_part, neg_part, ◌≤ℤ◌, ◌-ℤ◌, int_laws}
use gaking.Base.Table.{find, put, put-Rows, find-Rows}
use gaking.Store.Types.{Account, Order, CommissionFlow, SettlementRecord}
use gaking.Store.Session.{Session, Error, err}
use gaking.Accounts.Dao.{new_account}
use gaking.Accounts.Balances.{IsSolvent, IsBalanced, OfAccounts}
use gaking.Settlement.Atomic.{
  freeze_atomic, unfreeze_atomic, settle_order_commission_atomic, deduct_on_refund_atomic,
  frozen_more, unfrozen, earned, deducted, deduct_pending, deduct_arrived,
}
use Prim.Native.String.{String}

-- Neither balance is overdrawn, and the four parts add up to the total.
abbrev pub IsSound : Account → Type 0
IsSound a = IsSolvent a × IsBalanced a

new_account-IsSound : (u : ℕ) → IsSound (new_account u)
new_account-IsSound u = (omega arith, omega int_laws)

frozen_more-IsSound : (a : Account) (x : ℤ) → ¬ (x ≤ℤ pos 0) → IsSound a → IsSound (frozen_more a x)
frozen_more-IsSound a x p h = (omega int_laws, omega (int_laws, ap pos_part h.1, ap neg_part h.1))

earned-IsSound : (a : Account) (x : ℤ) → ¬ (x ≤ℤ pos 0) → IsSound a → IsSound (earned a x)
earned-IsSound a x p h = (omega int_laws, omega (int_laws, ap pos_part h.1, ap neg_part h.1))

unfrozen-IsSound :
    (a : Account) (x : ℤ) → pos 0 ≤ℤ x → x ≤ℤ a.frozen_balance → IsSound a → IsSound (unfrozen a x)
unfrozen-IsSound a x p q h = (omega int_laws, omega (int_laws, ap pos_part h.1, ap neg_part h.1))

deducted-IsSound :
    (a : Account) (x : ℤ) → pos 0 ≤ℤ a.available_balance -ℤ x → IsSound a → IsSound (deducted a x)
deducted-IsSound a x q h = (omega int_laws, omega (int_laws, ap pos_part h.1, ap neg_part h.1))

-- A freeze, raising or not, keeps every account sound.
pub freeze_atomic-IsSound :
    (i : ℕ) (o : Order) (x y : ℤ) (number : String) (days now : ℕ) (s : Session)
    → OfAccounts IsSound s
    → OfAccounts IsSound (freeze_atomic i o x y number days now s).1
unfolding freeze_atomic
freeze_atomic-IsSound i o x y number days now s h =
    elim (Option-cases (find o.user_id s.working.accounts)) [
      | inl missing ↦ ground (
        arith,
        put-Rows IsSound o.user_id (frozen_more (new_account o.user_id) x)
            (put o.user_id (new_account o.user_id) s.working.accounts),
        put-Rows IsSound o.user_id (new_account o.user_id) s.working.accounts
            (new_account-IsSound o.user_id) h.1,
        frozen_more-IsSound (new_account o.user_id) x,
        new_account-IsSound o.user_id,
      )
      | inr (a, found) ↦ ground (
        arith,
        put-Rows IsSound o.user_id (frozen_more a x) s.working.accounts,
        frozen_more-IsSound a x,
        find-Rows IsSound o.user_id s.working.accounts h.1 found,
      )
    ]

-- A freeze that raises has changed nothing in the database.
pub freeze_atomic_failed :
    (i : ℕ) (o : Order) (x y : ℤ) (number : String) (days now : ℕ) (s : Session) {e : Error}
    → (freeze_atomic i o x y number days now s).0 ≡ err e
    → (freeze_atomic i o x y number days now s).1.committed ≡ s.committed
unfolding freeze_atomic
freeze_atomic_failed i o x y number days now s h = ground arith

-- A release, raising or not, keeps every account sound, unless the record's amount is negative.
pub unfreeze_atomic-IsSound :
    (k : ℕ) (st : SettlementRecord) (now : ℕ) (s : Session)
    → pos 0 ≤ℤ st.user_commission
    → OfAccounts IsSound s
    → OfAccounts IsSound (unfreeze_atomic k st now s).1
unfolding unfreeze_atomic
unfreeze_atomic-IsSound k st now s p h = elim (Option-cases (find st.user_id s.working.accounts)) [
  | inl missing ↦ ground (
    arith,
    put-Rows IsSound st.user_id (unfrozen (new_account st.user_id) st.user_commission)
        (put st.user_id (new_account st.user_id) s.working.accounts),
    put-Rows IsSound st.user_id (new_account st.user_id) s.working.accounts
        (new_account-IsSound st.user_id) h.1,
    unfrozen-IsSound (new_account st.user_id) st.user_commission p,
    new_account-IsSound st.user_id,
  )
  | inr (a, found) ↦ ground (
    arith,
    put-Rows IsSound st.user_id (unfrozen a st.user_commission) s.working.accounts,
    unfrozen-IsSound a st.user_commission p,
    find-Rows IsSound st.user_id s.working.accounts h.1 found,
  )
]

-- A settlement that raises has changed nothing in the database.
pub unfreeze_atomic_failed :
    (k : ℕ) (st : SettlementRecord) (now : ℕ) (s : Session) {e : Error}
    → (unfreeze_atomic k st now s).0 ≡ err e
    → (unfreeze_atomic k st now s).1.committed ≡ s.committed
unfolding unfreeze_atomic
unfreeze_atomic_failed k st now s h = ground arith

-- A credit for an order, raising or not, keeps every account sound.
pub settle_order_commission_atomic-IsSound :
    (i : ℕ) (o : Order) (x : ℤ) (batch : String) (s : Session)
    → OfAccounts IsSound s
    → OfAccounts IsSound (settle_order_commission_atomic i o x batch s).1
unfolding settle_order_commission_atomic
settle_order_commission_atomic-IsSound i o x batch s h =
    elim (Option-cases (find o.user_id s.working.accounts)) [
      | inl missing ↦ ground (
        arith,
        put-Rows IsSound o.user_id (earned (new_account o.user_id) x)
            (put o.user_id (new_account o.user_id) s.working.accounts),
        put-Rows IsSound o.user_id (new_account o.user_id) s.working.accounts
            (new_account-IsSound o.user_id) h.1,
        earned-IsSound (new_account o.user_id) x,
        new_account-IsSound o.user_id,
      )
      | inr (a, found) ↦ ground (
        arith,
        put-Rows IsSound o.user_id (earned a x) s.working.accounts,
        earned-IsSound a x,
        find-Rows IsSound o.user_id s.working.accounts h.1 found,
      )
    ]

-- A refund, raising or not, keeps every account sound.
pub deduct_on_refund_atomic-IsSound :
    (i : ℕ) (o : Order) (k : ℕ) (f : CommissionFlow) (s : Session)
    → OfAccounts IsSound s
    → OfAccounts IsSound (deduct_on_refund_atomic i o k f s).1
unfolding deduct_on_refund_atomic deduct_pending deduct_arrived
deduct_on_refund_atomic-IsSound i o k f s h =
    elim (Option-cases (find o.user_id s.working.accounts)) [
      | inl missing ↦ ground (
        arith,
        put-Rows IsSound o.user_id (deducted (new_account o.user_id) f.amount)
            (put o.user_id (new_account o.user_id) s.working.accounts),
        put-Rows IsSound o.user_id (new_account o.user_id) s.working.accounts
            (new_account-IsSound o.user_id) h.1,
        deducted-IsSound (new_account o.user_id) f.amount,
        new_account-IsSound o.user_id,
      )
      | inr (a, found) ↦ ground (
        arith,
        put-Rows IsSound o.user_id (deducted a f.amount) s.working.accounts,
        deducted-IsSound a f.amount,
        find-Rows IsSound o.user_id s.working.accounts h.1 found,
      )
    ]
