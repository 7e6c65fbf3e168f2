-- ===== src/Funds/Settlements.antt =====
-- The freezes, releases, credits and deductions of backend/src/dao/settlement_atomic_dao.py and
-- backend/src/dao/commission_settlement_dao.py keep every user's frozen balance covered.
use gaking.Base.{ℕ, ◌≡◌, ap, ◌∙◌, sym, some}
use gaking.Base.Int.{ℤ}
use gaking.Base.Table.{find}
use gaking.Store.Types.{Order, CommissionFlow, SettlementRecord}
use gaking.Store.Session.{Session}
use gaking.Settlement.Machine.{settlable, value}
use gaking.Settlement.Atomic.{
  freeze_atomic, unfreeze_atomic, settle_order_commission_atomic, deduct_on_refund_atomic,
}
use gaking.Funds.Cover.{IsFunded, frozen_of}
use gaking.Funds.Keeps.{Both}
use gaking.Funds.Holds.{same_frozen-IsFunded, frozen_tables-IsFunded, released_tables-IsFunded}
use Prim.Native.String.{String}
use gaking.Funds.Transactions.{
  flushed-IsFunded, freeze_atomic-Both, unfreeze_atomic-Both, settle_atomic-Both,
  deduct_on_refund-Both, Indifferent,
}

-- A freeze keeps every user's frozen balance covered, also where it raises.
pub freeze_atomic-IsFunded :
    (u i : ℕ) (o : Order) (x y : ℤ) (number : String) (days now : ℕ) (s : Session)
    → Both (IsFunded u) s
    → Both (IsFunded u) (freeze_atomic i o x y number days now s).1
freeze_atomic-IsFunded u i o x y number days now s h =
    freeze_atomic-Both (IsFunded u) i o x y number days now s
      (λ missing. flushed-IsFunded u o.user_id s.working missing h.1)
      (λ a t p found fund.
        frozen_tables-IsFunded u i o x y number days now a t p (ap frozen_of found) fund)
      h

-- The release of a stored record that is SETTLABLE keeps every user's frozen balance covered, also
-- where it raises.
pub unfreeze_atomic-IsFunded :
    (u k : ℕ) (st : SettlementRecord) (now : ℕ) (s : Session)
    → find k s.working.settlements ≡ some st
    → st.settlement_status ≡ value settlable
    → Both (IsFunded u) s
    → Both (IsFunded u) (unfreeze_atomic k st now s).1
unfreeze_atomic-IsFunded u k st now s stored at_settlable h =
    unfreeze_atomic-Both (IsFunded u) k st now s
      (λ missing. flushed-IsFunded u st.user_id s.working missing h.1)
      (λ a i f t same found fund.
        released_tables-IsFunded u k st now i f a t (ap (find k) same ∙ stored) at_settlable
          (ap frozen_of found) fund)
      h

IsFunded-Indifferent : (u : ℕ) → Indifferent (IsFunded u)
IsFunded-Indifferent u v a b t flows n found same h =
    (h, same_frozen-IsFunded u v b t (ap frozen_of found ∙ sym same) h)

-- A credit for an order keeps every user's frozen balance covered, also where it raises.
pub settle_order_commission_atomic-IsFunded :
    (u i : ℕ) (o : Order) (x : ℤ) (batch : String) (s : Session)
    → Both (IsFunded u) s
    → Both (IsFunded u) (settle_order_commission_atomic i o x batch s).1
settle_order_commission_atomic-IsFunded u i o x batch s h =
    settle_atomic-Both (IsFunded u) i o x batch s
      (λ missing. flushed-IsFunded u o.user_id s.working missing h.1) (IsFunded-Indifferent u) h

-- A refund, of a flow pending or arrived, keeps every user's frozen balance covered, also where it raises.
pub deduct_on_refund_atomic-IsFunded :
    (u i : ℕ) (o : Order) (k : ℕ) (f : CommissionFlow) (s : Session)
    → Both (IsFunded u) s
    → Both (IsFunded u) (deduct_on_refund_atomic i o k f s).1
deduct_on_refund_atomic-IsFunded u i o k f s h =
    deduct_on_refund-Both (IsFunded u) i o k f s
      (λ missing. flushed-IsFunded u o.user_id s.working missing h.1) (λ flows. h.1)
      (IsFunded-Indifferent u) h
