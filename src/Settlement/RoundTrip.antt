-- ===== src/Settlement/RoundTrip.antt =====
-- The exact effects of freeze_atomic and unfreeze_atomic of backend/src/dao/settlement_atomic_dao.py, and
-- what the two do one after the other.
use gaking.Base.{
  ℕ, ◌≡◌, refl, ap, sym, ◌∙◌, subst, Option, none, some, [], arith, suc, inl, inr, Option-cases,
}
use gaking.Base.Int.{ℤ, pos, ◌≤ℤ◌, int_laws}
use gaking.Base.Table.{find, put, find-put_self}
use gaking.Store.Types.{Account, Order, CommissionFlow, SettlementRecord}
use gaking.Store.Session.{Session, Tables, ok}
use gaking.Accounts.Dao.{new_account}
use gaking.Settlement.Atomic.{
  freeze_atomic, unfreeze_atomic, frozen_more, unfrozen, new_settlement, frozen_flow, arrived_flow,
  settled_record,
}
use Prim.Native.String.{String}

-- The tables after a freeze of a user who has an account.
abbrev pub frozen_tables : ℕ → Order → ℤ → ℤ → String → ℕ → ℕ → Account → Tables → Tables
frozen_tables i o x y number days now a t = record t {
  settlements =
      put t.next_settlement (new_settlement i o x y number days t.next_flow now) t.settlements;
  next_settlement = suc t.next_settlement;
  flows = put t.next_flow (frozen_flow i o x a.available_balance number) t.flows;
  next_flow = suc t.next_flow;
  accounts = put o.user_id (frozen_more a x) t.accounts;
}

-- A freeze that returns has added a settlement record and a flow that refer to each other, raised
-- the frozen balance and the total, and committed all of it at once.
pub freeze_atomic_done :
    (i : ℕ) (o : Order) (x y : ℤ) (number : String) (days now : ℕ) (s : Session) {a : Account}
    {ids : ℕ × ℕ}
    → find o.user_id s.working.accounts ≡ some a
    → (freeze_atomic i o x y number days now s).0 ≡ ok ids
    → let s1 = (freeze_atomic i o x y number days now s).1 in
      (ids ≡ (s.working.next_settlement, s.working.next_flow))
      × (s1.committed ≡ s1.working)
      × (s1.working ≡ frozen_tables i o x y number days now a s.working)
      × ¬ (x ≤ℤ pos 0)
unfolding freeze_atomic
freeze_atomic_done i o x y number days now s found h = ground arith

freeze_atomic_faults :
    (i : ℕ) (o : Order) (x y : ℤ) (number : String) (days now : ℕ) (s : Session)
    → s.faults ≡ []
    → (freeze_atomic i o x y number days now s).1.faults ≡ []
unfolding freeze_atomic
freeze_atomic_faults i o x y number days now s fine = ground arith

-- The tables after a release.
abbrev pub released_tables :
    ℕ → SettlementRecord → ℕ → ℕ → CommissionFlow → Account → Tables → Tables
released_tables k st now i f a t = record t {
  accounts = put st.user_id (unfrozen a st.user_commission) t.accounts;
  flows = put i (arrived_flow f a.available_balance st.user_commission) t.flows;
  settlements = put k (settled_record st now) t.settlements;
}

-- A release whose flow is there and whose amount is frozen succeeds, if the commit does.
pub unfreeze_atomic_done :
    (k : ℕ) (st : SettlementRecord) (now : ℕ) (s : Session) {a : Account} {i : ℕ}
    {f : CommissionFlow}
    → find st.user_id s.working.accounts ≡ some a
    → st.flow_id ≡ some i
    → find i s.working.flows ≡ some f
    → st.user_commission ≤ℤ a.frozen_balance
    → s.faults ≡ []
    → let (r, s') = unfreeze_atomic k st now s in
      (r ≡ ok (settled_record st now, i))
      × (s'.committed ≡ s'.working)
      × (s'.working ≡ released_tables k st now i f a s.working)
unfolding unfreeze_atomic
unfreeze_atomic_done k st now s found flow there enough fine = ground arith

-- The account that a freeze finds, or makes.
unfoldable pub account_or_new : ℕ → Option Account → Account
account_or_new u none = new_account u
account_or_new u (some a) = a

-- What the release of the record `k` with the flow `f` does in a session.
abbrev Released : ℕ → Order → ℤ → ℤ → String → ℕ → ℕ → ℕ → Account → ℕ → ℕ → Session → Type 0
Released i o x y number days now later a k f s1 =
    let st = new_settlement i o x y number days f now in
    let s2 = (unfreeze_atomic k st later s1).1 in
    ((unfreeze_atomic k st later s1).0 ≡ ok (settled_record st later, f))
    × (find o.user_id s2.committed.accounts ≡ some (unfrozen (frozen_more a x) x))
    × (find k s2.committed.settlements ≡ some (settled_record st later))

-- The release after the freeze of a user who has an account.
unfreeze-freeze_known :
    (i : ℕ) (o : Order) (x y : ℤ) (number : String) (days now later : ℕ) (s : Session) {a : Account}
    {k f : ℕ}
    → find o.user_id s.working.accounts ≡ some a
    → pos 0 ≤ℤ a.frozen_balance
    → s.faults ≡ []
    → (freeze_atomic i o x y number days now s).0 ≡ ok (k, f)
    → Released i o x y number days now later a k f (freeze_atomic i o x y number days now s).1
unfolding new_settlement
unfreeze-freeze_known i o x y number days now later s {a = a} {k = k} {f = f} found sound fine h =
    let t = frozen_tables i o x y number days now a s.working in
    let s1 = (freeze_atomic i o x y number days now s).1 in
    let st = new_settlement i o x y number days f now in
    let (ids, same, work, p) = freeze_atomic_done i o x y number days now s found h in
    let done =
      unfreeze_atomic_done k st later s1 {a = frozen_more a x} {i = f}
        {f = frozen_flow i o x a.available_balance number}
        (ap (λ w. find o.user_id w.accounts) work
          ∙ find-put_self o.user_id (frozen_more a x) s.working.accounts)
        refl
        (ap (λ w. find f w.flows) work
          ∙ subst
              (λ j.
                find j (
                  put s.working.next_flow (frozen_flow i o x a.available_balance number)
                    s.working.flows)
                ≡ some (frozen_flow i o x a.available_balance number))
              (sym (ap (λ r. r.1) ids))
              (find-put_self s.working.next_flow (frozen_flow i o x a.available_balance number)
                s.working.flows))
        (omega int_laws) (freeze_atomic_faults i o x y number days now s fine) in
    let end = done.1 ∙ done.2 in
    (
      done.0,
      ap (λ w. find o.user_id w.accounts) end
          ∙ find-put_self o.user_id (unfrozen (frozen_more a x) x) s1.working.accounts,
      ap (λ w. find k w.settlements) end
          ∙ find-put_self k (settled_record st later) s1.working.settlements,
    )

-- The session with the account that a first freeze makes.
abbrev with_new_account : ℕ → Session → Session
with_new_account u s = record s {
  working = record s.working { accounts = put u (new_account u) s.working.accounts };
}

-- A first freeze that returns does what it would do with that account there.
freeze_atomic_first :
    (i : ℕ) (o : Order) (x y : ℤ) (number : String) (days now : ℕ) (s : Session) {ids : ℕ × ℕ}
    → find o.user_id s.working.accounts ≡ none
    → s.faults ≡ []
    → (freeze_atomic i o x y number days now s).0 ≡ ok ids
    → freeze_atomic i o x y number days now s
      ≡ freeze_atomic i o x y number days now (with_new_account o.user_id s)
unfolding freeze_atomic
freeze_atomic_first i o x y number days now s missing fine h =
    ground
      (arith, missing, fine, find-put_self o.user_id (new_account o.user_id) s.working.accounts)

-- Where no commit fails, a freeze that returns can be released, the first one of a user too, which makes
-- the account: if the account that the freeze finds or makes has no negative frozen balance, then the
-- release of the new record returns, and it is committed that the amount has moved to the available
-- balance and that the record is SETTLED.
pub unfreeze-freeze :
    (i : ℕ) (o : Order) (x y : ℤ) (number : String) (days now later : ℕ) (s : Session) {k f : ℕ}
    → pos 0 ≤ℤ (account_or_new o.user_id (find o.user_id s.working.accounts)).frozen_balance
    → s.faults ≡ []
    → (freeze_atomic i o x y number days now s).0 ≡ ok (k, f)
    → let a = account_or_new o.user_id (find o.user_id s.working.accounts) in
      let s1 = (freeze_atomic i o x y number days now s).1 in
      let st = new_settlement i o x y number days f now in
      let s2 = (unfreeze_atomic k st later s1).1 in
      ((unfreeze_atomic k st later s1).0 ≡ ok (settled_record st later, f))
      × (find o.user_id s2.committed.accounts ≡ some (unfrozen (frozen_more a x) x))
      × (find k s2.committed.settlements ≡ some (settled_record st later))
unfolding account_or_new
unfreeze-freeze i o x y number days now later s {k = k} {f = f} sound fine h =
    elim (Option-cases (find o.user_id s.working.accounts)) [
      | inr (a, found) ↦ rw found (
          unfreeze-freeze_known i o x y number days now later s {a = a} {k = k} {f = f} found
            (rw found at sound) fine h)
      | inl missing ↦
          let u = o.user_id in
          let s' = with_new_account u s in
          let same = freeze_atomic_first i o x y number days now s missing fine h in
          rw missing (
            subst (λ (p : Session). Released i o x y number days now later (new_account u) k f p)
              (sym (ap (λ p. p.1) same))
              (unfreeze-freeze_known i o x y number days now later s' {a = new_account u} {k = k}
                {f = f} (find-put_self u (new_account u) s.working.accounts) (omega int_laws) fine
                (sym (ap (λ p. p.0) same) ∙ h)))
    ]
