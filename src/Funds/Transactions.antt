-- ===== src/Funds/Transactions.antt =====
-- A property of the tables goes through the transactions of backend/src/dao/settlement_atomic_dao.py and
-- backend/src/dao/commission_settlement_dao.py.
use gaking.Base.{ℕ, suc, ◌≡◌, refl, ap, inl, inr, none, some, arith, Option-cases, Bool-cases}
use gaking.Base.Int.{ℤ, pos, ◌≤ℤ◌, leb_ℤ}
use gaking.Base.Table.{Table, find, put, find-put_self}
use gaking.Store.Types.{Account, Order, CommissionFlow, SettlementRecord, TransferStatus}
use gaking.Store.Session.{Tables, Session}
use gaking.Accounts.Dao.{new_account}
use gaking.Settlement.Atomic.{
  freeze_atomic, unfreeze_atomic, settle_order_commission_atomic, deduct_on_refund_atomic,
  deduct_pending, deduct_arrived, earned, deducted, order_flow, deduct_flow, is_pending_transfer,
}
use gaking.Settlement.RoundTrip.{frozen_tables, released_tables}
use gaking.Funds.Cover.{IsFunded, frozen_of}
use gaking.Funds.Keeps.{Both, with_account}
use gaking.Funds.Holds.{same_frozen-IsFunded}
use Prim.Native.String.{String}

-- the tables once a missing account has been flushed
abbrev pub flushed : ℕ → Tables → Tables
flushed v t = with_account v (new_account v) t

flushed-found : (v : ℕ) (t : Tables) → find v (flushed v t).accounts ≡ some (new_account v)
flushed-found v t = find-put_self v (new_account v) t.accounts

pub flushed-IsFunded :
    (u v : ℕ) (t : Tables) → find v t.accounts ≡ none → IsFunded u t → IsFunded u (flushed v t)
flushed-IsFunded u v t missing h =
    same_frozen-IsFunded u v (new_account v) t (ap frozen_of missing) h

module _ (P : Tables → Type 0) where
  pub freeze_atomic-Both :
      (i : ℕ) (o : Order) (x y : ℤ) (number : String) (days now : ℕ) (s : Session)
      → (find o.user_id s.working.accounts ≡ none → P (flushed o.user_id s.working))
      → ((a : Account) (t : Tables)
          → pos 0 ≤ℤ x
          → find o.user_id t.accounts ≡ some a
          → P t
          → P (frozen_tables i o x y number days now a t))
      → Both P s
      → Both P (freeze_atomic i o x y number days now s).1
  unfolding freeze_atomic
  freeze_atomic-Both i o x y number days now s new keep h =
      elim (Option-cases (find o.user_id s.working.accounts)) [
        | inl missing ↦ elim (Bool-cases (leb_ℤ x (pos 0))) [
          | inl low ↦ ground arith
          | inr high ↦ ground (
            arith,
            missing,
            keep (new_account o.user_id) (flushed o.user_id s.working) (ground arith)
                (flushed-found o.user_id s.working) (new missing),
          )
        ]
        | inr (a, found) ↦ elim (Bool-cases (leb_ℤ x (pos 0))) [
          | inl low ↦ ground arith
          | inr high ↦ ground (arith, found, keep a s.working (ground arith) found h.1)
        ]
      ]

  pub unfreeze_atomic-Both :
      (k : ℕ) (st : SettlementRecord) (now : ℕ) (s : Session)
      → (find st.user_id s.working.accounts ≡ none → P (flushed st.user_id s.working))
      → ((a : Account) (i : ℕ) (f : CommissionFlow) (t : Tables)
          → t.settlements ≡ s.working.settlements
          → find st.user_id t.accounts ≡ some a
          → P t
          → P (released_tables k st now i f a t))
      → Both P s
      → Both P (unfreeze_atomic k st now s).1
  unfolding unfreeze_atomic
  unfreeze_atomic-Both k st now s new keep h = elim (Option-cases st.flow_id) [
    | inl absent ↦ elim (Option-cases (find st.user_id s.working.accounts)) [
      | inl missing ↦ ground (arith, missing, new missing)
      | inr (a, found) ↦ ground arith
    ]
    | inr (i, flow) ↦ elim (Option-cases (find i s.working.flows)) [
      | inl gone ↦ elim (Option-cases (find st.user_id s.working.accounts)) [
        | inl missing ↦ ground (arith, missing, new missing, flow, gone)
        | inr (a, found) ↦ ground arith
      ]
      | inr (f, there) ↦ elim (Option-cases (find st.user_id s.working.accounts)) [
        | inl missing ↦ ground (
          arith,
          missing,
          new missing,
          flow,
          there,
          keep (new_account st.user_id) i f (flushed st.user_id s.working) refl
              (flushed-found st.user_id s.working) (new missing),
        )
        | inr (a, found) ↦ ground (arith, found, flow, there, keep a i f s.working refl found h.1)
      ]
    ]
  ]

  -- A property that looks at no flow, and at the frozen balance alone of an account.
  abbrev pub Indifferent : Type 0
  Indifferent =
      (v : ℕ) (a b : Account) (t : Tables) (flows : Table CommissionFlow) (n : ℕ)
      → find v t.accounts ≡ some a
      → b.frozen_balance ≡ a.frozen_balance
      → P t
      → P (record t { flows = flows; next_flow = n })
        × P (record t { flows = flows; next_flow = n; accounts = put v b t.accounts })

  pub settle_atomic-Both :
      (i : ℕ) (o : Order) (x : ℤ) (batch : String) (s : Session)
      → (find o.user_id s.working.accounts ≡ none → P (flushed o.user_id s.working))
      → Indifferent
      → Both P s
      → Both P (settle_order_commission_atomic i o x batch s).1
  unfolding settle_order_commission_atomic
  settle_atomic-Both i o x batch s new keep h =
      elim (Option-cases (find o.user_id s.working.accounts)) [
        | inl missing ↦
            let b = new_account o.user_id in
            let t = flushed o.user_id s.working in
            ground (
              arith,
              missing,
              (keep o.user_id b (earned b x) t
                  (put t.next_flow (order_flow i o x b.available_balance batch) t.flows)
                  (suc t.next_flow) (flushed-found o.user_id s.working) refl (new missing)).1,
            )
        | inr (b, found) ↦
            let t = s.working in
            ground (
              arith,
              found,
              (keep o.user_id b (earned b x) t
                  (put t.next_flow (order_flow i o x b.available_balance batch) t.flows)
                  (suc t.next_flow) found refl h.1).1,
            )
      ]

  deduct_arrived-Both :
      (i : ℕ) (o : Order) (x : ℤ) (s : Session)
      → (find o.user_id s.working.accounts ≡ none → P (flushed o.user_id s.working))
      → Indifferent
      → Both P s
      → Both P (deduct_arrived i o x s).1
  unfolding deduct_arrived
  deduct_arrived-Both i o x s new keep h = elim (Option-cases (find o.user_id s.working.accounts)) [
    | inl missing ↦
        let b = new_account o.user_id in
        let t = flushed o.user_id s.working in
        ground (
          arith,
          missing,
          new missing,
          (keep o.user_id b (deducted b x) t
              (put t.next_flow (deduct_flow i o x b.available_balance) t.flows) (suc t.next_flow)
              (flushed-found o.user_id s.working) refl (new missing)).1,
        )
    | inr (b, found) ↦
        let t = s.working in
        ground (
          arith,
          found,
          (keep o.user_id b (deducted b x) t
              (put t.next_flow (deduct_flow i o x b.available_balance) t.flows) (suc t.next_flow)
              found refl h.1).1,
        )
  ]

  deduct_pending-Both :
      (k : ℕ) (f : CommissionFlow) (o : Order) (s : Session)
      → ((flows : Table CommissionFlow) → P (record s.working { flows = flows }))
      → Both P s
      → Both P (deduct_pending k f o s).1
  unfolding deduct_pending
  deduct_pending-Both k f o s keep h =
      ground
        (arith, keep (put k (record f { transfer_status = TransferStatus.failed }) s.working.flows))

  pub deduct_on_refund-Both :
      (i : ℕ) (o : Order) (k : ℕ) (f : CommissionFlow) (s : Session)
      → (find o.user_id s.working.accounts ≡ none → P (flushed o.user_id s.working))
      → ((flows : Table CommissionFlow) → P (record s.working { flows = flows }))
      → Indifferent
      → Both P s
      → Both P (deduct_on_refund_atomic i o k f s).1
  unfolding deduct_on_refund_atomic
  deduct_on_refund-Both i o k f s new flows keep h =
      elim (Bool-cases (is_pending_transfer f.transfer_status)) [
        | inl pends ↦ rw pends (deduct_pending-Both k f o s flows h)
        | inr arrived ↦ rw arrived (deduct_arrived-Both i o f.amount s new keep h)
      ]
