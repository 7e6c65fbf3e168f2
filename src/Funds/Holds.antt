-- ===== src/Funds/Holds.antt =====
-- What the methods of backend/src/dao/settlement_atomic_dao.py and
-- backend/src/dao/commission_settlement_dao.py do to the commissions held in a frozen balance.
use gaking.Base.{ℕ, suc, ◌≡◌, refl, ap, inl, inr, true, false, some, ◌==◌, arith, Bool-cases}
use gaking.Base.Int.{ℤ, pos, ◌≤ℤ◌, int_laws, pos_part, neg_part}
use gaking.Base.Table.{
  find, sum_by-put, sum_by-put_new, find-KeysBelow, put-KeysBelow, KeysBelow-suc, find-Rows,
  put-Rows, find_below,
}
use gaking.Store.Types.{Account, Order, CommissionFlow, SettlementRecord}
use gaking.Store.Session.{Tables}
use gaking.Settlement.Machine.{settlable, value}
use gaking.Settlement.Atomic.{frozen_more, unfrozen, new_settlement, settled_record}
use gaking.Settlement.RoundTrip.{frozen_tables, released_tables}
use gaking.Funds.Cover.{
  hold, frozen_of, IsFunded, IsHeld, IsCovered, frozen-put_own, frozen-put_other, frozen-found_row,
}
use gaking.Funds.Keeps.{with_account}
use Prim.Native.String.{String}

hold-own :
    (u : ℕ) (st : SettlementRecord)
    → (st.user_id == u) ≡ true
    → st.settlement_status ≡ value settlable
    → hold u st ≡ st.user_commission
unfolding hold
hold-own u st own at_settlable = ground (arith, own, at_settlable)

hold-other : (u : ℕ) (st : SettlementRecord) → (st.user_id == u) ≡ false → hold u st ≡ pos 0
unfolding hold
hold-other u st other = ground (arith, other)

hold-settled : (u : ℕ) (st : SettlementRecord) (now : ℕ) → hold u (settled_record st now) ≡ pos 0
unfolding hold settled_record
hold-settled u st now = ground arith

IsHeld-settled : (st : SettlementRecord) (now : ℕ) → IsHeld st → IsHeld (settled_record st now)
unfolding settled_record
IsHeld-settled st now h = h

-- A row rewritten with its frozen balance as it was covers what it covered.
pub same_frozen-IsFunded :
    (u v : ℕ) (b : Account) (t : Tables)
    → frozen_of (find v t.accounts) ≡ b.frozen_balance
    → IsFunded u t
    → IsFunded u (with_account v b t)
same_frozen-IsFunded u v b t same (cover, rows, held, below, low) = elim (Bool-cases (v == u)) [
  | inl own ↦
      let f0 = frozen-found_row u v t.accounts own in
      let f1 = frozen-put_own u v b t.accounts own in
      (
        omega (
          int_laws,
          ap pos_part f0,
          ap neg_part f0,
          ap pos_part f1,
          ap neg_part f1,
          ap pos_part same,
          ap neg_part same,
        ),
        rows,
        held,
        below,
        low,
      )
  | inr other ↦
      let f1 = frozen-put_other u v b t.accounts other in
      (omega (int_laws, ap pos_part f1, ap neg_part f1), rows, held, below, low)
]

-- A freeze adds a hold and as much to the frozen balance.
pub frozen_tables-IsFunded :
    (u i : ℕ) (o : Order) (x y : ℤ) (number : String) (days now : ℕ) (a : Account) (t : Tables)
    → pos 0 ≤ℤ x
    → frozen_of (find o.user_id t.accounts) ≡ a.frozen_balance
    → IsFunded u t
    → IsFunded u (frozen_tables i o x y number days now a t)
unfolding new_settlement
frozen_tables-IsFunded u i o x y number days now a t p same (cover, rows, held, below, low) =
    let st = new_settlement i o x y number days t.next_flow now in
    let e =
      sum_by-put_new (hold u) t.next_settlement st t.settlements
        (find-KeysBelow t.next_settlement t.settlements low) in
    let cover' : IsCovered u (frozen_tables i o x y number days now a t) =
      elim (Bool-cases (o.user_id == u)) [
        | inl own ↦
            let c = hold-own u st own refl in
            let f0 = frozen-found_row u o.user_id t.accounts own in
            let f1 = frozen-put_own u o.user_id (frozen_more a x) t.accounts own in
            omega (
              int_laws,
              ap pos_part f0,
              ap neg_part f0,
              ap pos_part f1,
              ap neg_part f1,
              ap pos_part e,
              ap neg_part e,
              ap pos_part c,
              ap neg_part c,
              ap pos_part same,
              ap neg_part same,
            )
        | inr other ↦
            let c = hold-other u st other in
            let f1 = frozen-put_other u o.user_id (frozen_more a x) t.accounts other in
            omega (
              int_laws,
              ap pos_part f1,
              ap neg_part f1,
              ap pos_part e,
              ap neg_part e,
              ap pos_part c,
              ap neg_part c,
            )
      ] in
    (
      cover',
      rows,
      put-Rows IsHeld t.next_settlement st t.settlements p held,
      below,
      put-KeysBelow (suc t.next_settlement) t.next_settlement st t.settlements (omega arith)
          (KeysBelow-suc t.next_settlement t.settlements low),
    )

-- A release of a record that is stored, and SETTLABLE, takes from the frozen balance what it held.
pub released_tables-IsFunded :
    (u k : ℕ) (st : SettlementRecord) (now i : ℕ) (f : CommissionFlow) (a : Account) (t : Tables)
    → find k t.settlements ≡ some st
    → st.settlement_status ≡ value settlable
    → frozen_of (find st.user_id t.accounts) ≡ a.frozen_balance
    → IsFunded u t
    → IsFunded u (released_tables k st now i f a t)
released_tables-IsFunded u k st now i f a t found at_settlable same
      (cover, rows, held, below, low) =
    let e = sum_by-put (hold u) k (settled_record st now) st t.settlements found in
    let z = hold-settled u st now in
    let cover' : IsCovered u (released_tables k st now i f a t) =
      elim (Bool-cases (st.user_id == u)) [
        | inl own ↦
            let c = hold-own u st own at_settlable in
            let f0 = frozen-found_row u st.user_id t.accounts own in
            let f1 = frozen-put_own u st.user_id (unfrozen a st.user_commission) t.accounts own in
            omega (
              int_laws,
              ap pos_part f0,
              ap neg_part f0,
              ap pos_part f1,
              ap neg_part f1,
              ap pos_part e,
              ap neg_part e,
              ap pos_part c,
              ap neg_part c,
              ap pos_part z,
              ap neg_part z,
              ap pos_part same,
              ap neg_part same,
            )
        | inr other ↦
            let c = hold-other u st other in
            let f1 =
              frozen-put_other u st.user_id (unfrozen a st.user_commission) t.accounts other in
            omega (
              int_laws,
              ap pos_part f1,
              ap neg_part f1,
              ap pos_part e,
              ap neg_part e,
              ap pos_part c,
              ap neg_part c,
              ap pos_part z,
              ap neg_part z,
            )
      ] in
    (
      cover',
      rows,
      put-Rows IsHeld k (settled_record st now) t.settlements
          (IsHeld-settled st now (find-Rows IsHeld k t.settlements held found)) held,
      below,
      put-KeysBelow t.next_settlement k (settled_record st now) t.settlements
          (find_below t.next_settlement k t.settlements low found) low,
    )
