-- ===== src/Funds/Claims.antt =====
-- What the withdrawal flows of backend/src/services/withdraw_service.py do to the claims on a frozen
-- balance: a new application, one that is rewritten, and one that ends.
use gaking.Base.{ℕ, suc, ◌≡◌, refl, ap, inl, inr, true, false, some, ◌==◌, arith, Bool-cases}
use gaking.Base.Int.{ℤ, pos, ◌-ℤ◌, ◌≤ℤ◌, int_laws, pos_part, neg_part}
use gaking.Base.Table.{
  find, sum_by-put, sum_by-put_new, find-KeysBelow, put-KeysBelow, KeysBelow-suc, put-Rows,
  find_below,
}
use gaking.Store.Types.{Account, WithdrawApply}
use gaking.Store.Session.{Tables}
use gaking.Accounts.Dao.{Deltas, adjusted}
use gaking.Withdraw.Service.{ApplyEnv, new_apply, lock_deltas}
use gaking.Funds.Cover.{
  is_open, claim, IsCovered, IsFunded, IsNonneg, frozen-found, frozen-put_own, frozen-put_other,
}
use gaking.Funds.Keeps.{with_account, with_apply, with_new_apply}

-- A row rewritten with the same user and amount changes what is claimed only by its status.
pub claim-same :
    (u : ℕ) (a b : WithdrawApply)
    → b.user_id ≡ a.user_id
    → b.apply_amount ≡ a.apply_amount
    → is_open b.status ≡ is_open a.status
    → claim u b ≡ claim u a
unfolding claim
claim-same u a b x y z = ground (arith, x, y, z)

pub claim-ended : (u : ℕ) (b : WithdrawApply) → is_open b.status ≡ false → claim u b ≡ pos 0
unfolding claim
claim-ended u b z = ground (arith, z)

pub claim-own :
    (u : ℕ) (a : WithdrawApply)
    → (a.user_id == u) ≡ true
    → is_open a.status ≡ true
    → claim u a ≡ a.apply_amount
unfolding claim
claim-own u a y z = ground (arith, y, z)

claim-other : (u : ℕ) (a : WithdrawApply) → (a.user_id == u) ≡ false → claim u a ≡ pos 0
unfolding claim
claim-other u a z = ground (arith, z)

-- A row that claims no more than the one it replaces.
module _ (u i : ℕ) (t : Tables) {a : WithdrawApply} (b : WithdrawApply)
    (found : find i t.applies ≡ some a) where
  pub with_apply-IsFunded :
      claim u b ≤ℤ claim u a → IsNonneg b → IsFunded u t → IsFunded u (with_apply i b t)
  with_apply-IsFunded less fine (cover, rows, held, below, low) =
      let e = sum_by-put (claim u) i b a t.applies found in
      (
        omega (int_laws, ap pos_part e, ap neg_part e),
        put-Rows IsNonneg i b t.applies fine rows,
        held,
        put-KeysBelow t.next_apply i b t.applies (find_below t.next_apply i t.applies below found)
            below,
        low,
      )

  -- An application that ends gives back what it claimed, no more.
  pub ended-IsFunded :
      (acc : Account) (d : Deltas)
      → is_open a.status ≡ true
      → is_open b.status ≡ false
      → IsNonneg b
      → d.frozen ≡ pos 0 -ℤ a.apply_amount
      → find a.user_id t.accounts ≡ some acc
      → IsFunded u t
      → IsFunded u (with_account a.user_id (adjusted acc d) (with_apply i b t))
  ended-IsFunded acc d was is fine df there (cover, rows, held, below, low) =
      let e = sum_by-put (claim u) i b a t.applies found in
      let z = claim-ended u b is in
      let cover' : IsCovered u (with_account a.user_id (adjusted acc d) (with_apply i b t)) =
        elim (Bool-cases (a.user_id == u)) [
          | inl own ↦
              let c = claim-own u a own was in
              let f0 = frozen-found u a.user_id acc t.accounts own there in
              let f1 = frozen-put_own u a.user_id (adjusted acc d) t.accounts own in
              omega (
                int_laws,
                ap pos_part e,
                ap neg_part e,
                ap pos_part z,
                ap neg_part z,
                ap pos_part c,
                ap neg_part c,
                ap pos_part f0,
                ap neg_part f0,
                ap pos_part f1,
                ap neg_part f1,
                ap pos_part df,
                ap neg_part df,
              )
          | inr other ↦
              let c = claim-other u a other in
              let f1 = frozen-put_other u a.user_id (adjusted acc d) t.accounts other in
              omega (
                int_laws,
                ap pos_part e,
                ap neg_part e,
                ap pos_part z,
                ap neg_part z,
                ap pos_part c,
                ap neg_part c,
                ap pos_part f1,
                ap neg_part f1,
              )
        ] in
      (
        cover',
        put-Rows IsNonneg i b t.applies fine rows,
        held,
        put-KeysBelow t.next_apply i b t.applies (find_below t.next_apply i t.applies below found)
            below,
        low,
      )

-- The lock, and then the application that claims what was locked.
module _ (env : ApplyEnv) (u v : ℕ) (x fee : ℤ) (t : Tables) (acc : Account) where
  pub locked-IsFunded :
      pos 0 ≤ℤ x
      → find v t.accounts ≡ some acc
      → IsFunded u t
      → IsFunded u (with_account v (adjusted acc (lock_deltas x)) t)
        × IsFunded u (
            with_new_apply
              (new_apply env v x fee)
              (with_account v (adjusted acc (lock_deltas x)) t))
  unfolding lock_deltas new_apply is_open
  locked-IsFunded p there (cover, rows, held, below, low) =
      let a = new_apply env v x fee in
      let e =
        sum_by-put_new (claim u) t.next_apply a t.applies
          (find-KeysBelow t.next_apply t.applies below) in
      let low' =
        put-KeysBelow (suc t.next_apply) t.next_apply a t.applies (omega arith)
          (KeysBelow-suc t.next_apply t.applies below) in
      let rows' = put-Rows IsNonneg t.next_apply a t.applies p rows in
      elim (Bool-cases (v == u)) [
        | inl own ↦
            let c = claim-own u a own refl in
            let f0 = frozen-found u v acc t.accounts own there in
            let f1 = frozen-put_own u v (adjusted acc (lock_deltas x)) t.accounts own in
            (
              (
                omega (int_laws, ap pos_part f0, ap neg_part f0, ap pos_part f1, ap neg_part f1),
                rows,
                held,
                below,
                low,
              ),
              (
                omega (
                  int_laws,
                  ap pos_part f0,
                  ap neg_part f0,
                  ap pos_part f1,
                  ap neg_part f1,
                  ap pos_part e,
                  ap neg_part e,
                  ap pos_part c,
                  ap neg_part c,
                ),
                rows',
                held,
                low',
                low,
              ),
            )
        | inr other ↦
            let c = claim-other u a other in
            let f1 = frozen-put_other u v (adjusted acc (lock_deltas x)) t.accounts other in
            (
              (omega (int_laws, ap pos_part f1, ap neg_part f1), rows, held, below, low),
              (
                omega (
                  int_laws,
                  ap pos_part f1,
                  ap neg_part f1,
                  ap pos_part e,
                  ap neg_part e,
                  ap pos_part c,
                  ap neg_part c,
                ),
                rows',
                held,
                low',
                low,
              ),
            )
      ]
