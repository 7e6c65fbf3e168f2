-- ===== src/Funds/Keeps.antt =====
-- A property of the tables goes through the flows: what each of them may leave in the database.
use gaking.Base.{ℕ, suc, ◌≡◌, inl, inr, Bool, true, some, arith, Option-cases, Bool-cases}
use gaking.Base.Table.{find, put}
use gaking.Store.Types.{Account, WithdrawApply, WithdrawStatus}
use gaking.Store.Session.{Session, Tables, commit}
pub use gaking.Store.Keeps.{Both}
use gaking.Accounts.Dao.{Deltas, adjusted, adjust_balance}
use gaking.Withdraw.Service.{
  ReviewEnv, ApplyEnv, new_apply, lock_deltas, lock_and_create, update_apply, settle_apply,
  create_apply,
}
use gaking.Base.Int.{ℤ}

abbrev pub with_account : ℕ → Account → Tables → Tables
with_account u a t = record t { accounts = put u a t.accounts }

abbrev pub with_apply : ℕ → WithdrawApply → Tables → Tables
with_apply i a t = record t { applies = put i a t.applies }

abbrev pub with_new_apply : WithdrawApply → Tables → Tables
with_new_apply a t = record t {
  applies = put t.next_apply a t.applies;
  next_apply = suc t.next_apply;
}

module _ (P : Tables → Type 0) where
  pub adjust_balance-Both :
      (u : ℕ) (d : Deltas) (s : Session)
      → ((a : Account)
          → find u s.working.accounts ≡ some a
          → P (with_account u (adjusted a d) s.working))
      → Both P s
      → Both P (adjust_balance u d s).1
  unfolding adjust_balance
  adjust_balance-Both u d s keep h = elim (Option-cases (find u s.working.accounts)) [
    | inl missing ↦ ground arith
    | inr (a, found) ↦ ground (arith, keep a found)
  ]

  pub update_apply-Both :
      (i : ℕ) (f : WithdrawApply → WithdrawApply) (s : Session)
      → ((a : WithdrawApply) → find i s.working.applies ≡ some a → P (with_apply i (f a) s.working))
      → Both P s
      → Both P (update_apply i f s).1
  unfolding update_apply
  update_apply-Both i f s keep h = elim (Option-cases (find i s.working.applies)) [
    | inl missing ↦ ground arith
    | inr (a, found) ↦ ground (arith, keep a found)
  ]

  pub settle_apply-Both :
      (env : ReviewEnv) (i : ℕ) (admitted : WithdrawStatus → Bool)
      (f : WithdrawApply → WithdrawApply) (deltas : WithdrawApply → Deltas) (s : Session)
      → ((a : WithdrawApply)
          → find i s.working.applies ≡ some a
          → admitted a.status ≡ true
          → P (with_apply i (f a) s.working)
            × ((b : Account)
                → find a.user_id s.working.accounts ≡ some b
                → P (
                    with_account a.user_id (adjusted b (deltas a)) (with_apply i (f a) s.working))))
      → Both P s
      → Both P (settle_apply env i admitted f deltas s).1
  unfolding settle_apply adjust_balance
  settle_apply-Both env i admitted f deltas s keep h =
      elim (Option-cases (find i s.working.applies)) [
        | inl missing ↦ ground arith
        | inr (a, found) ↦ elim (Bool-cases (admitted a.status)) [
          | inl admits ↦ elim (Option-cases (find a.user_id s.working.accounts)) [
            | inl gone ↦ ground (arith, keep a found admits)
            | inr (b, there) ↦
                ground (arith, (keep a found admits).0, (keep a found admits).1 b there)
          ]
          | inr refused ↦ ground arith
        ]
      ]

  pub lock_and_create-Both :
      (env : ApplyEnv) (u : ℕ) (x fee : ℤ) (s : Session)
      → ((b : Account)
          → find u s.working.accounts ≡ some b
          → P (with_account u (adjusted b (lock_deltas x)) s.working)
            × P (
                with_new_apply
                  (new_apply env u x fee)
                  (with_account u (adjusted b (lock_deltas x)) s.working)))
      → Both P s
      → Both P (lock_and_create env u x fee s).1
  unfolding lock_and_create adjust_balance commit create_apply
  lock_and_create-Both env u x fee s keep h = elim (Option-cases (find u s.working.accounts)) [
    | inl missing ↦ ground arith
    | inr (b, found) ↦ ground (arith, keep b found)
  ]
