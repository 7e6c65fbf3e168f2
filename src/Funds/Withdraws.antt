-- ===== src/Funds/Withdraws.antt =====
-- Every flow of backend/src/services/withdraw_service.py keeps every user's frozen balance covered,
-- whatever commit fails.
use gaking.Base.{
  ℕ, ◌≡◌, refl, ap, ◌∙◌, sym, subst, inl, inr, Bool, true, false, some, arith, Bool-cases,
  Option-cases,
}
use gaking.Base.Int.{ℤ, pos, ◌-ℤ◌, ◌≤ℤ◌, int_laws, ltb_ℤ, pos_part, neg_part}
use gaking.Base.Table.{find, find-Rows}
use gaking.Store.Types.{Account, WithdrawApply, WithdrawStatus}
use gaking.Store.Session.{Tables, Session, Result-cases}
use gaking.Accounts.Dao.{Deltas, adjusted}
use gaking.Withdraw.Rules.{validate_all, withdraw_min_amount}
use gaking.Withdraw.Service.{
  ReviewEnv, ApplyEnv, new_apply, lock_deltas, return_deltas, payout_deltas, apply_withdraw,
  reject_apply, approve_apply, complete_apply, fail_apply, rejected, approved, completed, failed,
  is_pending, is_payable, settle_apply,
}
use gaking.Funds.Cover.{is_open, claim, IsFunded, IsNonneg, claim_nonneg}
use gaking.Funds.Keeps.{
  Both, with_account, with_apply, with_new_apply, settle_apply-Both, lock_and_create-Both,
}
use gaking.Withdraw.RulesLaws.{validate_all-tables}
use gaking.Funds.Claims.{
  with_apply-IsFunded, ended-IsFunded, locked-IsFunded, claim-same, claim-ended,
}
use Prim.Native.String.{String}

pub pending_open : (st : WithdrawStatus) → is_pending st ≡ true → is_open st ≡ true
unfolding is_pending is_open
pending_open WithdrawStatus.pending h = refl
pending_open _ h = absurd (ground arith)

pub payable_open : (st : WithdrawStatus) → is_payable st ≡ true → is_open st ≡ true
unfolding is_payable is_open
payable_open WithdrawStatus.approved h = refl
payable_open WithdrawStatus.processing h = refl
payable_open _ h = absurd (ground arith)

-- A flow that ends open applications, and takes from the frozen balance what they claimed.
module _ (u : ℕ) (admitted : WithdrawStatus → Bool) (f : WithdrawApply → WithdrawApply)
    (deltas : WithdrawApply → Deltas)
    (opens : (st : WithdrawStatus) → admitted st ≡ true → is_open st ≡ true)
    (closes : (a : WithdrawApply) → is_open (f a).status ≡ false)
    (amount : (a : WithdrawApply) → (f a).apply_amount ≡ a.apply_amount)
    (takes : (a : WithdrawApply) → (deltas a).frozen ≡ pos 0 -ℤ a.apply_amount) where
  closing-IsFunded :
      (env : ReviewEnv) (i : ℕ) (s : Session)
      → Both (IsFunded u) s
      → Both (IsFunded u) (settle_apply env i admitted f deltas s).1
  closing-IsFunded env i s h =
      settle_apply-Both (IsFunded u) env i admitted f deltas s
        (λ a found ad.
          let fine : IsNonneg a = find-Rows IsNonneg i s.working.applies h.1.1 found in
          let fine' : IsNonneg (f a) = subst (λ x. pos 0 ≤ℤ x) (sym (amount a)) fine in
          let z = claim-ended u (f a) (closes a) in
          let less : claim u (f a) ≤ℤ claim u a =
            omega (int_laws, ap pos_part z, ap neg_part z, claim_nonneg u a fine) in
          (
            with_apply-IsFunded u i s.working (f a) found less fine' h.1,
            λ b there.
                ended-IsFunded u i s.working (f a) found b (deltas a) (opens a.status ad) (closes a)
                  fine' (takes a) there h.1,
          ))
        h

-- A rejection keeps every user's frozen balance covered, also where it raises.
pub reject_apply-IsFunded :
    (u : ℕ) (env : ReviewEnv) (i reviewer : ℕ) (reason : String) (s : Session)
    → Both (IsFunded u) s
    → Both (IsFunded u) (reject_apply env i reviewer reason s).1
unfolding reject_apply rejected return_deltas is_open
reject_apply-IsFunded u env i reviewer reason =
    closing-IsFunded u is_pending (rejected env reviewer reason) (λ a. return_deltas a.apply_amount)
      pending_open (λ a. refl) (λ a. refl) (λ a. refl) env i

-- A completed payment keeps every user's frozen balance covered, also where it raises.
pub complete_apply-IsFunded :
    (u : ℕ) (env : ReviewEnv) (i : ℕ) (batch : String) (s : Session)
    → Both (IsFunded u) s
    → Both (IsFunded u) (complete_apply env i batch s).1
unfolding complete_apply completed payout_deltas is_open
complete_apply-IsFunded u env i batch =
    closing-IsFunded u is_payable (completed env batch) payout_deltas payable_open (λ a. refl)
      (λ a. refl) (λ a. refl) env i

-- A failed payment keeps every user's frozen balance covered, also where it raises.
pub fail_apply-IsFunded :
    (u : ℕ) (env : ReviewEnv) (i : ℕ) (reason : String) (s : Session)
    → Both (IsFunded u) s
    → Both (IsFunded u) (fail_apply env i reason s).1
unfolding fail_apply failed return_deltas is_open
fail_apply-IsFunded u env i reason =
    closing-IsFunded u is_payable (failed env reason) (λ a. return_deltas a.apply_amount)
      payable_open (λ a. refl) (λ a. refl) (λ a. refl) env i

module _ (P : Tables → Type 0) where
  pub approve_apply-Both :
      (env : ReviewEnv) (i reviewer : ℕ) (remark : String) (s : Session)
      → ((a : WithdrawApply)
          → find i s.working.applies ≡ some a
          → is_pending a.status ≡ true
          → P (with_apply i (approved env reviewer remark a) s.working))
      → Both P s
      → Both P (approve_apply env i reviewer remark s).1
  unfolding approve_apply
  approve_apply-Both env i reviewer remark s keep h =
      elim (Option-cases (find i s.working.applies)) [
        | inl missing ↦ ground arith
        | inr (a, found) ↦ elim (Bool-cases (is_pending a.status)) [
          | inl pends ↦ ground (arith, keep a found pends)
          | inr refused ↦ ground arith
        ]
      ]

  pub apply_withdraw-Both :
      (env : ApplyEnv) (v : ℕ) (x : ℤ) (s : Session)
      → ((b : Account) (fee : ℤ)
          → pos 0 ≤ℤ x
          → find v s.working.accounts ≡ some b
          → P (with_account v (adjusted b (lock_deltas x)) s.working)
            × P (
                with_new_apply
                  (new_apply env v x fee)
                  (with_account v (adjusted b (lock_deltas x)) s.working)))
      → Both P s
      → Both P (apply_withdraw env v x s).1
  unfolding apply_withdraw
  apply_withdraw-Both env v x s keep h = elim (Bool-cases (ltb_ℤ x withdraw_min_amount)) [
    | inl short ↦ ground arith
    | inr enough ↦
        let s1 = (validate_all v x env.rules s).1 in
        let (same_db, same) = validate_all-tables v x env.rules s in
        let h1 : Both P s1 = (subst P (sym same_db) h.0, subst P (sym same) h.1) in
        elim (Result-cases (validate_all v x env.rules s).0) [
          | inl (r, e) ↦ ground (
            arith,
            e,
            h1,
            lock_and_create-Both P env v x (pos r.fee) s1
                (λ b there.
                  subst
                    (λ w.
                      P (with_account v (adjusted b (lock_deltas x)) w)
                      × P (
                          with_new_apply (new_apply env v x (pos r.fee))
                            (with_account v (adjusted b (lock_deltas x)) w)))
                    (sym same)
                    (keep b (pos r.fee) (ground arith)
                      (ap (λ w. find v w.accounts) (sym same) ∙ there)))
                h1,
          )
          | inr (x, e) ↦ ground (arith, e, h1)
        ]
  ]

-- An approval keeps every user's frozen balance covered, also where it raises.
pub approve_apply-IsFunded :
    (u : ℕ) (env : ReviewEnv) (i reviewer : ℕ) (remark : String) (s : Session)
    → Both (IsFunded u) s
    → Both (IsFunded u) (approve_apply env i reviewer remark s).1
unfolding approved is_open
approve_apply-IsFunded u env i reviewer remark s h =
    approve_apply-Both (IsFunded u) env i reviewer remark s
      (λ a found pends.
        let c =
          claim-same u a (approved env reviewer remark a) refl refl
            (sym (pending_open a.status pends)) in
        with_apply-IsFunded u i s.working (approved env reviewer remark a) found
          (omega (int_laws, ap pos_part c, ap neg_part c))
          (find-Rows IsNonneg i s.working.applies h.1.1 found) h.1)
      h

-- An application, whatever its amount, keeps every user's frozen balance covered, also where it raises
-- or where the second of its two commits fails.
pub apply_withdraw-IsFunded :
    (u : ℕ) (env : ApplyEnv) (v : ℕ) (x : ℤ) (s : Session)
    → Both (IsFunded u) s
    → Both (IsFunded u) (apply_withdraw env v x s).1
apply_withdraw-IsFunded u env v x s h =
    apply_withdraw-Both (IsFunded u) env v x s
      (λ b fee p there. locked-IsFunded env u v x fee s.working b p there h.1) h
