-- ===== src/Reconcile/RunLaws.antt =====
-- What a run of backend/src/services/reconciliation_b13_service.py answers, and what one that raises leaves.
use gaking.Base.{
  ℕ, suc, Bool, true, false, Option, none, some, List, [], ◌∷◌, ◌≡◌, refl, ◌↔◌, ◌⊎◌, inl, inr, sym,
  ◌∙◌, ap, subst, arith, Bool-cases,
}
use gaking.Base.Table.{Table, find, put}
use gaking.Store.Reconciliation.{BatchStatus, ReconciliationType, Diff, Batch}
use gaking.Store.Session.{Tables, Session, ok, err, Error, pure, commit, commit_with, Result-cases}
use gaking.Store.Keeps.{Both, Keeps, then-Both, commit-Keeps}
use gaking.Breaker.Circuit.{allow_request, default_settings}
use gaking.Settlement.Freeze.{check_breaker}
use gaking.Reconcile.Query.{Columns, users, unsettled_orders, orphan_settlements}
use gaking.Reconcile.Check.{differences, no_diffs, ordered_amount, settled_amount, withdrawn_amount}
use gaking.Reconcile.Balance.{Agrees, differences_iff}
use gaking.Reconcile.Service.{
  ReconcileEnv, Report, final_status, new_batch, create_batch, add_diffs, send_alerts, save_diffs,
  close_batch, closed, settle_batch, reconcile_body, or_failed, mark_failed, run_reconciliation,
}

final_iff : (ds : List Diff) → (final_status ds ≡ BatchStatus.success) ↔ (ds ≡ [])
unfolding final_status no_diffs
final_iff [] = ((λ h. refl), (λ h. refl))
final_iff (d ∷ ds) = ((λ h. cc), (λ h. cc))

settle_status :
    (c : Columns) (date id : ℕ) (t : Tables) (s : Session) (r : Report)
    → (settle_batch c date id t s).0 ≡ ok r
    → r.status ≡ final_status (differences id c date t)
unfolding settle_batch
settle_status c date id t s r h = ground (arith, h)

-- The tables with the batch of a run.
abbrev opened : Batch → Tables → Tables
opened b t = record t { batches = put t.next_batch b t.batches; next_batch = suc t.next_batch }

-- A batch is stored and committed, or nothing is changed.
create_with-cases :
    (b : Batch) (l : List Bool) (s : Session)
    → s.faults ≡ l
    → let (x, s') = create_batch b s in
      ((x ≡ ok s.working.next_batch)
        × (s'.working ≡ opened b s.working)
        × (s'.committed ≡ opened b s.working))
      ⊎ ((x ≡ err Error.commit_failed) × (s'.working ≡ s.committed) × (s'.committed ≡ s.committed))
unfolding create_batch commit commit_with
create_with-cases b [] s h = inl (ground (arith, h))
create_with-cases b (true ∷ rest) s h = inl (ground (arith, h))
create_with-cases b (false ∷ rest) s h = inr (ground (arith, h))

-- A run is refused by its lock or by the breaker, or fails to store its batch, or it goes on from the batch.
run_cases :
    (env : ReconcileEnv) (date : ℕ) (type : ReconciliationType) (operator : Option ℕ) (s : Session)
    → let b = new_batch date type operator in
      let (x, s') = run_reconciliation env date type operator s in
      ((e : Error) × ((x ≡ err e) × (s'.committed ≡ s.committed)))
      ⊎ ((s1 : Session) × (s1.working ≡ opened b s.working)
          × (s1.committed ≡ opened b s.working)
          × let (y, s2) = settle_batch env.columns date s.working.next_batch s1.working s1 in
            (x ≡ y) × (s'.committed ≡ s2.committed))
unfolding run_reconciliation reconcile_body or_failed mark_failed check_breaker
run_cases env date type operator s = elim (Bool-cases env.lock_granted) [
  | inr refused ↦ inl (Error.busy, ground (arith, refused))
  | inl granted ↦ elim (Bool-cases (allow_request default_settings env.now s.breaker).0) [
    | inr stopped ↦ inl (Error.breaker_open, ground (arith, granted, stopped))
    | inl allowed ↦
        let s0 = record s { breaker = (allow_request default_settings env.now s.breaker).1 } in
        elim (create_with-cases (new_batch date type operator) s.faults s0 refl) [
          | inr (failed, back, same) ↦
              inl (Error.commit_failed, ground (arith, granted, allowed, failed, same))
          | inl (stored, now, kept) ↦
              let s1 = (create_batch (new_batch date type operator) s0).1 in
              inr (
                s1,
                now,
                kept,
                elim (Result-cases
                    (settle_batch env.columns date s.working.next_batch s1.working s1).0) [
                      | inl (r, done) ↦ ground (arith, granted, allowed, stored, done)
                      | inr (e, raised) ↦ ground (arith, granted, allowed, stored, raised)
                    ],
              )
        ]
  ]
]

-- No query reads the batches.
moved :
    (c : Columns) (date : ℕ) (b : Batch) (t : Tables) → Agrees c date (opened b t) → Agrees c date t
unfolding users unsettled_orders orphan_settlements ordered_amount settled_amount withdrawn_amount
moved c date b t h = h

moved_back :
    (c : Columns) (date : ℕ) (b : Batch) (t : Tables) → Agrees c date t → Agrees c date (opened b t)
unfolding users unsettled_orders orphan_settlements ordered_amount settled_amount withdrawn_amount
moved_back c date b t h = h

-- A run that returns reports SUCCESS just where the tables that it has found pass the comparisons: for each
-- user with a row of the day the amounts of orders and settlements agree to a cent, and, for one with an
-- account, those of the settlements with its total and its withdrawals with the payments; a user without an
-- account was paid no withdrawal, whatever the settlements are; and no order or settlement stands alone.
-- The transfers of WeChat do not enter.
pub run_reconciliation-agrees :
    (env : ReconcileEnv) (date : ℕ) (type : ReconciliationType) (operator : Option ℕ) (s : Session)
    (r : Report)
    → (run_reconciliation env date type operator s).0 ≡ ok r
    → (r.status ≡ BatchStatus.success) ↔ Agrees env.columns date s.working
run_reconciliation-agrees env date type operator s r h = elim (run_cases env date type operator s) [
  | inl (e, (raised, same)) ↦ absurd (ground (arith, raised, h))
  | inr (s1, now, kept, (runs, same)) ↦
      let id = s.working.next_batch in
      let status = settle_status env.columns date id s1.working s1 r (sym runs ∙ h) in
      let (one, two) = final_iff (differences id env.columns date s1.working) in
      let (three, four) = differences_iff id env.columns date s1.working in
      (
        (λ good.
            moved env.columns date (new_batch date type operator) s.working
              (subst (Agrees env.columns date) now (three (one (sym status ∙ good))))),
        (λ agree.
            status
            ∙ two (
                four (
                  subst (Agrees env.columns date) (sym now)
                    (moved_back env.columns date (new_batch date type operator) s.working agree)))),
      )
]

add_diffs-batches : (ds : List Diff) (t : Tables) → (add_diffs ds t).batches ≡ t.batches
unfolding add_diffs
add_diffs-batches [] t = refl
add_diffs-batches (d ∷ ds) t = add_diffs-batches ds _

save_diffs-batches : (b : Table Batch) (ds : List Diff) → Keeps (λ t. t.batches ≡ b) (save_diffs ds)
unfolding save_diffs
save_diffs-batches b [] s h = h
save_diffs-batches b (d ∷ ds) s h =
    let s' = record s { working = add_diffs (d ∷ ds) s.working } in
    then-Both (λ t. t.batches ≡ b) commit (λ _. pure (send_alerts (d ∷ ds))) s'
      (commit-Keeps (λ t. t.batches ≡ b) s' (h.0, add_diffs-batches (d ∷ ds) s.working ∙ h.1))
      (λ _ s h. h)

close_raised :
    (id : ℕ) (f : Batch → Batch) (row : Option Batch) (l : List Bool) (s : Session) (e : Error)
    → s.faults ≡ l
    → (close_batch id f row s).0 ≡ err e
    → (close_batch id f row s).1.committed ≡ s.committed
unfolding close_batch commit commit_with
close_raised id f none l s e same h = cc
close_raised id f (some b) [] s e same h = ground (arith, same, h)
close_raised id f (some b) (true ∷ rest) s e same h = ground (arith, same, h)
close_raised id f (some b) (false ∷ rest) s e same h = ground (arith, same, h)

settle_raised :
    (c : Columns) (date id : ℕ) (t : Tables) (s : Session) (e : Error) (b : Table Batch)
    → Both (λ t. t.batches ≡ b) s
    → (settle_batch c date id t s).0 ≡ err e
    → (settle_batch c date id t s).1.committed.batches ≡ b
unfolding settle_batch
settle_raised c date id t s e b both h =
    let ds = differences id c date t in
    let s' = (save_diffs ds s).1 in
    let kept = save_diffs-batches b ds s both in
    elim (Result-cases (save_diffs ds s).0) [
      | inr (x, raised) ↦ ground (arith, raised, kept.0)
      | inl (x, saved) ↦
          let row = find id s'.working.batches in
          elim (Result-cases (close_batch id (closed c date t ds) row s').0) [
            | inl (y, done) ↦ absurd (ground (arith, saved, done, h))
            | inr (y, raised) ↦
                let same =
                  ap (λ (t : Tables). t.batches)
                    (close_raised id (closed c date t ds) row s'.faults s' y refl raised)
                  ∙ kept.0 in
                ground (arith, saved, raised, same)
          ]
    ]

-- A run that raises in a clean session leaves its batch on RUNNING, or no batch at all: never one that is
-- marked as FAILED.
pub run_reconciliation_leaves_running :
    (env : ReconcileEnv) (date : ℕ) (type : ReconciliationType) (operator : Option ℕ) (s : Session)
    (e : Error)
    → s.committed ≡ s.working
    → (run_reconciliation env date type operator s).0 ≡ err e
    → let after = (run_reconciliation env date type operator s).1.committed.batches in
      (after ≡ s.working.batches)
      ⊎ (after ≡ put s.working.next_batch (new_batch date type operator) s.working.batches)
run_reconciliation_leaves_running env date type operator s e clean h =
    elim (run_cases env date type operator s) [
      | inl (x, (raised, same)) ↦ inl (ap (λ t. t.batches) (same ∙ clean))
      | inr (s1, now, kept, (runs, same)) ↦
          let b = new_batch date type operator in
          inr (
            ap (λ t. t.batches) same
            ∙ settle_raised env.columns date s.working.next_batch s1.working s1 e
                (opened b s.working).batches (ap (λ t. t.batches) kept, ap (λ t. t.batches) now)
                (sym runs ∙ h))
    ]
