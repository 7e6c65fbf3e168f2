-- ===== src/Reconcile/Keeps.antt =====
-- A property of the tables goes through the runs and the reviews of
-- backend/src/services/reconciliation_b13_service.py.
use gaking.Base.{
  ℕ, suc, false, Option, none, some, List, [], ◌∷◌, ◌≡◌, inl, inr, Bool-cases, Option-cases,
}
use gaking.Base.Table.{Table, find, put}
use gaking.Store.Reconciliation.{Batch, Diff, DiffStatus, ReconciliationType}
use gaking.Store.Session.{Tables, Session, Result, ok, err, ◌>>=◌, pure, gets, commit}
use gaking.Store.Keeps.{Both, Keeps, then-Both, then-Keeps, commit-Keeps}
use gaking.Accounts.Dao.{attempt}
use gaking.Settlement.Freeze.{check_breaker, breaker_success}
use gaking.Reconcile.Query.{Columns}
use gaking.Reconcile.Check.{differences, critical_count}
use gaking.Reconcile.Service.{
  ReconcileEnv, Report, new_batch, create_batch, add_diffs, send_alerts, save_diffs, close_batch,
  closed, final_status, length, settle_batch, reconcile_body, mark_failed, or_failed,
  run_reconciliation, retry_reconciliation, allows, is_terminal, reviewed, review_diff,
}
use gaking.Reconcile.Unsent.{Unsent, differences-Unsent}
use Prim.Native.String.{String}

-- A call of the service.
pub data ReconcileCall : Type 0 where
  run_of : ReconcileEnv → ℕ → ReconciliationType → Option ℕ → ReconcileCall
  rerun : ReconcileEnv → ℕ → ℕ → ReconcileCall
  review_of : ℕ → DiffStatus → String → ℕ → ℕ → ReconcileCall

unfoldable pub reconcile : ReconcileCall → Session → Session
reconcile (run_of env date type operator) s = (run_reconciliation env date type operator s).1
reconcile (rerun env id operator) s = (retry_reconciliation env id operator s).1
reconcile (review_of id action remark operator now) s =
    (review_diff id action remark operator now s).1

unfoldable pub reconcile_all : List ReconcileCall → Session → Session
reconcile_all [] s = s
reconcile_all (c ∷ cs) s = reconcile_all cs (reconcile c s)

module _ (P : Tables → Type 0)
    (batched : (t : Tables) (b : Table Batch) (n : ℕ)
      → P t
      → P (record t { batches = b; next_batch = n }))
    (added : (t : Tables) (d : Diff)
      → d.alert_sent ≡ false
      → P t
      → P (record t { diffs = put t.next_diff d t.diffs; next_diff = suc t.next_diff }))
    (changed : (t : Tables) (i : ℕ) (d : Diff) (action : DiffStatus) (remark : String)
        (operator now : ℕ)
      → find i t.diffs ≡ some d
      → is_terminal d.status ≡ false
      → P t
      → P (record t { diffs = put i (reviewed action remark operator now d) t.diffs })) where
  add_diffs_keep : (ds : List Diff) (t : Tables) → Unsent ds → P t → P (add_diffs ds t)
  unfolding add_diffs
  add_diffs_keep [] t u h = h
  add_diffs_keep (d ∷ ds) t u h =
      add_diffs_keep ds
        (record t { diffs = put t.next_diff d t.diffs; next_diff = suc t.next_diff }) u.1
        (added t d u.0 h)

  pub save_diffs-Keeps : (ds : List Diff) → Unsent ds → Keeps P (save_diffs ds)
  unfolding save_diffs
  save_diffs-Keeps [] u s h = h
  save_diffs-Keeps (d ∷ ds) u s h =
      let s' = record s { working = add_diffs (d ∷ ds) s.working } in
      then-Both P commit (λ _. pure (send_alerts (d ∷ ds))) s'
        (commit-Keeps P s' (h.0, add_diffs_keep (d ∷ ds) s.working u h.1)) (λ _ s h. h)

  close_batch-Keeps :
      (id : ℕ) (f : Batch → Batch) (row : Option Batch) → Keeps P (close_batch id f row)
  unfolding close_batch
  close_batch-Keeps id f none s h = h
  close_batch-Keeps id f (some b) s h =
      commit-Keeps P
        (record s { working = record s.working { batches = put id (f b) s.working.batches } })
        (h.0, batched s.working (put id (f b) s.working.batches) s.working.next_batch h.1)

  create_batch-Keeps : (b : Batch) → Keeps P (create_batch b)
  unfolding create_batch
  create_batch-Keeps b s h =
      let t = s.working in
      let t' = record t { batches = put t.next_batch b t.batches; next_batch = suc t.next_batch } in
      then-Both P commit (λ _. pure t.next_batch) (record s { working = t' })
        (commit-Keeps P (record s { working = t' }) (h.0, batched t t'.batches t'.next_batch h.1))
        (λ _ s h. h)

  settle_batch-Keeps : (c : Columns) (date id : ℕ) (t : Tables) → Keeps P (settle_batch c date id t)
  unfolding settle_batch
  settle_batch-Keeps c date id t =
      let ds = differences id c date t in
      then-Keeps P (save_diffs ds)
        (λ dicts. gets (λ t. find id t.batches) >>= λ row.
          close_batch id (closed c date t ds) row >>= λ _. pure (record {
            reconciliation_id = id;
            status = final_status ds;
            diff_count = length ds;
            critical_diff_count = critical_count dicts;
          }))
        (save_diffs-Keeps ds (differences-Unsent id c date t))
        (λ dicts s h.
          then-Both P (close_batch id (closed c date t ds) (find id s.working.batches))
            (λ _. pure (record {
              reconciliation_id = id;
              status = final_status ds;
              diff_count = length ds;
              critical_diff_count = critical_count dicts;
            }))
            s (close_batch-Keeps id (closed c date t ds) (find id s.working.batches) s h)
            (λ _ s h. h))

  check_breaker-Keeps : (now : ℕ) → Keeps P (check_breaker now)
  unfolding check_breaker
  check_breaker-Keeps now s h = h

  or_failed-Keeps : (env : ReconcileEnv) (r : Result Report) → Keeps P (or_failed env r)
  unfolding or_failed mark_failed
  or_failed-Keeps env (ok r) s h = h
  or_failed-Keeps env (err e) s h = h

  reconcile_body-Keeps :
      (env : ReconcileEnv) (date : ℕ) (type : ReconciliationType) (operator : Option ℕ)
      → Keeps P (reconcile_body env date type operator)
  unfolding reconcile_body
  reconcile_body-Keeps env date type operator =
      then-Keeps P (check_breaker env.now)
        (λ _. create_batch (new_batch date type operator) >>= λ id. gets (λ t. t) >>= λ t.
          settle_batch env.columns date id t >>= λ r. breaker_success env.now >>= λ _. pure r)
        (check_breaker-Keeps env.now)
        (λ _.
          then-Keeps P (create_batch (new_batch date type operator))
            (λ id. gets (λ t. t) >>= λ t.
              settle_batch env.columns date id t >>= λ r. breaker_success env.now >>= λ _. pure r)
            (create_batch-Keeps (new_batch date type operator))
            (λ id s h.
              then-Both P (settle_batch env.columns date id s.working)
                (λ r. breaker_success env.now >>= λ _. pure r) s
                (settle_batch-Keeps env.columns date id s.working s h) (λ r s h. h)))

  run_reconciliation-Keeps :
      (env : ReconcileEnv) (date : ℕ) (type : ReconciliationType) (operator : Option ℕ)
      → Keeps P (run_reconciliation env date type operator)
  unfolding run_reconciliation or_failed mark_failed
  run_reconciliation-Keeps env date type operator s h = elim (Bool-cases env.lock_granted) [
    | inr refused ↦ rw refused h
    | inl granted ↦ rw granted (
        then-Both P (attempt (reconcile_body env date type operator)) (or_failed env) s
          (reconcile_body-Keeps env date type operator s h) (or_failed-Keeps env))
  ]

  retry_reconciliation-Keeps :
      (env : ReconcileEnv) (id operator : ℕ) → Keeps P (retry_reconciliation env id operator)
  unfolding retry_reconciliation
  retry_reconciliation-Keeps env id operator s h = elim (Option-cases (find id s.working.batches)) [
    | inl missing ↦ rw missing h
    | inr (b, found) ↦ rw found (
        run_reconciliation-Keeps env b.reconcile_date ReconciliationType.manual (some operator) s h)
  ]

  review_diff-Keeps :
      (id : ℕ) (action : DiffStatus) (remark : String) (operator now : ℕ)
      → Keeps P (review_diff id action remark operator now)
  unfolding review_diff
  review_diff-Keeps id action remark operator now s h =
      elim (Option-cases (find id s.working.diffs)) [
        | inl missing ↦ rw missing h
        | inr (d, found) ↦ elim (Bool-cases (is_terminal d.status)) [
          | inl ended ↦ rw (found, ended) h
          | inr live ↦ elim (Bool-cases (allows d.status action)) [
            | inr illegal ↦ rw (found, live, illegal) h
            | inl legal ↦
                let s' = record s {
                  working = record s.working {
                    diffs = put id (reviewed action remark operator now d) s.working.diffs;
                  };
                } in
                rw (found, live, legal)
                  (then-Both P commit (λ _. pure action) s'
                    (commit-Keeps P s'
                      (h.0, changed s.working id d action remark operator now found live h.1))
                    (λ _ s h. h))
          ]
        ]
      ]

  pub reconcile-Keeps : (c : ReconcileCall) (s : Session) → Both P s → Both P (reconcile c s)
  unfolding reconcile
  reconcile-Keeps (run_of env date type operator) s h =
      run_reconciliation-Keeps env date type operator s h
  reconcile-Keeps (rerun env id operator) s h = retry_reconciliation-Keeps env id operator s h
  reconcile-Keeps (review_of id action remark operator now) s h =
      review_diff-Keeps id action remark operator now s h

  pub reconcile_all-Keeps :
      (cs : List ReconcileCall) (s : Session) → Both P s → Both P (reconcile_all cs s)
  unfolding reconcile_all
  reconcile_all-Keeps [] s h = h
  reconcile_all-Keeps (c ∷ cs) s h = reconcile_all-Keeps cs (reconcile c s) (reconcile-Keeps c s h)
