-- ===== src/Reconcile/ReviewLaws.antt =====
-- The differences that are stored, through runs and reviews of
-- backend/src/services/reconciliation_b13_service.py.
use gaking.Base.{
  ℕ, suc, Bool, true, false, some, List, [], ◌∷◌, ◌≡◌, refl, sym, ◌∙◌, ◌⊎◌, inl, inr, ◌==◌, ==_iff,
  arith, Bool-cases,
}
use gaking.Base.Table.{
  find, put, find-put, find-put_ne, KeysBelow, put-KeysBelow, KeysBelow-suc, find_below, Rows,
  find-Rows, put-Rows,
}
use gaking.Store.Reconciliation.{Diff, DiffStatus}
use gaking.Store.Session.{Tables, Session, Error, ok, err, commit, commit_with}
use gaking.Store.Keeps.{Both}
use gaking.Reconcile.Service.{is_terminal, reviewed, send_alerts, save_diffs}
use gaking.Reconcile.Query.{Columns}
use gaking.Reconcile.Check.{differences, is_critical}
use gaking.Reconcile.Unsent.{Unsent, differences-Unsent}
use Prim.Native.String.{String}
use gaking.Reconcile.Keeps.{ReconcileCall, reconcile_all, save_diffs-Keeps, reconcile_all-Keeps}

abbrev pub NoneAlerted : Tables → Type 0
NoneAlerted t = Rows (λ (d : Diff). d.alert_sent ≡ false) t.diffs

-- Just the critical ones of these differences are marked as alerted.
abbrev pub CriticalAlerted : List Diff → Type 0
CriticalAlerted [] = Unit
CriticalAlerted (d ∷ ds) = (d.alert_sent ≡ is_critical d.alert_level) × CriticalAlerted ds

send_alerts-CriticalAlerted : (ds : List Diff) → Unsent ds → CriticalAlerted (send_alerts ds)
unfolding send_alerts
send_alerts-CriticalAlerted [] u = tt
send_alerts-CriticalAlerted (d ∷ ds) u = elim (Bool-cases (is_critical d.alert_level)) [
  | inl critical ↦ rw critical (sym critical, send_alerts-CriticalAlerted ds u.1)
  | inr other ↦ rw other (u.0 ∙ sym other, send_alerts-CriticalAlerted ds u.1)
]

save_diffs-cases :
    (ds : List Diff) (l : List Bool) (s : Session)
    → s.faults ≡ l
    → let r = (save_diffs ds s).0 in (r ≡ ok (send_alerts ds)) ⊎ (r ≡ err Error.commit_failed)
unfolding save_diffs send_alerts commit commit_with
save_diffs-cases [] l s h = inl refl
save_diffs-cases (d ∷ ds) [] s h = inl (ground (arith, h))
save_diffs-cases (d ∷ ds) (true ∷ rest) s h = inl (ground (arith, h))
save_diffs-cases (d ∷ ds) (false ∷ rest) s h = inr (ground (arith, h))

put-NoneAlerted :
    (t : Tables) (d : Diff) (n : ℕ)
    → d.alert_sent ≡ false
    → NoneAlerted t
    → NoneAlerted (record t { diffs = put t.next_diff d t.diffs; next_diff = n })
put-NoneAlerted t d n unsent h =
    put-Rows (λ (d : Diff). d.alert_sent ≡ false) t.next_diff d t.diffs unsent h

reviewed-NoneAlerted :
    (t : Tables) (i : ℕ) (d : Diff) (action : DiffStatus) (remark : String) (operator now : ℕ)
    → find i t.diffs ≡ some d
    → is_terminal d.status ≡ false
    → NoneAlerted t
    → NoneAlerted (record t { diffs = put i (reviewed action remark operator now d) t.diffs })
unfolding reviewed
reviewed-NoneAlerted t i d action remark operator now found live h =
    let Fresh : Diff → Type 0 = λ d. d.alert_sent ≡ false in
    put-Rows Fresh i (reviewed action remark operator now d) t.diffs
      (find-Rows Fresh i t.diffs h found) h

-- If no stored difference is marked as alerted, then none is after any runs, reruns and reviews, whatever
-- commits fail, nor after the differences of a day are stored then: if that succeeds, just the critical ones
-- are marked in what the call returns, and none in the rows.
pub reconcile_all-NoneAlerted :
    (cs : List ReconcileCall) (s : Session) (c : Columns) (date id : ℕ)
    → Both NoneAlerted s
    → let s1 = reconcile_all cs s in
      let (r, s2) = save_diffs (differences id c date s1.working) s1 in
      Both NoneAlerted s1
      × Both NoneAlerted s2
      × (((dicts : List Diff) × (r ≡ ok dicts) × CriticalAlerted dicts)
          ⊎ (r ≡ err Error.commit_failed))
reconcile_all-NoneAlerted cs s c date id h =
    let s1 = reconcile_all cs s in
    let ds = differences id c date s1.working in
    let unsent = differences-Unsent id c date s1.working in
    let none1 =
      reconcile_all-Keeps NoneAlerted (λ t b n h. h) (λ t d. put-NoneAlerted t d (suc t.next_diff))
        reviewed-NoneAlerted cs s h in
    (
      none1,
      save_diffs-Keeps NoneAlerted (λ t b n h. h) (λ t d. put-NoneAlerted t d (suc t.next_diff))
          reviewed-NoneAlerted ds unsent s1 none1,
      elim (save_diffs-cases ds s1.faults s1 refl) [
        | inl done ↦ inl (send_alerts ds, done, send_alerts-CriticalAlerted ds unsent)
        | inr failed ↦ inr failed
      ],
    )

-- The row of difference `i` is `d`, and no key in use will be given again.
abbrev pub StoredDiff : ℕ → Diff → Tables → Type 0
StoredDiff i d t = (find i t.diffs ≡ some d) × KeysBelow t.next_diff t.diffs

module _ (i : ℕ) (d : Diff) (ended : is_terminal d.status ≡ true) where
  added-StoredDiff :
      (t : Tables) (e : Diff)
      → StoredDiff i d t
      → StoredDiff i d (record t { diffs = put t.next_diff e t.diffs; next_diff = suc t.next_diff })
  added-StoredDiff t e (here, below) =
      let lt = find_below t.next_diff i t.diffs below here in
      (
        find-put_ne t.next_diff i e t.diffs (omega arith) ∙ here,
        put-KeysBelow (suc t.next_diff) t.next_diff e t.diffs (omega arith)
            (KeysBelow-suc t.next_diff t.diffs below),
      )

  changed-StoredDiff :
      (t : Tables) (j : ℕ) (e e' : Diff)
      → find j t.diffs ≡ some e
      → is_terminal e.status ≡ false
      → StoredDiff i d t
      → StoredDiff i d (record t { diffs = put j e' t.diffs })
  changed-StoredDiff t j e e' found live (here, below) = elim (Bool-cases (j == i)) [
    | inl same ↦ absurd (ground (arith, live, ended, found, here, (==_iff j i).0 same))
    | inr other ↦ (
      find-put j i e' t.diffs ∙ ground (arith, other, here),
      put-KeysBelow t.next_diff j e' t.diffs (find_below t.next_diff j t.diffs below found) below,
    )
  ]

  -- A difference that is resolved or ignored keeps its row through any runs and reviews, whichever raise and
  -- whichever commits fail, where no key in use is given again.
  pub reconcile_all-StoredDiff :
      (cs : List ReconcileCall) (s : Session)
      → Both (StoredDiff i d) s
      → Both (StoredDiff i d) (reconcile_all cs s)
  reconcile_all-StoredDiff =
      reconcile_all-Keeps (StoredDiff i d) (λ t b n h. h) (λ t e unsent h. added-StoredDiff t e h)
        (λ t j e action remark operator now found live h.
          changed-StoredDiff t j e (reviewed action remark operator now e) found live h)
