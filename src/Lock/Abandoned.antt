-- ===== src/Lock/Abandoned.antt =====
-- No lock of backend/src/common/lock_util.py is lost for good: what a holder that stops, or a command
-- that fails, leaves behind.
use gaking.Base.{
  ℕ, ◌-◌, ◌≤◌, ◌<◌, Bool, Bool-cases, ltb, true, false, none, some, List, [], ◌∷◌, ◌≡◌, refl, ap,
  ◌∙◌, arith, inl, inr, Option-cases,
}
use gaking.Lock.Redis.{
  Key, RenewEnv, Try, acquire_lock, release_lock, renew_set, expire_of, live, live_until,
  release_script, with_deadline, renew_expire, renew_lock, renew_read, force_release,
  acquire_script, force_script, fresh, acquire_with_wait,
}
use gaking.Lock.Exclusion.{run}
use gaking.Lock.Refinement.{acquire_cases, until_of_le}
use gaking.Lock.Lease.{Call, acquires, releases, renews, forces, perform, lease, IsFree}

-- A key whose value lapses by a time, if it has one.
abbrev pub EndsBy : ℕ → Key → Type 0
EndsBy b none = Unit
EndsBy b (some e) = e.expire_ts ≤ b

-- A call with its answer: if it wrote a value into the key, then one that lapses by a time.
abbrev pub WritesBelow : ℕ → ℕ → Call → Bool → Type 0
WritesBelow b now (acquires ran owner timeout) answer = answer ≡ true → expire_of now timeout ≤ b
WritesBelow b now (renews env owner timeout) answer =
    answer ≡ true → env.set_ran ≡ true → expire_of now timeout ≤ b
WritesBelow b now _ answer = Unit

abbrev pub AllBelow : ℕ → List (ℕ × Call) → Key → Type 0
AllBelow b [] k = Unit
AllBelow b (c ∷ cs) k =
    let (answer, k') = perform c.0 c.1 k in WritesBelow b c.0 c.1 answer × AllBelow b cs k'

live-EndsBy : (b now : ℕ) (k : Key) → EndsBy b k → EndsBy b (live now k)
unfolding live live_until
live-EndsBy b now none e = tt
live-EndsBy b now (some e) h = ground arith

renew_set-EndsBy :
    (b now owner timeout : ℕ) (env : RenewEnv) (k : Key)
    → (env.set_ran ≡ true → expire_of now timeout ≤ b)
    → EndsBy b k
    → EndsBy b (renew_set env owner timeout now k)
unfolding renew_set
renew_set-EndsBy b now owner timeout env k le e = elim (Bool-cases env.set_ran) [
  | inl runs ↦ ground (arith, runs, le runs)
  | inr fails ↦ ground (arith, fails, e)
]

renew_expire-EndsBy :
    (b now : ℕ) (env : RenewEnv) (k : Key) → EndsBy b k → EndsBy b (renew_expire env now k)
unfolding renew_expire with_deadline
renew_expire-EndsBy b now env k e = elim (Option-cases (live now k)) [
  | inl gone ↦ ground (arith, gone)
  | inr (_, there) ↦ ground (arith, there, live-EndsBy b now k e)
]

acquire_lock-EndsBy :
    (b now owner timeout : ℕ) (ran : Bool) (k : Key)
    → let (granted, k') = acquire_lock ran owner timeout now k in
      (granted ≡ true → expire_of now timeout ≤ b) → EndsBy b k → EndsBy b k'
unfolding acquire_lock acquire_script fresh
acquire_lock-EndsBy b now owner timeout false k h e = e
acquire_lock-EndsBy b now owner timeout true k h e = elim (Option-cases (live now k)) [
  | inl gone ↦ let below = (rw gone at h) refl in rw gone below
  | inr (v, there) ↦ elim (Bool-cases (ltb v.expire_ts now)) [
    | inl lapsed ↦ let below = (rw (there, lapsed) at h) refl in rw (there, lapsed) below
    | inr holds ↦ rw (there, holds) e
  ]
]

perform-EndsBy :
    (b now : ℕ) (c : Call) (k : Key)
    → WritesBelow b now c (perform now c k).0
    → EndsBy b k
    → EndsBy b (perform now c k).1
unfolding perform renew_lock release_lock force_release release_script force_script
perform-EndsBy b now (acquires ran owner timeout) k h e =
    acquire_lock-EndsBy b now owner timeout ran k h e
perform-EndsBy b now (releases ran owner) k h e = elim (Option-cases (live now k)) [
  | inl gone ↦ ground (arith, gone)
  | inr (_, there) ↦ ground (arith, there)
]
perform-EndsBy b now (renews env owner timeout) k h e =
    elim (Bool-cases (renew_read env owner now k)) [
      | inr other ↦ rw other e
      | inl mine ↦
          let below : env.set_ran ≡ true → expire_of now timeout ≤ b = (rw mine at h) refl in
          rw mine
            (renew_expire-EndsBy b now env _ (renew_set-EndsBy b now owner timeout env k below e))
    ]
perform-EndsBy b now (forces ran) k h e = elim (Option-cases (live now k)) [
  | inl gone ↦ ground (arith, gone)
  | inr (_, there) ↦ ground (arith, there)
]

run-EndsBy :
    (b : ℕ) (cs : List (ℕ × Call)) (k : Key) → AllBelow b cs k → EndsBy b k → EndsBy b (run cs k)
unfolding run
run-EndsBy b [] k h e = e
run-EndsBy b (c ∷ cs) k h e =
    run-EndsBy b cs (perform c.0 c.1 k).1 h.1 (perform-EndsBy b c.0 c.1 k h.0 e)

EndsBy→IsFree : (b now : ℕ) (k : Key) → b < now → EndsBy b k → IsFree now (lease k)
EndsBy→IsFree b now none lt e = tt
EndsBy→IsFree b now (some e) lt le = ground (arith, until_of_le e e.deadline)

-- Whoever stops without releasing, and whatever commands fail: once `b` is past, which neither the value
-- that the key had nor one that a granted acquisition or a renewal whose SET ran wrote into it exceeds,
-- one second and the timeout after the call, the next acquisition that Redis runs is granted. Calls that
-- are refused do not count.
pub abandoned_lock_frees :
    (b now owner timeout : ℕ) (cs : List (ℕ × Call)) (k : Key)
    → EndsBy b k
    → AllBelow b cs k
    → b < now
    → (acquire_lock true owner timeout now (run cs k)).0 ≡ true
abandoned_lock_frees b now owner timeout cs k e h lt =
    elim (acquire_cases now owner timeout true (run cs k)) [
      | inl (_, _, granted, _) ↦ granted
      | inr (busy, _, _) ↦
          absurd (busy refl (EndsBy→IsFree b now (run cs k) lt (run-EndsBy b cs k h e)))
    ]

turn_granted :
    (timeout wait start : ℕ) (t : Try) (turns : List Try) (k : Key)
    → t.tested_at - start < wait
    → (acquire_lock t.ran t.owner timeout t.acquired_at k).0 ≡ true
    → (acquire_with_wait timeout wait start (t ∷ turns) k).0 ≡ some t.owner
unfolding acquire_with_wait
turn_granted timeout wait start t turns k lt granted = ground (arith, granted)

turn_refused :
    (timeout wait start : ℕ) (t : Try) (turns : List Try) (k : Key)
    → t.tested_at - start < wait
    → (acquire_lock t.ran t.owner timeout t.acquired_at k).0 ≡ false
    → (acquire_lock t.ran t.owner timeout t.acquired_at k).1 ≡ k
    → acquire_with_wait timeout wait start (t ∷ turns) k
      ≡ acquire_with_wait timeout wait start turns k
unfolding acquire_with_wait
turn_refused timeout wait start t turns k lt refused same = ground (arith, refused, same)

-- The turns of a waiting loop begin before the waiting time is over, and the last one asks a Redis that
-- runs the command, when the lease that the loop found has run out.
abbrev pub Reaches : ℕ → ℕ → Key → List Try → Type 0
Reaches wait start k [] = ⊥
Reaches wait start k (t ∷ []) =
    (t.tested_at - start < wait) × (t.ran ≡ true) × IsFree t.acquired_at (lease k)
Reaches wait start k (t ∷ u ∷ turns) =
    (t.tested_at - start < wait) × Reaches wait start k (u ∷ turns)

-- Such a loop ends with the lock.
pub acquire_with_wait_ends :
    (timeout wait start : ℕ) (turns : List Try) (k : Key)
    → Reaches wait start k turns
    → (owner : ℕ) × ((acquire_with_wait timeout wait start turns k).0 ≡ some owner)
acquire_with_wait_ends timeout wait start [] k r = absurd r
acquire_with_wait_ends timeout wait start (t ∷ []) k r =
    elim (acquire_cases t.acquired_at t.owner timeout t.ran k) [
      | inl (_, _, granted, _) ↦ (t.owner, turn_granted timeout wait start t [] k r.0 granted)
      | inr (busy, _, _) ↦ absurd (busy r.1 r.2)
    ]
acquire_with_wait_ends timeout wait start (t ∷ u ∷ turns) k r =
    elim (acquire_cases t.acquired_at t.owner timeout t.ran k) [
      | inl (_, _, granted, _) ↦
          (t.owner, turn_granted timeout wait start t (u ∷ turns) k r.0 granted)
      | inr (_, refused, same) ↦
          let (owner, e) = acquire_with_wait_ends timeout wait start (u ∷ turns) k r.1 in
          (
            owner,
            ap (λ x. x.0) (turn_refused timeout wait start t (u ∷ turns) k r.0 refused same) ∙ e,
          )
    ]
