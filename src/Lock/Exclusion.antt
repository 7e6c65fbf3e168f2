-- ===== src/Lock/Exclusion.antt =====
-- Histories of calls on one lock key of backend/src/common/lock_util.py.
use gaking.Base.{
  ℕ, suc, ◌+◌, ◌*◌, ◌≤◌, ◌<◌, Bool, true, false, Option, none, some, List, [], ◌∷◌, ◌≡◌, refl, ◌∙◌,
  sym, ◌≢◌, ◌&&◌, if◌then◌else◌, arith, inl, inr,
}
use gaking.Lock.Redis.{
  Key, second, RenewEnv, acquire_lock, release_lock, get_lock_owner, renew_read, renew_set, live,
  live_until, owner_of, release_script,
}
use gaking.Lock.Refinement.{perform-Move, acquire_cases, true-false}
use gaking.Lock.Lease.{
  Lease, Call, acquires, releases, renews, forces, perform, lease, held_by, Move, take, refuse,
  give_back, keep, extend, lapse, seize, spare,
}

-- The calls of all clients in the order in which Redis runs them, each with its time.
unfoldable pub run : List (ℕ × Call) → Key → Key
run [] k = k
run (c ∷ cs) k = run cs (perform c.0 c.1 k).1

is_acquire : Call → Bool
is_acquire (acquires ran owner timeout) = true
is_acquire _ = false

-- How many acquisitions of a history are granted.
unfoldable pub grants : List (ℕ × Call) → Key → ℕ
unfolding is_acquire
grants [] k = 0
grants (c ∷ cs) k =
    let (answer, k') = perform c.0 c.1 k in
    let rest = grants cs k' in if is_acquire c.1 && answer then suc rest else rest

-- A call before the time `d` that does not end the lease of `owner`: not its release, no force, and no
-- renewal by it that asks for a time, or gives the key one to live, that ends before `d`.
abbrev pub IsHarmless : ℕ → ℕ → ℕ × Call → Type 0
IsHarmless owner d (now, acquires ran other timeout) = now < d
IsHarmless owner d (now, releases ran other) = (now < d) × (other ≢ owner)
IsHarmless owner d (now, renews env other timeout) =
    (now < d) × (other ≡ owner → (d ≤ now + timeout * second) × (d ≤ now + env.jittered * second))
IsHarmless owner d (now, forces ran) = ⊥

abbrev pub AllHarmless : ℕ → ℕ → List (ℕ × Call) → Type 0
AllHarmless owner d [] = Unit
AllHarmless owner d (c ∷ cs) = IsHarmless owner d c × AllHarmless owner d cs

-- The lease of `owner` lasts until `d` at least.
abbrev pub Lasts : ℕ → ℕ → Option Lease → Type 0
Lasts owner d none = ⊥
Lasts owner d (some l) = (l.holder ≡ owner) × (d ≤ l.until)

Move-Lasts :
    (owner d now : ℕ) (c : Call) (l m : Option Lease) (answer : Bool)
    → Move now l m answer c
    → IsHarmless owner d (now, c)
    → Lasts owner d l
    → Lasts owner d m × ((is_acquire c && answer) ≡ false)
unfolding is_acquire
Move-Lasts owner d now c none m answer (take ran free a after) before held = absurd held
Move-Lasts owner d now c (some l) m answer (take ran free a after) before held =
    absurd (omega (arith, free, before, held.1))
Move-Lasts owner d now c l m answer (refuse busy a after) before held = (rw after held, rw a refl)
Move-Lasts owner d now c l m answer (give_back ran was a after) before held =
    let mine : Lasts owner d (held_by _ _) = rw was at held in (absurd (before.1 mine.0), refl)
Move-Lasts owner d now c l m answer (keep other a after) before held = (rw after held, refl)
Move-Lasts owner d now c l m answer (extend got was a after longer) before held =
    let mine : Lasts owner d (held_by _ _) = rw was at held in
    let ends = before.1 mine.0 in (rw after (mine.0, longer.0 d mine.1 ends.0 ends.1), refl)
Move-Lasts owner d now c l m answer (lapse other a after) before held = (rw after held, refl)
Move-Lasts owner d now c l m answer (seize ran a after) before held = absurd before
Move-Lasts owner d now c l m answer (spare free a after) before held = absurd before

-- While a lease lasts until `d`, calls before `d` that do not end it are granted no lock, whatever
-- commands fail, and leave the lease with its holder until `d` at least.
pub grants-Lasts :
    (owner d : ℕ) (cs : List (ℕ × Call)) (k : Key)
    → AllHarmless owner d cs
    → Lasts owner d (lease k)
    → (grants cs k ≡ 0) × Lasts owner d (lease (run cs k))
unfolding grants run
grants-Lasts owner d [] k h held = (refl, held)
grants-Lasts owner d (c ∷ cs) k h held =
    let k' = (perform c.0 c.1 k).1 in
    let step =
      Move-Lasts owner d c.0 c.1 (lease k) (lease k') _ (perform-Move c.0 c.1 k) h.0 held in
    let rest = grants-Lasts owner d cs k' h.1 step.0 in (rw step.1 rest.0, rest.1)

-- A lock that was granted is granted to nobody else before its timeout, whatever calls follow until then
-- and whatever commands fail: unless one forces it, or its owner releases it, or renews it by a time, the
-- seconds asked for or those that the key is given to live, that is over before that timeout.
pub acquire_lock-exclusive :
    (ran : Bool) (owner timeout now : ℕ) (cs : List (ℕ × Call)) (k : Key)
    → (acquire_lock ran owner timeout now k).0 ≡ true
    → AllHarmless owner (now + timeout * second) cs
    → grants cs (acquire_lock ran owner timeout now k).1 ≡ 0
acquire_lock-exclusive ran owner timeout now cs k granted h =
    elim (acquire_cases now owner timeout ran k) [
      | inl (_, _, _, given) ↦ (grants-Lasts owner _ cs _ h (rw given (refl, omega arith))).0
      | inr (_, refused, _) ↦ absurd (true-false (sym granted ∙ refused))
    ]

-- Between the GET of a renewal and its SET the lease may end and go to somebody else: the SET takes the
-- lock back, and the new holder, who was granted it, cannot release it.
pub renew_lock_overwrites :
    (env : RenewEnv) (mine yours timeout read_at granted_at set_at later : ℕ) (k : Key)
    → renew_read env mine read_at k ≡ true
    → (acquire_lock true yours timeout granted_at k).0 ≡ true
    → env.set_ran ≡ true
    → mine ≢ yours
    → let k' = renew_set env mine timeout set_at (acquire_lock true yours timeout granted_at k).1 in
      (get_lock_owner true set_at k' ≡ some mine) × (release_lock true yours later k' ≡ (false, k'))
unfolding renew_set get_lock_owner owner_of live live_until release_lock release_script
renew_lock_overwrites env mine yours timeout read_at granted_at set_at later k read granted ran ne =
    ground (arith, ran, ne)
