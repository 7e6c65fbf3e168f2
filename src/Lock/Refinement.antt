-- ===== src/Lock/Refinement.antt =====
-- The calls of backend/src/common/lock_util.py do to the lease of a key what its specification lets
-- them do.
use gaking.Base.{
  ℕ, suc, ◌+◌, ◌*◌, ◌≤◌, Bool, true, false, Option, none, some, ◌≡◌, refl, sym, ap, ◌∙◌, ◌==◌, ◌&&◌,
  not, ltb, ◌⊎◌, ==_iff, arith, inl, inr, Option-cases, Bool-cases,
}
use gaking.Lock.Redis.{
  Entry, Key, second, RenewEnv, acquire_lock, release_lock, force_release, renew_lock, live,
  live_until, acquire_script, release_script, force_script, fresh, expire_of, owns, owner_of,
  with_deadline, renew_read, renew_set, renew_expire, get_lock_owner,
}
use gaking.Lock.Lease.{
  Call, acquires, releases, renews, forces, perform, lease, until_of, held_by, Move, take, refuse,
  give_back, keep, extend, lapse, seize, spare, IsFree, IsHeld, Renewed,
}

pub true-false : ¬ (true ≡ false)
true-false h = cc

-- Redis holds a key for as long as a lease of it lasts.
live-cases :
    (now : ℕ) (e : Entry)
    → (live now (some e) ≡ some e) ⊎ ((live now (some e) ≡ none) × (until_of e e.deadline ≤ now))
unfolding live live_until
live-cases now e = elim (Option-cases e.deadline) [
  | inl forever ↦ inl (ground (arith, forever))
  | inr (d, at) ↦ elim (Bool-cases (ltb now d)) [
    | inl before ↦ inl (ground (arith, at, before))
    | inr after ↦ inr (ground (arith, at, after))
  ]
]

pub acquire_cases :
    (now owner timeout : ℕ) (ran : Bool) (k : Key)
    → let (granted, k') = acquire_lock ran owner timeout now k in
      ((ran ≡ true)
        × IsFree now (lease k)
        × (granted ≡ true)
        × (lease k' ≡ some (record { holder = owner; until = now + timeout * second })))
      ⊎ ((ran ≡ true → ¬ IsFree now (lease k)) × (granted ≡ false) × (k' ≡ k))
unfolding acquire_lock live live_until acquire_script fresh expire_of
acquire_cases now owner timeout true none = inl (ground arith)
acquire_cases now owner timeout true (some e) = elim (Option-cases e.deadline) [
  | inl forever ↦ elim (Bool-cases (ltb e.expire_ts now)) [
    | inl lapsed ↦ inl (ground (arith, forever, lapsed))
    | inr holds ↦ inr (ground (arith, forever, holds))
  ]
  | inr (d, at) ↦ elim (Bool-cases (ltb now d && not (ltb e.expire_ts now))) [
    | inl holds ↦ inr (ground (arith, at, holds))
    | inr lapsed ↦ inl (ground (arith, at, lapsed))
  ]
]
acquire_cases now owner timeout false k = inr (ground arith)

release_cases :
    (now owner : ℕ) (ran : Bool) (k : Key)
    → let (freed, k') = release_lock ran owner now k in
      ((e : Entry) × ((ran ≡ true)
          × (k ≡ some e)
          × (e.owner ≡ owner)
          × (freed ≡ true)
          × (k' ≡ none)))
      ⊎ ((ran ≡ true → ¬ IsHeld now owner (lease k)) × (freed ≡ false) × (k' ≡ k))
unfolding release_lock live live_until release_script
release_cases now owner true none = inr (ground arith)
release_cases now owner true (some e) = elim (Option-cases e.deadline) [
  | inl forever ↦ elim (Bool-cases (e.owner == owner)) [
    | inl same ↦ inl (e, ground (arith, forever, same))
    | inr other ↦ inr (ground (arith, forever, other))
  ]
  | inr (d, at) ↦ elim (Bool-cases (ltb now d && (e.owner == owner))) [
    | inl same ↦ inl (e, ground (arith, at, same))
    | inr other ↦ inr (ground (arith, at, other))
  ]
]
release_cases now owner false k = inr (ground arith)

pub until_of_le : (e : Entry) (o : Option ℕ) → until_of e o ≤ suc e.expire_ts
until_of_le e none = omega arith
until_of_le e (some d) = ground arith

live-none : (now : ℕ) → live now none ≡ none
unfolding live
live-none now = refl

-- The three commands of a renewal, on a key that is there and the caller's.
renew_own :
    (now owner timeout : ℕ) (env : RenewEnv) (e : Entry)
    → live now (some e) ≡ some e
    → e.owner ≡ owner
    → (e' : Entry) × ((renew_expire env now (renew_set env owner timeout now (some e)) ≡ some e')
        × (e'.owner ≡ owner)
        × Renewed now env timeout (until_of e e.deadline) (until_of e' e'.deadline))
unfolding live_until renew_set renew_expire expire_of with_deadline
renew_own now owner timeout env e there same = elim (Bool-cases env.set_ran) [
  | inl a ↦ elim (Bool-cases env.expire_ran) [
    | inl b ↦ (
      record {
        owner = owner;
        expire_ts = expire_of now timeout;
        deadline = some (now + env.jittered * second);
      },
      (
        ground (arith, a, b),
        refl,
        (
          λ d x y z. ground (arith, x, y, z),
          λ _. ground arith,
          λ _. ground arith,
          λ no _. absurd (true-false (sym a ∙ no)),
        ),
      ),
    )
    | inr b ↦ (
      record { owner = owner; expire_ts = expire_of now timeout; deadline = none },
      (
        ground (arith, a, b),
        refl,
        (
          λ d x y z. ground (arith, x, y, z),
          λ _. ground arith,
          λ yes. absurd (true-false (sym yes ∙ b)),
          λ no _. absurd (true-false (sym a ∙ no)),
        ),
      ),
    )
  ]
  | inr a ↦ elim (Bool-cases env.expire_ran) [
    | inl b ↦ (
      record e { deadline = some (now + env.jittered * second) },
      (
        ground (arith, a, b, there),
        same,
        (
          λ d x y z. ground (arith, x, z, until_of_le e e.deadline),
          λ yes. absurd (true-false (sym yes ∙ a)),
          λ _. ground arith,
          λ _ no. absurd (true-false (sym b ∙ no)),
        ),
      ),
    )
    | inr b ↦ (
      e,
      (
        ground (arith, a, b),
        same,
        (
          λ d x y z. x,
          λ yes. absurd (true-false (sym yes ∙ a)),
          λ yes. absurd (true-false (sym yes ∙ b)),
          λ _ _. refl,
        ),
      ),
    )
  ]
]

renew_cases :
    (now owner timeout : ℕ) (env : RenewEnv) (k : Key)
    → let (renewed, k') = renew_lock env owner timeout now k in
      ((e : Entry) × (e' : Entry) × ((env.get_ran ≡ true)
          × (k ≡ some e)
          × (e.owner ≡ owner)
          × (renewed ≡ true)
          × (k' ≡ some e')
          × (e'.owner ≡ owner)
          × Renewed now env timeout (until_of e e.deadline) (until_of e' e'.deadline)))
      ⊎ ((env.get_ran ≡ true → ¬ IsHeld now owner (lease k)) × (renewed ≡ false) × (k' ≡ k))
unfolding renew_lock renew_read owns get_lock_owner owner_of
renew_cases now owner timeout env none = inr (ground arith)
renew_cases now owner timeout env (some e) = elim (Bool-cases env.get_ran) [
  | inr fails ↦ inr (ground (arith, fails))
  | inl ran ↦ elim (live-cases now e) [
    | inr (gone, past) ↦ inr (ground (arith, ran, gone, past))
    | inl there ↦ elim (Bool-cases (e.owner == owner)) [
      | inr other ↦ inr (ground (arith, ran, there, other))
      | inl same ↦
          let own = (==_iff _ _).0 same in
          let (e', after) = renew_own now owner timeout env e there own in
          inl (
            e,
            e',
            (
              ran,
              refl,
              own,
              ground (arith, ran, there, same),
              ground (arith, ran, there, same, after.0),
              after.1,
              after.2,
            ),
          )
    ]
  ]
]

holder-subst :
    (e : Entry) {owner : ℕ}
    → e.owner ≡ owner
    → lease (some e) ≡ held_by owner (until_of e e.deadline)
holder-subst e own = ap (λ o. held_by o (until_of e e.deadline)) own

force_cases :
    (now : ℕ) (ran : Bool) (k : Key)
    → let (deleted, k') = force_release ran now k in
      ((ran ≡ true) × (deleted ≡ true) × (k' ≡ none))
      ⊎ ((ran ≡ true → IsFree now (lease k)) × (deleted ≡ false) × (k' ≡ k))
unfolding force_release force_script
force_cases now false k = inr (ground arith)
force_cases now true none = inr (ground (arith, live-none now))
force_cases now true (some e) = elim (live-cases now e) [
  | inl there ↦ inl (ground (arith, there))
  | inr (gone, past) ↦ inr (ground (arith, gone, past))
]

pub perform-Move :
    (now : ℕ) (c : Call) (k : Key)
    → let (answer, k') = perform now c k in Move now (lease k) (lease k') answer c
unfolding perform
perform-Move now (acquires ran owner timeout) k = elim (acquire_cases now owner timeout ran k) [
  | inl (ran, f, a, l) ↦ take ran f a l
  | inr (f, a, same) ↦ refuse f a (ap lease same)
]
perform-Move now (releases ran owner) k = elim (release_cases now owner ran k) [
  | inl (e, (ran, was, own, a, gone)) ↦
      give_back ran (ap lease was ∙ holder-subst e own) a (ap lease gone)
  | inr (f, a, same) ↦ keep f a (ap lease same)
]
perform-Move now (renews env owner timeout) k = elim (renew_cases now owner timeout env k) [
  | inl (e, e', (got, was, own, a, is, own', longer)) ↦
      extend got (ap lease was ∙ holder-subst e own) a (ap lease is ∙ holder-subst e' own') longer
  | inr (f, a, same) ↦ lapse f a (ap lease same)
]
perform-Move now (forces ran) k = elim (force_cases now ran k) [
  | inl (ran, a, gone) ↦ seize ran a (ap lease gone)
  | inr (f, a, same) ↦ spare f a (ap lease same)
]
