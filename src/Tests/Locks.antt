-- ===== src/Tests/Locks.antt =====
-- The theorems on backend/src/common/lock_util.py, at concrete inputs.
use gaking.Base.{◌≡◌, refl, sym, true, false, none, some, [], ◌∷◌, arith}
use gaking.Lock.Redis.{
  Key, RenewEnv, acquire_lock, release_lock, renew_read, renew_set, get_lock_owner, live,
  live_until, acquire_script, release_script, owns, owner_of, expire_of,
}
use gaking.Lock.Lease.{acquires, renews, releases, perform}
use gaking.Lock.Refinement.{true-false}
use gaking.Lock.Exclusion.{grants, run, acquire_lock-exclusive, renew_lock_overwrites}
use gaking.Lock.Abandoned.{abandoned_lock_frees}

-- the key that owner 5 took at 1000 for ten seconds
abbrev taken : Key
taken = some (record { owner = 5; expire_ts = 11001000; deadline = some 10001000 })

abbrev runs : RenewEnv
runs = record { jittered = 12; get_ran = true; set_ran = true; expire_ran = true }

acquire_lock-exclusive_example :
    grants
      ((2000, acquires true 6 10)
        ∷ (3000, renews runs 5 10)
        ∷ (3500, renews runs 6 1)
        ∷ (4000, releases true 6)
        ∷ [])
      (acquire_lock true 5 10 1000 none).1
    ≡ 0
unfolding acquire_lock live acquire_script
acquire_lock-exclusive_example =
    acquire_lock-exclusive true 5 10 1000
      ((2000, acquires true 6 10)
        ∷ (3000, renews runs 5 10)
        ∷ (3500, renews runs 6 1)
        ∷ (4000, releases true 6)
        ∷ [])
      none refl
      (
        omega arith,
        (
          (omega arith, (λ e. (omega arith, omega arith))),
          (
            (omega arith, (λ e. absurd (omega (arith, e)))),
            ((omega arith, (λ e. omega (arith, e))), tt),
          ),
        ),
      )

renew_lock_overwrites_example :
    let k' = renew_set runs 5 10 10001002 (acquire_lock true 6 10 10001001 taken).1 in
    (get_lock_owner true 10001002 k' ≡ some 5) × (release_lock true 6 10001003 k' ≡ (false, k'))
unfolding renew_read owns get_lock_owner owner_of live live_until acquire_lock acquire_script
renew_lock_overwrites_example =
    renew_lock_overwrites runs 5 6 10 2000 10001001 10001002 10001003 taken refl refl refl
      (λ e. omega (arith, e))

abandoned_lock_frees_example :
    (acquire_lock true 6 10 11002001 (
      run
        ((1000, acquires true 5 10) ∷ (2000, acquires true 7 90) ∷ (3000, releases true 7) ∷ [])
        none)).0
    ≡ true
unfolding expire_of perform acquire_lock live acquire_script live_until release_lock release_script
abandoned_lock_frees_example =
    abandoned_lock_frees 11002000 11002001 6 10
      ((1000, acquires true 5 10) ∷ (2000, acquires true 7 90) ∷ (3000, releases true 7) ∷ []) none
      tt ((λ granted. omega arith), ((λ granted. absurd (true-false (sym granted))), (tt, tt)))
      (omega arith)
