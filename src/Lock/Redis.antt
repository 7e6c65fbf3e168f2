-- ===== src/Lock/Redis.antt =====
-- backend/src/common/lock_util.py: the operations on one lock key in Redis. Times are counts of
-- microseconds on one clock, that of the clients and of Redis. An owner is a uuid: it has no colon,
-- so that the value "{owner}:{expire}" is read back as the pair that was written.
use gaking.Base.{
  ℕ, ◌+◌, ◌-◌, ◌*◌, ◌/◌, Bool, true, false, Option, none, some, List, [], ◌∷◌, ◌==◌, ltb,
  if◌then◌else◌,
}

-- The value of the key, and when Redis drops it: never, while no EXPIRE has been set.
pub record Entry : Type 0 where
  pub owner : ℕ
  pub expire_ts : ℕ
  pub deadline : Option ℕ

abbrev pub Key : Type 0
Key = Option Entry

abbrev pub second : ℕ
second = 1000000

-- What Redis answers at a time: a key past its deadline is gone.
unfoldable pub live_until : ℕ → Entry → Option ℕ → Key
live_until now e none = some e
live_until now e (some d) = if ltb now d then some e else none

unfoldable pub live : ℕ → Key → Key
unfolding live_until
live now none = none
live now (some e) = live_until now e e.deadline

-- `now + timeout_sec + 1`
unfoldable pub expire_of : ℕ → ℕ → ℕ
expire_of now timeout = now + timeout * second + second

unfoldable pub fresh : ℕ → ℕ → ℕ → Entry
unfolding expire_of
fresh owner timeout now = record {
  owner = owner;
  expire_ts = expire_of now timeout;
  deadline = some (now + timeout * second);
}

-- _LOCK_ACQUIRE_LUA, on what GET answers; the third argument is the key as it is
unfoldable pub acquire_script : ℕ → ℕ → ℕ → Key → Key → Bool × Key
unfolding fresh
acquire_script owner timeout now none k = (true, some (fresh owner timeout now))
acquire_script owner timeout now (some e) k =
    if ltb e.expire_ts now then (true, some (fresh owner timeout now)) else (false, k)

-- `acquire_lock`. `ran` is false when the command fails, which RedisClient.eval_script answers with
-- None; here and below the owner is the result when it is true.
unfoldable pub acquire_lock : Bool → ℕ → ℕ → ℕ → Key → Bool × Key
unfolding acquire_script live
acquire_lock ran owner timeout now k =
    if ran then acquire_script owner timeout now (live now k) k else (false, k)

-- _LOCK_RELEASE_LUA
unfoldable pub release_script : ℕ → Key → Key → Bool × Key
release_script owner none k = (false, k)
release_script owner (some e) k = if e.owner == owner then (true, none) else (false, k)

unfoldable pub release_lock : Bool → ℕ → ℕ → Key → Bool × Key
unfolding release_script live
release_lock ran owner now k = if ran then release_script owner (live now k) k else (false, k)

-- `force_release`: what `delete` counts, and 0 when it fails
unfoldable pub force_script : Key → Key → Bool × Key
force_script none k = (false, k)
force_script (some e) k = (true, none)

unfoldable pub force_release : Bool → ℕ → Key → Bool × Key
unfolding force_script live
force_release ran now k = if ran then force_script (live now k) k else (false, k)

unfoldable pub owner_of : Key → Option ℕ
owner_of none = none
owner_of (some e) = some e.owner

-- `get_lock_owner`, and the GET that `renew_lock` starts with
unfoldable pub get_lock_owner : Bool → ℕ → Key → Option ℕ
unfolding owner_of live
get_lock_owner ran now k = if ran then owner_of (live now k) else none

unexpired : ℕ → Key → Bool
unexpired now none = false
unexpired now (some e) = ltb now e.expire_ts

unfoldable pub is_locked : Bool → ℕ → Key → Bool
unfolding unexpired live
is_locked ran now k = if ran then unexpired now (live now k) else false

remaining_of : ℕ → Key → ℕ
remaining_of now none = 0
remaining_of now (some e) = (e.expire_ts - now) / second

-- `get_remaining_time`: `max(0, …)` is the subtraction on ℕ
unfoldable pub get_remaining_time : Bool → ℕ → Key → ℕ
unfolding remaining_of live
get_remaining_time ran now k = if ran then remaining_of now (live now k) else 0

-- What the three commands of a renewal find: the seconds that `_jitter_ttl` makes of the timeout, and
-- whether each command runs. GET that fails answers None; SET and EXPIRE that fail answer False,
-- which `renew_lock` does not look at.
pub record RenewEnv : Type 0 where
  pub jittered : ℕ
  pub get_ran : Bool
  pub set_ran : Bool
  pub expire_ran : Bool

-- `existing_owner == lock_owner`
unfoldable pub owns : ℕ → Option ℕ → Bool
owns owner none = false
owns owner (some o) = o == owner

unfoldable pub renew_read : RenewEnv → ℕ → ℕ → Key → Bool
unfolding owns get_lock_owner
renew_read env owner now k = owns owner (get_lock_owner env.get_ran now k)

-- SET without a time to live takes that of the key away
unfoldable pub renew_set : RenewEnv → ℕ → ℕ → ℕ → Key → Key
unfolding expire_of
renew_set env owner timeout now k =
    if env.set_ran
    then some (record { owner = owner; expire_ts = expire_of now timeout; deadline = none })
    else k

unfoldable pub with_deadline : ℕ → Key → Key
with_deadline d none = none
with_deadline d (some e) = some (record e { deadline = some d })

unfoldable pub renew_expire : RenewEnv → ℕ → Key → Key
unfolding with_deadline live
renew_expire env now k =
    if env.expire_ran then with_deadline (now + env.jittered * second) (live now k) else k

-- `renew_lock`, no other client's command coming between its own
unfoldable pub renew_lock : RenewEnv → ℕ → ℕ → ℕ → Key → Bool × Key
unfolding renew_read renew_set renew_expire
renew_lock env owner timeout now k =
    if renew_read env owner now k
    then (true, renew_expire env now (renew_set env owner timeout now k))
    else (false, k)

-- One turn of a waiting loop: the time of its test, and the acquisition under a new uuid.
pub record Try : Type 0 where
  pub tested_at : ℕ
  pub ran : Bool
  pub owner : ℕ
  pub acquired_at : ℕ

-- `acquire_with_wait`: the turns that the clock lets the loop make, the waiting time in microseconds
unfoldable pub acquire_with_wait : ℕ → ℕ → ℕ → List Try → Key → Option ℕ × Key
unfolding acquire_lock
acquire_with_wait timeout wait start [] k = (none, k)
acquire_with_wait timeout wait start (t ∷ turns) k =
    let (granted, k') = acquire_lock t.ran t.owner timeout t.acquired_at k in
    let rest = acquire_with_wait timeout wait start turns k' in
    if ltb (t.tested_at - start) wait
    then (if granted then (some t.owner, k') else rest)
    else (none, k)
