-- ===== src/Lock/Lease.antt =====
-- The lock of backend/src/common/lock_util.py seen as a lease: who holds it, and until when.
use gaking.Base.{
  ℕ, suc, ◌+◌, ◌*◌, ◌≤◌, ◌<◌, Bool, true, false, Option, none, some, ◌≡◌, leb, if◌then◌else◌,
}
use gaking.Lock.Redis.{
  Entry, Key, second, RenewEnv, acquire_lock, release_lock, force_release, renew_lock, expire_of,
}

pub record Lease : Type 0 where
  pub holder : ℕ
  pub until : ℕ

abbrev pub min : ℕ → ℕ → ℕ
min a b = if leb a b then a else b

-- A value lapses just after its expire_ts, a key at its deadline.
abbrev pub until_of : Entry → Option ℕ → ℕ
until_of e none = suc e.expire_ts
until_of e (some d) = min d (suc e.expire_ts)

abbrev pub lease : Key → Option Lease
lease none = none
lease (some e) = some (record { holder = e.owner; until = until_of e e.deadline })

abbrev pub IsFree : ℕ → Option Lease → Type 0
IsFree now none = Unit
IsFree now (some l) = l.until ≤ now

abbrev pub IsHeld : ℕ → ℕ → Option Lease → Type 0
IsHeld now owner none = ⊥
IsHeld now owner (some l) = (l.holder ≡ owner) × (now < l.until)

-- A call of LockUtil on the key, with what its commands find in Redis.
pub data Call : Type 0 where
  acquires : Bool → ℕ → ℕ → Call
  releases : Bool → ℕ → Call
  renews : RenewEnv → ℕ → ℕ → Call
  forces : Bool → Call

unfoldable pub perform : ℕ → Call → Key → Bool × Key
perform now (acquires ran owner timeout) k = acquire_lock ran owner timeout now k
perform now (releases ran owner) k = release_lock ran owner now k
perform now (renews env owner timeout) k = renew_lock env owner timeout now k
perform now (forces ran) k = force_release ran now k

-- A renewal of a lease is none of less time than what was left, or than what was asked for.
abbrev pub Extends : ℕ → RenewEnv → ℕ → ℕ → ℕ → Type 0
Extends now env timeout old new =
    (d : ℕ) → d ≤ old → d ≤ now + timeout * second → d ≤ now + env.jittered * second → d ≤ new

-- The end of a renewed lease: as the commands that ran write it, and what it was if none did.
abbrev pub Renewed : ℕ → RenewEnv → ℕ → ℕ → ℕ → Type 0
Renewed now env timeout old new =
    Extends now env timeout old new
    × (env.set_ran ≡ true → new ≤ suc (expire_of now timeout))
    × (env.expire_ran ≡ true → new ≤ now + env.jittered * second)
    × (env.set_ran ≡ false → env.expire_ran ≡ false → new ≡ old)

abbrev pub held_by : ℕ → ℕ → Option Lease
held_by owner until = some (record { holder = owner; until = until })

-- What a call may do to a lease. An answer of yes needs a command that ran: it takes a lease that is not
-- there or has run out, ends or renews the caller's own, or deletes the one that is there. An answer of no
-- changes nothing; where the command ran, the lease to be taken has not run out, the one to be released or
-- renewed is not the caller's or has run out, and the one to be deleted is not there or has run out.
pub data Move (now : ℕ) (l m : Option Lease) (answer : Bool) : Call → Type 0 where
  take :
      {ran : Bool} {owner timeout : ℕ}
      → ran ≡ true
      → IsFree now l
      → answer ≡ true
      → m ≡ held_by owner (now + timeout * second)
      → Move now l m answer (acquires ran owner timeout)
  refuse :
      {ran : Bool} {owner timeout : ℕ}
      → (ran ≡ true → ¬ IsFree now l)
      → answer ≡ false
      → m ≡ l
      → Move now l m answer (acquires ran owner timeout)
  give_back :
      {ran : Bool} {owner until : ℕ}
      → ran ≡ true
      → l ≡ held_by owner until
      → answer ≡ true
      → m ≡ none
      → Move now l m answer (releases ran owner)
  keep :
      {ran : Bool} {owner : ℕ}
      → (ran ≡ true → ¬ IsHeld now owner l)
      → answer ≡ false
      → m ≡ l
      → Move now l m answer (releases ran owner)
  extend :
      {env : RenewEnv} {owner timeout old new : ℕ}
      → env.get_ran ≡ true
      → l ≡ held_by owner old
      → answer ≡ true
      → m ≡ held_by owner new
      → Renewed now env timeout old new
      → Move now l m answer (renews env owner timeout)
  lapse :
      {env : RenewEnv} {owner timeout : ℕ}
      → (env.get_ran ≡ true → ¬ IsHeld now owner l)
      → answer ≡ false
      → m ≡ l
      → Move now l m answer (renews env owner timeout)
  seize : {ran : Bool} → ran ≡ true → answer ≡ true → m ≡ none → Move now l m answer (forces ran)
  spare :
      {ran : Bool}
      → (ran ≡ true → IsFree now l)
      → answer ≡ false
      → m ≡ l
      → Move now l m answer (forces ran)
