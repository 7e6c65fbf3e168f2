-- ===== src/Breaker/Circuit.antt =====
-- backend/src/cps/circuit_breaker.py for one channel_code. The three Redis keys of the channel are
-- the state; a key that has expired is absent. Times are whole seconds.
use gaking.Base.{ℕ, suc, ◌+◌, Bool, true, false, Option, none, some, leb, if◌then◌else◌}

pub data BreakerState : Type 0 where
  closed open_state half_open : BreakerState

pub record Keys : Type 0 where
  pub state : Option BreakerState
  pub fail_count : Option ℕ
  pub opened_at : Option ℕ

-- the constructor's parameters; the time to live only makes keys absent
pub record Settings : Type 0 where
  pub failure_threshold : ℕ
  pub recovery_timeout : ℕ

-- FAILURE_THRESHOLD and RECOVERY_TIMEOUT
abbrev pub default_settings : Settings
default_settings = record { failure_threshold = 5; recovery_timeout = 30 }

-- `time.time() - opened_at >= recovery_timeout`
unfoldable pub recovered : Settings → ℕ → Option ℕ → Bool
recovered c now none = false
recovered c now (some at) = leb (at + c.recovery_timeout) now

state_of : Settings → ℕ → Keys → Option BreakerState → BreakerState × Keys
unfolding recovered
state_of c now k none = (closed, k)
state_of c now k (some open_state) =
    if recovered c now k.opened_at
    then (half_open, record k { state = some half_open })
    else (open_state, k)
state_of c now k (some st) = (st, k)

unfoldable pub get_state : Settings → ℕ → Keys → BreakerState × Keys
unfolding state_of
get_state c now k = state_of c now k k.state

unfoldable pub lets_pass : BreakerState → Bool
lets_pass open_state = false
lets_pass _ = true

unfoldable pub allow_request : Settings → ℕ → Keys → Bool × Keys
unfolding get_state lets_pass
allow_request c now k = let (st, k') = get_state c now k in (lets_pass st, k')

unfoldable pub record_success : Settings → ℕ → Keys → Keys
unfolding get_state
record_success c now k =
    let (st, k') = get_state c now k in
    record k' { state = some closed; fail_count = none; opened_at = none }

-- `_open`
unfoldable pub open_circuit : ℕ → Keys → Keys
open_circuit now k = record k { state = some open_state; opened_at = some now }

unfoldable pub count_of : Option ℕ → ℕ
count_of none = 0
count_of (some n) = n

failure_in : Settings → ℕ → BreakerState → Keys → Keys
unfolding open_circuit count_of
failure_in c now half_open k = open_circuit now k
failure_in c now _ k =
    let count = suc (count_of k.fail_count) in
    let k' = record k { fail_count = some count } in
    if leb c.failure_threshold count then open_circuit now k' else k'

unfoldable pub record_failure : Settings → ℕ → Keys → Keys
unfolding get_state failure_in
record_failure c now k = let (st, k') = get_state c now k in failure_in c now st k'

unfoldable pub reset : Keys → Keys
reset k = record { state = none; fail_count = none; opened_at = none }
