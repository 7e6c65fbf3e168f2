-- ===== src/Breaker/Cycle.antt =====
-- The cycle of states in the comment of backend/src/cps/circuit_breaker.py.
use gaking.Base.{
  ℕ, suc, ◌+◌, ◌≤◌, ◌<◌, ◌≡◌, refl, ◌↔◌, true, false, none, some, List, [], ◌∷◌, arith,
}
use gaking.Breaker.Circuit.{
  closed, open_state, Keys, Settings, get_state, allow_request, record_success, record_failure,
  reset, count_of,
}

-- An open circuit rejects a request exactly until the recovery time has passed since it opened.
pub allow_request_open :
    (c : Settings) (now at : ℕ) (k : Keys)
    → k.state ≡ some open_state
    → k.opened_at ≡ some at
    → ((allow_request c now k).0 ≡ false) ↔ (now < at + c.recovery_timeout)
unfolding allow_request
allow_request_open c now at k o a = ground arith

-- A success, in whatever state, closes the circuit and forgets the failures: the next request
-- passes, and so many failures as before the first opening are counted anew.
pub record_success_closes :
    (c : Settings) (now later : ℕ) (k : Keys)
    → let k' = record_success c now k in
      (get_state c later k' ≡ (closed, k'))
      × ((allow_request c later k').0 ≡ true)
      × (count_of k'.fail_count ≡ 0)
unfolding record_success allow_request count_of
record_success_closes c now later k = ground arith

-- A probe that fails after the recovery time opens the circuit again from that moment.
pub failed_probe_opens :
    (c : Settings) (now at : ℕ) (k : Keys)
    → k.state ≡ some open_state
    → k.opened_at ≡ some at
    → at + c.recovery_timeout ≤ now
    → let k' = record_failure c now k in (k'.state ≡ some open_state) × (k'.opened_at ≡ some now)
unfolding record_failure
failed_probe_opens c now at k o a le = ground arith

-- Failures one after another, at the given times.
unfoldable pub failures : Settings → List ℕ → Keys → Keys
failures c [] k = k
failures c (now ∷ later) k = failures c later (record_failure c now k)

abbrev pub length : List ℕ → ℕ
length [] = 0
length (x ∷ xs) = suc (length xs)

failures_counting :
    (c : Settings) (n : ℕ) (times : List ℕ) (k : Keys)
    → k.state ≡ none
    → count_of k.fail_count ≡ n
    → n + length times < c.failure_threshold
    → (failures c times k).state ≡ none
unfolding failures record_failure
failures_counting c n [] k s f lt = s
failures_counting c n (now ∷ times) k s f lt =
    failures_counting c (suc n) times (record_failure c now k) (ground arith) (ground arith)
      (omega arith)

failures_count :
    (c : Settings) (n : ℕ) (times : List ℕ) (k : Keys)
    → k.state ≡ none
    → count_of k.fail_count ≡ n
    → n + length times < c.failure_threshold
    → count_of (failures c times k).fail_count ≡ n + length times
unfolding failures record_failure count_of
failures_count c n [] k s f lt = omega arith
failures_count c n (now ∷ times) k s f lt = ground (
  arith,
  failures_count c (suc n) times (record_failure c now k) (ground arith) (ground arith)
      (omega arith),
)

-- From a reset circuit fewer failures than the threshold leave every request passing.
pub failures_below :
    (c : Settings) (times : List ℕ) (now : ℕ) (k : Keys)
    → length times < c.failure_threshold
    → (allow_request c now (failures c times (reset k))).0 ≡ true
unfolding allow_request reset count_of
failures_below c times now k lt =
    ground (arith, failures_counting c 0 times (reset k) refl refl (omega arith))

-- The failure that reaches the threshold opens the circuit, at its own time.
pub failure_at_threshold :
    (c : Settings) (times : List ℕ) (now : ℕ) (k : Keys)
    → suc (length times) ≡ c.failure_threshold
    → let k' = record_failure c now (failures c times (reset k)) in
      (k'.state ≡ some open_state) × (k'.opened_at ≡ some now)
unfolding record_failure reset count_of
failure_at_threshold c times now k e = ground (
  arith,
  failures_counting c 0 times (reset k) refl refl (omega arith),
  failures_count c 0 times (reset k) refl refl (omega arith),
)

-- Each time comes before the recovery time since the one before has passed.
abbrev pub IsDense : Settings → ℕ → List ℕ → Type 0
IsDense c at [] = Unit
IsDense c at (t ∷ ts) = (t < at + c.recovery_timeout) × IsDense c t ts

abbrev pub last_of : ℕ → List ℕ → ℕ
last_of at [] = at
last_of at (t ∷ ts) = last_of t ts

-- A failure that is recorded while the circuit is open starts the recovery time anew: under failures
-- that follow one another within it, the count being at the threshold, the circuit stays open and is
-- taken to have opened at the last of them.
pub failures_hold_open :
    (c : Settings) (at : ℕ) (times : List ℕ) (k : Keys)
    → k.state ≡ some open_state
    → k.opened_at ≡ some at
    → c.failure_threshold ≤ suc (count_of k.fail_count)
    → IsDense c at times
    → let k' = failures c times k in
      (k'.state ≡ some open_state) × (k'.opened_at ≡ some (last_of at times))
unfolding failures record_failure count_of
failures_hold_open c at [] k o a n d = (o, a)
failures_hold_open c at (t ∷ ts) k o a n d =
    failures_hold_open c t ts (record_failure c t k) (ground arith) (ground arith) (ground arith)
      d.1
