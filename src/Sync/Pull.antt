-- ===== src/Sync/Pull.antt =====
-- `pull_channel_orders` and `_pull_with_retry` of
-- backend/src/services/order_sync_service.py for one channel. A failed window stays in the queue of the
-- channel; the log and the details of a round are not modelled, and Redis runs every command.
use gaking.Base.{
  ℕ, zero, suc, ◌+◌, ◌-◌, ◌*◌, Bool, true, false, Option, none, some, List, [], ◌∷◌, leb,
  if◌then◌else◌,
}
use gaking.Breaker.Circuit.{BreakerState, open_state, Keys, default_settings, get_state}
use gaking.Store.Session.{Session, Result, ok, err}
use gaking.Attribution.Engine.{Strategy}
use gaking.Sync.Windows.{Window, split_time_windows}
use gaking.Sync.Persist.{OrderDto, persist_orders, size}
use Prim.Native.String.{String}

-- The session, and the keys of the channel in Redis: its breaker, the cursor, the queue of the windows
-- that failed, the newest first.
pub record SyncState : Type 0 where
  pub session : Session
  pub breaker : Keys
  pub cursor : Option ℕ
  pub failed_queue : List Window

-- What an adapter answers to a window at an attempt, none where it raises.
abbrev pub Adapter : Type 0
Adapter = Window → ℕ → Option (List OrderDto)

unfoldable pub answer_or : Option (List OrderDto) → Option (List OrderDto) → Option (List OrderDto)
answer_or none later = later
answer_or (some orders) later = some orders

-- so many attempts, counted from 1
unfoldable pub attempts : Adapter → Window → ℕ → ℕ → Option (List OrderDto)
unfolding answer_or
attempts pull w zero from = none
attempts pull w (suc n) from = answer_or (pull w from) (attempts pull w n (suc from))

-- TASK_ORDER_SYNC_MAX_RETRY attempts
unfoldable pub pull_attempts : Adapter → Window → Option (List OrderDto)
unfolding attempts
pull_attempts pull w = attempts pull w 3 1

unfoldable pub queued : Option (List OrderDto) → Window → SyncState → SyncState
queued none w s = record s { failed_queue = w ∷ s.failed_queue }
queued (some orders) w s = s

-- `_pull_with_retry`
unfoldable pub pull_with_retry : Adapter → Window → SyncState → Option (List OrderDto) × SyncState
unfolding queued
pull_with_retry pull w s = let answer = pull_attempts pull w in (answer, queued answer w s)

pub data Status : Type 0 where
  success skipped failed partial : Status

pub record Report : Type 0 where
  pub status : Status
  pub windows_total : ℕ
  pub pulled_count : ℕ
  pub inserted_count : ℕ
  pub updated_count : ℕ
  pub failed_count : ℕ
  pub last_cursor : Option ℕ

abbrev pub ended : Status → Option ℕ → Report
ended status cursor = record {
  status = status;
  windows_total = 0;
  pulled_count = 0;
  inserted_count = 0;
  updated_count = 0;
  failed_count = 0;
  last_cursor = cursor;
}

-- The clock, and whether AdapterFactory has an adapter for the channel.
pub record PullEnv : Type 0 where
  pub now : ℕ
  pub supported : Bool

-- TASK_ORDER_SYNC_INITIAL_LOOKBACK_MINUTES
unfoldable pub cursor_time : ℕ → Option ℕ → ℕ
cursor_time now none = now - 60 * 60
cursor_time now (some at) = at

unfoldable pub take : ℕ → List Window → List Window
take zero ws = []
take (suc n) [] = []
take (suc n) (w ∷ ws) = w ∷ take n ws

unfoldable pub is_open : BreakerState → Bool
is_open open_state = true
is_open _ = false

module _ (strip : String → String) (strategies : List Strategy) (channel_code : String)
    (pull : Adapter) where
  -- The totals of a round so far; a window that fails ends it.
  unfoldable pub stored :
      Window
      → List OrderDto
      → Result (ℕ × ℕ)
      → Session
      → Report
      → SyncState
      → Bool × Report × SyncState
  stored w orders (ok counts) session r s = (
    true,
    record r {
      pulled_count = r.pulled_count + size orders;
      inserted_count = r.inserted_count + counts.0;
      updated_count = r.updated_count + counts.1;
      last_cursor = some w.1;
    },
    record s { session = session; cursor = some w.1 },
  )
  stored w orders (err e) session r s = (
    false,
    record r { pulled_count = r.pulled_count + size orders; failed_count = suc r.failed_count },
    record s { session = session },
  )

  unfoldable pub answered :
      Window → Option (List OrderDto) → Report → SyncState → Bool × Report × SyncState
  unfolding stored
  answered w none r s = (false, record r { failed_count = suc r.failed_count }, s)
  answered w (some orders) r s =
      let (counts, session) = persist_orders strip strategies channel_code orders s.session in
      stored w orders counts session r s

  -- the body of the loop over the windows: whether it goes on
  unfoldable pub pull_window : Window → Report → SyncState → Bool × Report × SyncState
  unfolding answered pull_with_retry
  pull_window w r s = let (answer, s') = pull_with_retry pull w s in answered w answer r s'

  unfoldable pub pull_windows : List Window → Report → SyncState → Report × SyncState
  pull_windows [] r s = (r, s)
  pull_windows (w ∷ ws) r s =
      let (goes_on, r', s') = pull_window w r s in
      let rest = pull_windows ws r' s' in if goes_on then rest else (r', s')

  unfoldable pub close : Report × SyncState → Report × SyncState
  close (r, s) = (record r { status = if leb 1 r.failed_count then partial else success }, s)

  -- steps 3 to 6
  unfoldable pub pull_since : PullEnv → ℕ → ℕ → SyncState → Report × SyncState
  unfolding close pull_windows
  pull_since env minutes at s =
      let ws = take 10 (split_time_windows at env.now minutes) in
      if env.supported
      then close (pull_windows ws (record (ended success (some at)) { windows_total = size ws }) s)
      else (record (ended failed none) { windows_total = size ws }, s)

  unfoldable pub pull_channel_orders : PullEnv → ℕ → SyncState → Report × SyncState
  unfolding pull_since is_open
  pull_channel_orders env minutes s =
      let (st, keys) = get_state default_settings env.now s.breaker in
      let s' = record s { breaker = keys } in
      let at = cursor_time env.now s.cursor in
      if is_open st
      then (ended skipped none, s')
      else (if leb env.now at then (ended skipped (some at), s') else pull_since env minutes at s')
