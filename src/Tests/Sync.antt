-- ===== src/Tests/Sync.antt =====
-- The theorems on backend/src/services/order_sync_service.py and services/attribution, at concrete inputs.
use gaking.Base.{ℕ, List, ◌≡◌, refl, true, false, none, some, [], ◌∷◌, arith}
use gaking.Store.Session.{Session}
use gaking.Store.Types.{ClickLog, Order, WithdrawStatus, TransferStatus}
use gaking.Attribution.Engine.{
  Sought, default_strategies, resolve_user, is_matched, short_link, find_recent_clicks, is_recent,
  cutoff_of, is_empty,
}
use gaking.Attribution.EngineLaws.{IsLastClick, resolve_user-IsLastClick}
use gaking.Sync.Windows.{Tiles, split_time_windows, split_time_windows-Tiles, window_seconds}
use gaking.Sync.Persist.{OrderDto, sought_of, has_no}
use gaking.Sync.Pull.{
  SyncState, Adapter, PullEnv, ended, success, cursor_time, pull_channel_orders, pull_window,
}
use gaking.Sync.PullLaws.{Passes, pull_channel_orders-Passes, pull_window_loses}
use gaking.Sync.Retry.{manual_retry_failed, IsKept, manual_retry_failed-IsKept}
use mathlib.Core.List.Memᴰ
use gaking.Tests.Data.{session_of, tables_of, order_of, fresh_keys}
use Prim.Native.String.{String}

abbrev click : ℕ → ℕ → ClickLog
click u t = record {
  goods_id = "G1";
  source_channel = "dta";
  user_id = u;
  short_key = "k";
  access_time = t;
}

abbrev clicks : List ClickLog
clicks = click 7 900 ∷ click 9 800 ∷ []

abbrev sought : Sought
sought = record { out_order_no = "N1"; goods_id = "G1"; channel_code = "dta"; pay_time = none }

abbrev order : OrderDto
order = record {
  origin_order_id = "N1";
  goods_id = "G1";
  order_status = "2";
  total_commission = 1000;
  pay_time = some 500;
  settle_time = none;
}

abbrev strip : String → String
strip v = v

-- a channel that reports the order in every window
abbrev pull : Adapter
pull w n = some (order ∷ [])

resolve_user-IsLastClick_example :
    let m = resolve_user (default_strategies clicks 1000) sought in
    (c : ClickLog) × (IsLastClick sought 1000 clicks c × (m.user_id ≡ c.user_id))
unfolding is_matched resolve_user default_strategies short_link find_recent_clicks is_recent
    cutoff_of
resolve_user-IsLastClick_example = resolve_user-IsLastClick clicks 1000 sought refl

split_time_windows-Tiles_example :
    Tiles (window_seconds 30) 100 5000 (split_time_windows 100 5000 30)
split_time_windows-Tiles_example = split_time_windows-Tiles 100 5000 30 (omega arith)

-- with one order
abbrev start : Session
start = session_of (record (tables_of WithdrawStatus.pending 20 TransferStatus.pending) {
  orders = (8, order_of 20) ∷ [];
  next_order = 9;
})

-- the order that is there and a new one
abbrev batch : List Order
batch = order_of 30 ∷ record (order_of 30) { out_order_no = "O10" } ∷ []

abbrev state : SyncState
state = record { session = start; breaker = fresh_keys; cursor = some 100; failed_queue = [] }

abbrev pull_env : PullEnv
pull_env = record { now = 5000; supported = true }

pull_channel_orders-Passes_example :
    Passes pull
      (split_time_windows 100 5000 30)
      (pull_channel_orders strip
        (default_strategies clicks 1000)
        "dta"
        pull
        pull_env
        30
        state).1.cursor
unfolding cursor_time
pull_channel_orders-Passes_example =
    pull_channel_orders-Passes strip (default_strategies clicks 1000) "dta" pull pull_env 30 state
      (omega arith)

-- a session the next commit of which fails
abbrev failing : SyncState
failing = record state { session = record start { faults = false ∷ [] } }

pull_window_loses_example :
    let s' =
      (pull_window strip
        (default_strategies clicks 1000)
        "dta"
        pull
        (100, 1900)
        (ended success (some 100))
        failing).2 in
    (s'.cursor ≡ some 1900) × (s'.failed_queue ≡ []) × (s'.session.committed ≡ start.committed)
unfolding is_empty has_no is_matched resolve_user default_strategies short_link sought_of
    find_recent_clicks is_recent cutoff_of
pull_window_loses_example =
    pull_window_loses strip (default_strategies clicks 1000) "dta" pull (100, 1900) order []
      (ended success (some 100)) failing refl refl refl refl refl

-- two windows in the queue
abbrev queued_state : SyncState
queued_state = record state { failed_queue = (100, 1900) ∷ (1900, 3700) ∷ [] }

manual_retry_failed-IsKept_example :
    IsKept strip
      (default_strategies clicks 1000)
      "dta"
      pull
      (100, 1900)
      (manual_retry_failed strip (default_strategies clicks 1000) "dta" pull true 10 queued_state).1
manual_retry_failed-IsKept_example =
    manual_retry_failed-IsKept strip (default_strategies clicks 1000) "dta" pull true 10 (100, 1900)
      queued_state (Memᴰ.head refl)
