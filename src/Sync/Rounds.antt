-- ===== src/Sync/Rounds.antt =====
-- `pull_all_channels` and `manual_sync_channel` of backend/src/services/order_sync_service.py. Redis runs
-- every command, so that the round of a channel raises nothing.
use gaking.Base.{ℕ, ◌+◌, Bool, true, false, Option, List, [], ◌∷◌, ◌≤◌, if◌then◌else◌}
use gaking.Breaker.Circuit.{Keys}
use gaking.Store.Session.{Session}
use gaking.Attribution.Engine.{Strategy}
use gaking.Sync.Windows.{Window, split_time_windows}
use gaking.Sync.Persist.{or_else}
use gaking.Sync.Pull.{
  SyncState, Adapter, Status, success, failed, partial, Report, PullEnv, cursor_time,
  pull_channel_orders,
}
use gaking.Sync.PullLaws.{Passes, pull_channel_orders-Passes}
use Prim.Native.String.{String}

-- One of the channels: its adapter, what its round finds, and its keys in Redis.
pub record Channel : Type 0 where
  pub channel_code : String
  pub pull : Adapter
  pub env : PullEnv
  pub breaker : Keys
  pub cursor : Option ℕ
  pub failed_queue : List Window

pub record RoundReport : Type 0 where
  pub status : Status
  pub total_pulled : ℕ
  pub total_inserted : ℕ
  pub total_updated : ℕ

abbrev pub nothing_pulled : RoundReport
nothing_pulled = record {
  status = success;
  total_pulled = 0;
  total_inserted = 0;
  total_updated = 0;
}

-- `r.get("status") in ("failed", "partial")`
falls_short : Status → Bool
falls_short failed = true
falls_short partial = true
falls_short _ = false

with_report : RoundReport → Report → RoundReport
unfolding falls_short
with_report a r = record {
  status = if falls_short r.status then partial else a.status;
  total_pulled = a.total_pulled + r.pulled_count;
  total_inserted = a.total_inserted + r.inserted_count;
  total_updated = a.total_updated + r.updated_count;
}

module _ (strip : String → String) (strategies : List Strategy) (minutes : ℕ) where
  unfoldable pub pull_one : Channel → Session → Report × SyncState
  pull_one c session =
      pull_channel_orders strip strategies c.channel_code c.pull c.env minutes (record {
        session = session;
        breaker = c.breaker;
        cursor = c.cursor;
        failed_queue = c.failed_queue;
      })

  -- the channels one after another, on one session
  unfoldable pub pull_all_channels :
      List Channel → RoundReport → Session → RoundReport × List Channel × Session
  unfolding pull_one with_report
  pull_all_channels [] a session = (a, [], session)
  pull_all_channels (c ∷ cs) a session =
      let (r, s) = pull_one c session in
      let (a', cs', session') = pull_all_channels cs (with_report a r) s.session in
      (
        a',
        record c { breaker = s.breaker; cursor = s.cursor; failed_queue = s.failed_queue } ∷ cs',
        session',
      )

  -- a start given takes the place of the cursor; an end is not looked at
  unfoldable pub manual_sync_channel : Option ℕ → Channel → Session → Report × SyncState
  unfolding pull_one or_else
  manual_sync_channel start c session =
      pull_one (record c { cursor = or_else start c.cursor }) session

  -- No channel is asked from a time to come.
  abbrev pub AllStarted : List Channel → Type 0
  AllStarted [] = Unit
  AllStarted (c ∷ cs) = (cursor_time c.env.now c.cursor ≤ c.env.now) × AllStarted cs

  -- Each cursor afterwards has passed only answered windows of the channel it belongs to.
  abbrev pub AllPass : List Channel → List Channel → Type 0
  AllPass [] [] = Unit
  AllPass (c ∷ cs) (d ∷ ds) =
      Passes c.pull (split_time_windows (cursor_time c.env.now c.cursor) c.env.now minutes) d.cursor
      × AllPass cs ds
  AllPass _ _ = ⊥

  -- A round over the channels moves each cursor only past windows that its channel has answered,
  -- whatever the others do.
  pub pull_all_channels-AllPass :
      (cs : List Channel) (a : RoundReport) (session : Session)
      → AllStarted cs
      → AllPass cs (pull_all_channels cs a session).1
  unfolding pull_all_channels pull_one
  pull_all_channels-AllPass [] a session h = tt
  pull_all_channels-AllPass (c ∷ cs) a session h =
      let (r, s) = pull_one c session in
      (
        pull_channel_orders-Passes strip strategies c.channel_code c.pull c.env minutes
            (record {
              session = session;
              breaker = c.breaker;
              cursor = c.cursor;
              failed_queue = c.failed_queue;
            })
            h.0,
        pull_all_channels-AllPass cs (with_report a r) s.session h.1,
      )
