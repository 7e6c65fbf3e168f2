-- ===== src/Sync/PullLaws.antt =====
-- What a round of backend/src/services/order_sync_service.py leaves as the cursor of its channel.
use gaking.Base.{
  ℕ, zero, suc, ◌≤◌, ◌<◌, Bool, true, false, Option, none, some, List, [], ◌∷◌, ◌≡◌, ◌≢◌, ◌⊎◌, sym,
  ap, subst, leb, inl, inr, arith, Bool-cases, Option-cases,
}
use gaking.Breaker.Circuit.{default_settings, get_state}
use gaking.Store.Session.{Result-cases, commit, commit_with}
use gaking.Attribution.Engine.{Strategy, is_matched, resolve_user, is_empty}
use gaking.Sync.Windows.{
  Window, Tiles, split_time_windows, split_time_windows-Tiles, window_seconds,
}
use gaking.Sync.Persist.{
  OrderDto, persist_orders, has_no, sought_of, plan_orders, plan_order, user_of, with_new_order,
  persist_plan, attempt_or, batch_upsert_orders, only_new, clashes, create_all, add_orders,
  batch_update_status, build_order_data,
}
use gaking.Sync.Pull.{
  SyncState, Adapter, attempts, answer_or, pull_attempts, pull_with_retry, queued, Report, PullEnv,
  cursor_time, take, stored, answered, pull_window, pull_windows, close, pull_since,
  pull_channel_orders, is_open,
}
use Prim.Native.String.{String}
use mathlib.Core.List.{Memᴰ}
use mathlib.Core.List.Memᴰ

abbrev AtMost : Option ℕ → ℕ → Type 0
AtMost none t = Unit
AtMost (some c) t = c ≤ t

cursor_time-AtMost : (now : ℕ) (o : Option ℕ) → AtMost o (cursor_time now o)
unfolding cursor_time
cursor_time-AtMost now none = tt
cursor_time-AtMost now (some c) = omega arith

-- No window that ends by the cursor is one that the channel has not answered.
abbrev pub Passes : Adapter → List Window → Option ℕ → Type 0
Passes pull ws none = Unit
Passes pull ws (some c) = (w : Window) → Memᴰ w ws → w.1 ≤ c → pull_attempts pull w ≢ none

module _ (strip : String → String) (strategies : List Strategy) (channel_code : String)
    (pull : Adapter) where
  -- A window after which the round goes on has been answered, and has become the cursor.
  pull_window-cases :
      (w : Window) (r : Report) (s : SyncState)
      → let (goes_on, _, s') = pull_window strip strategies channel_code pull w r s in
        ((goes_on ≡ false) × (s'.cursor ≡ s.cursor))
        ⊎ ((goes_on ≡ true) × (s'.cursor ≡ some w.1) × (pull_attempts pull w ≢ none))
  unfolding pull_window answered stored pull_with_retry queued
  pull_window-cases w r s = elim (Option-cases (pull_attempts pull w)) [
    | inl silent ↦ inl (ground (arith, silent))
    | inr (orders, said) ↦
        elim (Result-cases (persist_orders strip strategies channel_code orders s.session).0) [
          | inl (counts, kept) ↦ inr (ground (arith, said, kept))
          | inr (e, raised) ↦ inl (ground (arith, said, raised))
        ]
  ]

  later_windows :
      (delta start end : ℕ) (ws : List Window) (w : Window)
      → Tiles delta start end ws
      → Memᴰ w ws
      → start < w.1
  later_windows delta start end [] w t m = absurd (Memᴰ.not-nil m)
  later_windows delta start end (v ∷ vs) w t m = elim (Memᴰ.cases_cons m) [
    | inl same ↦ subst (λ x. start < x.1) (sym same) (omega (arith, ap (λ x. x) t.0, t.1))
    | inr later ↦
        let beyond = later_windows delta v.1 end vs w t.3 later in omega (arith, t.0, t.1, beyond)
  ]

  -- A cursor that lies before all windows passes none of them.
  AtMost→Passes :
      (delta start end : ℕ) (ws : List Window) (o : Option ℕ)
      → Tiles delta start end ws
      → AtMost o start
      → Passes pull ws o
  AtMost→Passes delta start end ws none t le = tt
  AtMost→Passes delta start end ws (some c) t le = λ w m before.
      let beyond = later_windows delta start end ws w t m in
      absurd (omega (arith, beyond, before, le))

  cons-Passes :
      (w : Window) (ws : List Window) (o : Option ℕ)
      → pull_attempts pull w ≢ none
      → Passes pull ws o
      → Passes pull (w ∷ ws) o
  cons-Passes w ws none said h = tt
  cons-Passes w ws (some c) said h = λ v m before. elim (Memᴰ.cases_cons m) [
    | inl same ↦ subst (λ x. pull_attempts pull x ≢ none) (sym same) said
    | inr later ↦ h v later before
  ]

  pull_windows-Passes :
      (n delta start end : ℕ) (ws : List Window) (r : Report) (s : SyncState)
      → Tiles delta start end ws
      → AtMost s.cursor start
      → Passes pull ws (pull_windows strip strategies channel_code pull (take n ws) r s).1.cursor
  unfolding pull_windows take
  pull_windows-Passes zero delta start end ws r s t le =
      AtMost→Passes delta start end ws s.cursor t le
  pull_windows-Passes (suc n) delta start end [] r s t le =
      AtMost→Passes delta start end [] s.cursor t le
  pull_windows-Passes (suc n) delta start end (w ∷ ws) r s t le =
      let r' = (pull_window strip strategies channel_code pull w r s).1 in
      let s' = (pull_window strip strategies channel_code pull w r s).2 in
      elim (pull_window-cases w r s) [
        | inl (stops, same) ↦ rw stops (
            subst (Passes pull (w ∷ ws)) (sym same)
              (AtMost→Passes delta start end (w ∷ ws) s.cursor t le))
        | inr (goes, moved, said) ↦
            let rest =
              pull_windows-Passes n delta w.1 end ws r' s' t.3
                (subst (λ o. AtMost o w.1) (sym moved) (omega arith)) in
            rw goes (cons-Passes w ws _ said rest)
      ]

  -- A round leaves as the cursor of its channel a time such that every window before it, of those into
  -- which the time from the old cursor to the clock is split, has been answered by the channel.
  pub pull_channel_orders-Passes :
      (env : PullEnv) (minutes : ℕ) (s : SyncState)
      → cursor_time env.now s.cursor ≤ env.now
      → let at = cursor_time env.now s.cursor in
        Passes pull
          (split_time_windows at env.now minutes)
          (pull_channel_orders strip strategies channel_code pull env minutes s).1.cursor
  unfolding pull_channel_orders pull_since close
  pull_channel_orders-Passes env minutes s le =
      let at = cursor_time env.now s.cursor in
      let ws = split_time_windows at env.now minutes in
      let tiles = split_time_windows-Tiles at env.now minutes le in
      let old : Passes pull ws s.cursor =
        AtMost→Passes (window_seconds minutes) at env.now ws s.cursor tiles
          (cursor_time-AtMost env.now s.cursor) in
      let s' = record s { breaker = (get_state default_settings env.now s.breaker).1 } in
      elim (Bool-cases (is_open (get_state default_settings env.now s.breaker).0)) [
        | inl opened ↦ rw opened old
        | inr passes ↦ elim (Bool-cases (leb env.now at)) [
          | inl caught_up ↦ rw (passes, caught_up) old
          | inr behind ↦ elim (Bool-cases env.supported) [
            | inr unsupported ↦ rw (passes, behind, unsupported) old
            | inl supported ↦
                rw (passes, behind, supported)
                  (pull_windows-Passes 10 (window_seconds minutes) at env.now ws _ s' tiles
                    (cursor_time-AtMost env.now s.cursor))
          ]
        ]
      ]

  -- When the commit of a new order fails, the window counts as done: the cursor moves past it and it is
  -- not queued, though the order is not stored.
  pub pull_window_loses :
      (w : Window) (o : OrderDto) (rest : List Bool) (r : Report) (s : SyncState)
      → pull w 1 ≡ some (o ∷ [])
      → is_empty o.origin_order_id ≡ false
      → has_no o.origin_order_id s.session.working.orders ≡ false
      → is_matched (resolve_user strategies (sought_of strip strategies channel_code o)) ≡ true
      → s.session.faults ≡ false ∷ rest
      → let s' = (pull_window strip strategies channel_code pull w r s).2 in
        (s'.cursor ≡ some w.1)
        × (s'.failed_queue ≡ s.failed_queue)
        × (s'.session.committed ≡ s.session.committed)
  unfolding pull_window answered stored pull_with_retry queued pull_attempts attempts answer_or
      persist_orders plan_orders plan_order user_of with_new_order persist_plan attempt_or
      batch_upsert_orders only_new clashes create_all add_orders commit commit_with
      batch_update_status has_no build_order_data
  pull_window_loses w o rest r s said numbered new matched fails =
      ground (arith, said, numbered, new, matched, fails)
