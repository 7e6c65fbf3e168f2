-- ===== src/Sync/Windows.antt =====
-- `_split_time_windows` of backend/src/services/order_sync_service.py. Times are counts of seconds; the
-- loop runs on fuel, of which the length of the whole interval is enough.
use gaking.Base.{
  ℕ, zero, suc, ◌+◌, ◌-◌, ◌*◌, ◌≤◌, ◌<◌, List, [], ◌∷◌, ◌≡◌, refl, Bool-cases, inl, inr, arith, ltb,
  leb, if◌then◌else◌,
}

abbrev pub Window : Type 0
Window = ℕ × ℕ

abbrev min : ℕ → ℕ → ℕ
min a b = if leb a b then a else b

-- the loop from a cursor
split_from : ℕ → ℕ → ℕ → ℕ → List Window
split_from zero cursor end delta = []
split_from (suc n) cursor end delta =
    let win_end = min (cursor + delta) end in
    let rest = split_from n win_end end delta in
    if ltb cursor end then (cursor, win_end) ∷ rest else []

-- TASK_ORDER_SYNC_WINDOW_MINUTES for a length that is no length
unfoldable pub window_seconds : ℕ → ℕ
window_seconds zero = 30 * 60
window_seconds m = m * 60

unfoldable pub split_time_windows : ℕ → ℕ → ℕ → List Window
unfolding split_from
split_time_windows start end minutes = split_from (end - start) start end (window_seconds minutes)

-- The windows lie end to end from one time to another, none empty, none longer than `delta`.
abbrev pub Tiles : ℕ → ℕ → ℕ → List Window → Type 0
Tiles delta start end [] = start ≡ end
Tiles delta start end (w ∷ ws) =
    (w.0 ≡ start) × (w.0 < w.1) × (w.1 ≤ w.0 + delta) × Tiles delta w.1 end ws

split_from-Tiles :
    (n cursor end delta : ℕ)
    → 0 < delta
    → cursor ≤ end
    → end ≤ cursor + n
    → Tiles delta cursor end (split_from n cursor end delta)
unfolding split_from
split_from-Tiles zero cursor end delta d le fuel = omega arith
split_from-Tiles (suc n) cursor end delta d le fuel = elim (Bool-cases (ltb cursor end)) [
  | inl more ↦ rw more (
    refl,
    ground (arith, more, d),
    ground (arith, more),
    split_from-Tiles n (min (cursor + delta) end) end delta d (ground (arith, more))
        (ground (arith, more)),
  )
  | inr done ↦ rw done (ground (arith, done))
]

window_positive : (m : ℕ) → 0 < window_seconds m
unfolding window_seconds
window_positive zero = omega arith
window_positive (suc m) = omega arith

-- Asked for an interval, the loop ends, and its windows cover all of it, in order, without a gap or an
-- overlap.
pub split_time_windows-Tiles :
    (start end minutes : ℕ)
    → start ≤ end
    → Tiles (window_seconds minutes) start end (split_time_windows start end minutes)
unfolding split_time_windows
split_time_windows-Tiles start end minutes le =
    split_from-Tiles (end - start) start end (window_seconds minutes) (window_positive minutes) le
      (omega arith)
