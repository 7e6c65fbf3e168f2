-- ===== src/Limits/Sliding.antt =====
-- `check_sliding_window` and `get_remaining` of backend/src/common/rate_limit_util.py for one key. The
-- sorted set is the list of its scores, the times in whole seconds at which requests were let pass: two
-- requests have different members. Its time to live only drops members that the next check would drop.
use gaking.Base.{
  ℕ, suc, ◌+◌, ◌-◌, ◌≤◌, ◌<◌, Bool, true, false, List, [], ◌∷◌, ◌≡◌, refl, ◌∙◌, ltb, leb, ◌&&◌,
  if◌then◌else◌, inl, inr, arith, Bool-cases,
}

-- `limit` and `window_seconds`
pub record Limit : Type 0 where
  pub limit : ℕ
  pub window : ℕ

-- ZREMRANGEBYSCORE 0 … : the scores that stay are above a time; one before the epoch drops none
unfoldable pub drop_until : ℕ → ℕ → List ℕ → List ℕ
drop_until now window [] = []
drop_until now window (x ∷ xs) =
    let rest = drop_until now window xs in if leb (x + window) now then rest else x ∷ rest

-- ZCARD
unfoldable pub card : List ℕ → ℕ
card [] = 0
card (x ∷ xs) = suc (card xs)

-- the first pipeline: what it leaves, and what it counts
unfoldable pub check_read : Limit → ℕ → List ℕ → ℕ × List ℕ
check_read l now set = let kept = drop_until now l.window set in (card kept, kept)

-- the second one
unfoldable pub check_write : ℕ → List ℕ → List ℕ
check_write now set = now ∷ set

unfoldable pub check_sliding_window : Limit → ℕ → List ℕ → Bool × ℕ × List ℕ
unfolding check_read check_write
check_sliding_window l now set =
    let (count, kept) = check_read l now set in
    if leb l.limit count then (false, count, kept) else (true, suc count, check_write now kept)

-- `max(0, limit - count)` is the subtraction on ℕ
unfoldable pub get_remaining : Limit → ℕ → List ℕ → ℕ × List ℕ
unfolding check_read
get_remaining l now set = let (count, kept) = check_read l now set in (l.limit - count, kept)

-- Checks at the given times one after another: the times at which requests passed, the latest first.
unfoldable pub passed : Limit → List ℕ → List ℕ → List ℕ → List ℕ
passed l [] set log = log
passed l (now ∷ later) set log =
    let (allowed, _, set') = check_sliding_window l now set in
    passed l later set' (if allowed then now ∷ log else log)

-- How many times lie in the window that ends at a time.
abbrev pub in_window : ℕ → ℕ → List ℕ → ℕ
in_window window end [] = 0
in_window window end (x ∷ xs) =
    if leb x end && ltb end (x + window)
    then suc (in_window window end xs)
    else in_window window end xs

-- The times do not go back.
abbrev pub IsMonotone : ℕ → List ℕ → Type 0
IsMonotone from [] = Unit
IsMonotone from (now ∷ later) = (from ≤ now) × IsMonotone now later

-- Times up to `now`.
abbrev Past : ℕ → List ℕ → Type 0
Past now [] = Unit
Past now (x ∷ xs) = (x ≤ now) × Past now xs

drop_until-again :
    (window now : ℕ) (set : List ℕ)
    → drop_until now window (drop_until now window set) ≡ drop_until now window set
unfolding drop_until
drop_until-again window now [] = refl
drop_until-again window now (x ∷ xs) = elim (Bool-cases (leb (x + window) now)) [
  | inl old ↦ ground (arith, old, drop_until-again window now xs)
  | inr kept ↦ ground (arith, kept, drop_until-again window now xs)
]

-- The members above the window of `now` are those of the log there.
abbrev Covers : ℕ → ℕ → List ℕ → List ℕ → Type 0
Covers now window set log =
    (end : ℕ) → now ≤ end → in_window window end set ≡ in_window window end log

card-drop_until :
    (window now : ℕ) (set : List ℕ)
    → Past now set
    → card (drop_until now window set) ≡ in_window window now set
unfolding card drop_until
card-drop_until window now [] p = refl
card-drop_until window now (x ∷ xs) p = ground (arith, p.0, card-drop_until window now xs p.1)

drop_until-in_window :
    (window now end : ℕ) (set : List ℕ)
    → now ≤ end
    → in_window window end (drop_until now window set) ≡ in_window window end set
unfolding drop_until
drop_until-in_window window now end [] le = refl
drop_until-in_window window now end (x ∷ xs) le = elim (Bool-cases (leb (x + window) now)) [
  | inl old ↦ ground (arith, old, drop_until-in_window window now end xs le)
  | inr kept ↦ ground (arith, kept, drop_until-in_window window now end xs le)
]

drop_until-Past :
    (window now t : ℕ) (set : List ℕ) → Past t set → Past t (drop_until now window set)
unfolding drop_until
drop_until-Past window now t [] p = tt
drop_until-Past window now t (x ∷ xs) p = elim (Bool-cases (leb (x + window) now)) [
  | inl old ↦ rw old (drop_until-Past window now t xs p.1)
  | inr kept ↦ rw kept (p.0, drop_until-Past window now t xs p.1)
]

Past-later : (s t : ℕ) (l : List ℕ) → s ≤ t → Past s l → Past t l
Past-later s t [] le p = tt
Past-later s t (x ∷ xs) le p = (omega (arith, le, p.0), Past-later s t xs le p.1)

-- A later end of the window takes no more of the past.
in_window_falls :
    (window now end : ℕ) (l : List ℕ)
    → Past now l
    → now ≤ end
    → in_window window end l ≤ in_window window now l
in_window_falls window now end [] p le = omega arith
in_window_falls window now end (x ∷ xs) p le =
    ground (arith, p.0, le, in_window_falls window now end xs p.1 le)

-- No window has seen more than `limit` requests pass.
abbrev pub Respects : Limit → List ℕ → Type 0
Respects l log = (end : ℕ) → in_window l.window end log ≤ l.limit

kept-Covers :
    (l : Limit) (from now : ℕ) (set log : List ℕ)
    → from ≤ now
    → Covers from l.window set log
    → Covers now l.window (drop_until now l.window set) log
kept-Covers l from now set log le c end later =
    drop_until-in_window l.window now end set later ∙ c end (omega arith)

cons-Covers :
    (window now : ℕ) (set log : List ℕ)
    → Covers now window set log
    → Covers now window (now ∷ set) (now ∷ log)
cons-Covers window now set log c end later = ground (arith, c end later)

cons-Respects :
    (l : Limit) (now : ℕ) (log : List ℕ)
    → Past now log
    → in_window l.window now log < l.limit
    → Respects l log
    → Respects l (now ∷ log)
cons-Respects l now log p lt r end = elim (Bool-cases (leb now end && ltb end (now + l.window))) [
  | inl inside ↦
      let later : now ≤ end = ground (arith, inside) in
      ground (arith, inside, lt, in_window_falls l.window now end log p later)
  | inr outside ↦ ground (arith, outside, r end)
]

passed-Respects_from :
    (l : Limit) (from : ℕ) (times set log : List ℕ)
    → IsMonotone from times
    → Past from set
    → Past from log
    → Covers from l.window set log
    → Respects l log
    → Respects l (passed l times set log)
unfolding passed check_sliding_window check_read check_write
passed-Respects_from l from [] set log m ps pl c r = r
passed-Respects_from l from (now ∷ later) set log m ps pl c r =
    let kept = drop_until now l.window set in
    let ps' = Past-later from now set m.0 ps in
    let pl' = Past-later from now log m.0 pl in
    let pk = drop_until-Past l.window now now set ps' in
    let ck = kept-Covers l from now set log m.0 c in
    let counts : card kept ≡ in_window l.window now log =
      card-drop_until l.window now set ps' ∙ c now m.0 in
    elim (Bool-cases (leb l.limit (card kept))) [
      | inl full ↦ rw full (passed-Respects_from l now later kept log m.1 pk pl' ck r)
      | inr free ↦ rw free (
          passed-Respects_from l now later (now ∷ kept) (now ∷ log) m.1 (omega arith, pk)
            (omega arith, pl') (cons-Covers l.window now kept log ck)
            (cons-Respects l now log pl' (ground (arith, free, counts)) r))
    ]

-- Checks of one key one after another, at times that do not go back: no window of the length set lets
-- more requests pass than the limit.
pub passed-Respects :
    (l : Limit) (times : List ℕ) → IsMonotone 0 times → Respects l (passed l times [] [])
passed-Respects l times m =
    passed-Respects_from l 0 times [] [] m tt tt (λ end le. refl) (λ end. omega arith)

-- Two checks that both read before either writes are both let pass where one place is left, and the
-- members are then one more than the limit.
pub check_read_races :
    (l : Limit) (now : ℕ) (set : List ℕ)
    → suc (card (drop_until now l.window set)) ≡ l.limit
    → let (first, kept) = check_read l now set in
      let (second, kept') = check_read l now kept in
      (first < l.limit)
      × (second < l.limit)
      × (card (check_write now (check_write now kept')) ≡ suc l.limit)
unfolding check_read check_write card
check_read_races l now set full =
    let same = drop_until-again l.window now set in ground (arith, full, same)
