-- ===== src/Limits/Fixed.antt =====
-- `check_fixed_window` of backend/src/common/rate_limit_util.py for one key. The counters of the windows
-- are keys of their own, `{key}:{time // window}`; times are whole seconds. RedisClient.expire gives the
-- key a time to live of its own, up to a fifth more or less than the window (`_jitter_ttl`).
use gaking.Base.{
  ℕ, zero, suc, ◌+◌, ◌-◌, ◌/◌, ◌≤◌, ◌<◌, Bool, true, false, Option, none, some, List, [], ◌∷◌, ◌≡◌,
  refl, ltb, leb, if◌then◌else◌, inl, inr, arith, Bool-cases, lt→ltb,
}
use gaking.Base.Table.{Table, find, put, find-put_self}
use gaking.Limits.Sliding.{Limit}

-- A counter, and when Redis drops it.
pub record Counter : Type 0 where
  pub count : ℕ
  pub deadline : ℕ

-- A request: its time, the time to live that jitter makes of the window, and whether INCR runs; one that
-- fails answers 0.
pub record Request : Type 0 where
  pub now : ℕ
  pub jittered : ℕ
  pub ran : Bool

unfoldable pub live_count : ℕ → Option Counter → ℕ
live_count now none = 0
live_count now (some c) = if ltb now c.deadline then c.count else 0

-- INCR of an absent key is 1; EXPIRE follows it only then
unfoldable pub bumped : Request → Option Counter → ℕ → Counter
bumped r old zero = record { count = 1; deadline = r.now + r.jittered }
bumped r none (suc n) = record { count = suc (suc n); deadline = r.now + r.jittered }
bumped r (some c) (suc n) = record { count = suc (suc n); deadline = c.deadline }

unfoldable pub check_fixed_window : Limit → Request → Table Counter → Bool × ℕ × Table Counter
unfolding live_count bumped
check_fixed_window l r t =
    let key = r.now / l.window in
    let n = live_count r.now (find key t) in
    if r.ran
    then (leb (suc n) l.limit, suc n, put key (bumped r (find key t) n) t)
    else (leb 0 l.limit, 0, t)

-- How many requests one after another are let pass.
unfoldable pub passes : Limit → List Request → Table Counter → ℕ
passes l [] t = 0
passes l (r ∷ rs) t =
    let (allowed, _, t') = check_fixed_window l r t in
    let rest = passes l rs t' in if allowed then suc rest else rest

-- How many requests find an INCR that fails.
unfoldable pub failures : List Request → ℕ
failures [] = 0
failures (r ∷ rs) = let rest = failures rs in if r.ran then rest else suc rest

-- Requests of the window `i`, which begins at `base`, that would leave the counter no less time than the
-- window lasts.
abbrev pub AllWithin : Limit → ℕ → ℕ → List Request → Type 0
AllWithin l base i [] = Unit
AllWithin l base i (r ∷ rs) =
    (r.now / l.window ≡ i)
    × (base ≤ r.now)
    × (r.now < base + l.window)
    × (l.window ≤ r.jittered)
    × AllWithin l base i rs

counted : ℕ → ℕ → Counter
counted n d = record { count = suc n; deadline = d }

-- A request while the counter lasts adds one to it.
one_more :
    (l : Limit) (r : Request) (i n d : ℕ) (t : Table Counter)
    → r.now / l.window ≡ i
    → r.ran ≡ true
    → r.now < d
    → find i t ≡ some (counted n d)
    → check_fixed_window l r t
      ≡ (leb (suc (suc n)) l.limit, suc (suc n), put i (counted (suc n) d) t)
unfolding check_fixed_window live_count bumped counted
one_more l r i n d t e ran lt found = rw (e, ran, found, lt→ltb r.now d lt) refl

-- The first one sets it to one.
first_of :
    (l : Limit) (r : Request) (i : ℕ) (t : Table Counter)
    → r.now / l.window ≡ i
    → r.ran ≡ true
    → find i t ≡ none
    → check_fixed_window l r t ≡ (leb 1 l.limit, 1, put i (counted 0 (r.now + r.jittered)) t)
unfolding check_fixed_window live_count bumped counted
first_of l r i t e ran new = rw (e, ran, new) refl

-- A request that does not reach Redis passes, and counts nowhere.
not_counted :
    (l : Limit) (r : Request) (t : Table Counter)
    → r.ran ≡ false
    → check_fixed_window l r t ≡ (true, 0, t)
unfolding check_fixed_window
not_counted l r t fails = ground (arith, fails)

counting :
    (l : Limit) (base i n d : ℕ) (rs : List Request) (t : Table Counter)
    → AllWithin l base i rs
    → find i t ≡ some (counted n d)
    → base + l.window ≤ d
    → passes l rs t ≤ l.limit - suc n + failures rs
unfolding passes failures
counting l base i n d [] t h found le = omega arith
counting l base i n d (r ∷ rs) t h found le = elim (Bool-cases r.ran) [
  | inr fails ↦
      let rest = counting l base i n d rs t h.4 found le in
      rw (not_counted l r t fails, fails) (omega (arith, rest))
  | inl ran ↦
      let rest =
        counting l base i (suc n) d rs (put i (counted (suc n) d) t) h.4
          (find-put_self i (counted (suc n) d) t) le in
      rw (one_more l r i n d t h.0 ran (omega (arith, h.2, le)) found, ran)
        (elim (Bool-cases (leb (suc (suc n)) l.limit)) [
          | inl allowed ↦ rw allowed (ground (arith, allowed, rest))
          | inr refused ↦ rw refused (ground (arith, refused, rest))
        ])
]

-- Of the requests of one window, one after another, no more pass than the limit and those whose INCR
-- fails together, where the window has no counter before and each request would give the counter no less
-- time than the window lasts.
pub passes-bounded :
    (l : Limit) (base i : ℕ) (rs : List Request) (t : Table Counter)
    → AllWithin l base i rs
    → find i t ≡ none
    → passes l rs t ≤ l.limit + failures rs
unfolding passes failures
passes-bounded l base i [] t h new = omega arith
passes-bounded l base i (r ∷ rs) t h new = elim (Bool-cases r.ran) [
  | inr fails ↦
      let rest = passes-bounded l base i rs t h.4 new in
      rw (not_counted l r t fails, fails) (omega (arith, rest))
  | inl ran ↦
      let d = r.now + r.jittered in
      let rest =
        counting l base i 0 d rs (put i (counted 0 d) t) h.4 (find-put_self i (counted 0 d) t)
          (omega (arith, h.1, h.3)) in
      rw (first_of l r i t h.0 ran new, ran)
        (elim (Bool-cases (leb 1 l.limit)) [
          | inl allowed ↦ rw allowed (ground (arith, allowed, rest))
          | inr refused ↦ rw refused (ground (arith, refused, rest))
        ])
]

-- A counter that Redis drops before its window is over starts anew: a request passes again, however
-- many have passed.
pub check_fixed_window_restarts :
    (l : Limit) (r : Request) (c : Counter) (t : Table Counter)
    → find (r.now / l.window) t ≡ some c
    → c.deadline ≤ r.now
    → r.ran ≡ true
    → 0 < l.limit
    → let (allowed, count, _) = check_fixed_window l r t in (allowed ≡ true) × (count ≡ 1)
unfolding check_fixed_window live_count
check_fixed_window_restarts l r c t found gone ran some_room = ground (arith, found, ran)
