-- ===== src/Sync/Retry.antt =====
-- `manual_retry_failed` of backend/src/services/order_sync_service.py: the windows of the queue of one
-- channel are tried again, the oldest first. Redis runs every command.
use gaking.Base.{
  ℕ, zero, suc, Bool, true, false, Option, none, some, List, [], ◌∷◌, leb, if◌then◌else◌, ◌≡◌, ◌≢◌,
  ◌⊎◌, inl, inr, refl, sym, ap, ◌∙◌, subst, Option-cases, Bool-cases,
}
use gaking.Store.Session.{Result, ok, err, Result-cases}
use gaking.Attribution.Engine.{Strategy}
use gaking.Sync.Windows.{Window}
use gaking.Sync.Persist.{persist_orders}
use gaking.Sync.Pull.{SyncState, Adapter, Status, success, failed, partial}
use gaking.Sync.Persist.{OrderDto}
use Prim.Native.String.{String}
use mathlib.Core.List.{Memᴰ}
use mathlib.Core.List.Memᴰ

pub record RetryReport : Type 0 where
  pub status : Status
  pub retried_count : ℕ
  pub success_count : ℕ
  pub still_failed_count : ℕ

abbrev pub no_retries : Status → RetryReport
no_retries st = record { status = st; retried_count = 0; success_count = 0; still_failed_count = 0 }

after_pop : Window → Option (Window × List Window) → Option (Window × List Window)
after_pop w none = some (w, [])
after_pop w (some (v, rest)) = some (v, w ∷ rest)

-- RPOP of a queue that LPUSH fills
unfoldable pub pop_last : List Window → Option (Window × List Window)
unfolding after_pop
pop_last [] = none
pop_last (w ∷ ws) = after_pop w (pop_last ws)

-- the `except` branch: LPUSH puts the window back
pushed_back : Window → RetryReport → SyncState → RetryReport × SyncState
pushed_back w r s = (
  record r { retried_count = suc r.retried_count; still_failed_count = suc r.still_failed_count },
  record s { failed_queue = w ∷ s.failed_queue },
)

none-some : {A : Type 0} {a : A} → ¬ (none ≡ some a)
none-some h = cc

some_eq : {A : Type 0} {a b : A} → some a ≡ some b → a ≡ b
some_eq h = cc

pop_last-none : (q : List Window) (w : Window) → pop_last q ≡ none → ¬ Memᴰ w q
unfolding pop_last after_pop
pop_last-none [] w popped m = Memᴰ.not-nil m
pop_last-none (x ∷ xs) w popped m = elim (Option-cases (pop_last xs)) [
  | inl empty ↦ none-some (sym (rw empty at popped))
  | inr (p, at) ↦ none-some (sym (rw at at popped))
]

-- What is popped was the last one, and the others stay.
pop_last_keeps :
    (q : List Window) (v w : Window) (rest : List Window)
    → pop_last q ≡ some (v, rest)
    → Memᴰ w q
    → (w ≡ v) ⊎ Memᴰ w rest
unfolding pop_last after_pop
pop_last_keeps [] v w rest popped m = absurd (Memᴰ.not-nil m)
pop_last_keeps (x ∷ xs) v w rest popped m = elim (Option-cases (pop_last xs)) [
  | inl empty ↦
      let same = some_eq (rw empty at popped) in
      elim (Memᴰ.cases_cons m) [
        | inl here ↦ inl (here ∙ ap (λ p. p.0) same)
        | inr later ↦ absurd (pop_last-none xs w empty later)
      ]
  | inr (p, at) ↦
      let same = some_eq (rw at at popped) in
      let own : (w ≡ p.0) ⊎ Memᴰ w (x ∷ p.1) = elim (Memᴰ.cases_cons m) [
        | inl here ↦ inr (Memᴰ.head here)
        | inr later ↦ elim (pop_last_keeps xs p.0 w p.1 at later) [
          | inl last ↦ inl last
          | inr kept ↦ inr (Memᴰ.tail kept)
        ]
      ] in
      elim own [
        | inl last ↦ inl (last ∙ ap (λ p. p.0) same)
        | inr kept ↦ inr (subst (λ l. Memᴰ w l) (ap (λ p. p.1) same) kept)
      ]
]

module _ (strip : String → String) (strategies : List Strategy) (channel_code : String)
    (pull : Adapter) where
  retried : Window → Result (ℕ × ℕ) → RetryReport → SyncState → RetryReport × SyncState
  unfolding pushed_back
  retried w (ok counts) r s =
      (record r { retried_count = suc r.retried_count; success_count = suc r.success_count }, s)
  retried w (err e) r s = pushed_back w r s

  retry_answered :
      Window → Option (List OrderDto) → RetryReport → SyncState → RetryReport × SyncState
  unfolding pushed_back retried
  retry_answered w none r s = pushed_back w r s
  retry_answered w (some orders) r s =
      let (counts, session) = persist_orders strip strategies channel_code orders s.session in
      retried w counts r (record s { session = session })

  -- the body of the loop, `pull` being asked at its turn, and whether the loop goes on
  retry_turn :
      ℕ → Option (Window × List Window) → RetryReport → SyncState → Bool × RetryReport × SyncState
  unfolding retry_answered
  retry_turn i none r s = (false, r, s)
  retry_turn i (some (w, rest)) r s =
      let (r', s') = retry_answered w (pull w i) r (record s { failed_queue = rest }) in
      (true, r', s')

  retry_turns : ℕ → ℕ → RetryReport → SyncState → RetryReport × SyncState
  unfolding retry_turn pop_last
  retry_turns zero i r s = (r, s)
  retry_turns (suc n) i r s =
      let (goes_on, r', s') = retry_turn i (pop_last s.failed_queue) r s in
      let rest = retry_turns n (suc i) r' s' in if goes_on then rest else (r', s')

  summed : RetryReport × SyncState → RetryReport × SyncState
  summed (r, s) = (record r { status = if leb 1 r.still_failed_count then partial else success }, s)

  unfoldable pub manual_retry_failed : Bool → ℕ → SyncState → RetryReport × SyncState
  unfolding retry_turns summed
  manual_retry_failed supported batch_size s =
      if supported
      then summed (retry_turns batch_size 0 (no_retries success) s)
      else (no_retries failed, s)

  -- A window is in the queue, or the channel has answered it.
  abbrev pub IsKept : Window → SyncState → Type 0
  IsKept w s = Memᴰ w s.failed_queue ⊎ ((i : ℕ) × (pull w i ≢ none))

  retry_answered-IsKept :
      (v w : Window) (i : ℕ) (o : Option (List OrderDto)) (r : RetryReport) (s : SyncState)
      → pull v i ≡ o
      → (w ≡ v) ⊎ Memᴰ w s.failed_queue
      → IsKept w (retry_answered v o r s).1
  unfolding retry_answered retried pushed_back
  retry_answered-IsKept v w i none r s e (inl same) = inl (Memᴰ.head same)
  retry_answered-IsKept v w i none r s e (inr kept) = inl (Memᴰ.tail kept)
  retry_answered-IsKept v w i (some orders) r s e (inl same) =
      inr (i, λ silent. none-some (sym silent ∙ ap (λ x. pull x i) same ∙ e))
  retry_answered-IsKept v w i (some orders) r s e (inr kept) =
      elim (Result-cases (persist_orders strip strategies channel_code orders s.session).0) [
        | inl (counts, fine) ↦ rw fine (inl kept)
        | inr (x, raised) ↦ rw raised (inl (Memᴰ.tail kept))
      ]

  retry_turn-IsKept :
      (i : ℕ) (w : Window) (o : Option (Window × List Window)) (r : RetryReport) (s : SyncState)
      → pop_last s.failed_queue ≡ o
      → IsKept w s
      → IsKept w (retry_turn i o r s).2
  unfolding retry_turn
  retry_turn-IsKept i w none r s popped h = h
  retry_turn-IsKept i w (some (v, rest)) r s popped (inl queued) =
      retry_answered-IsKept v w i (pull v i) r (record s { failed_queue = rest }) refl
        (pop_last_keeps s.failed_queue v w rest popped queued)
  retry_turn-IsKept i w (some p) r s popped (inr answered) = inr answered

  retry_turns-IsKept :
      (n i : ℕ) (w : Window) (r : RetryReport) (s : SyncState)
      → IsKept w s
      → IsKept w (retry_turns n i r s).1
  unfolding retry_turns
  retry_turns-IsKept zero i w r s h = h
  retry_turns-IsKept (suc n) i w r s h =
      let turn = retry_turn i (pop_last s.failed_queue) r s in
      let kept = retry_turn-IsKept i w (pop_last s.failed_queue) r s refl h in
      elim (Bool-cases turn.0) [
        | inl goes_on ↦ rw goes_on (retry_turns-IsKept n (suc i) w turn.1 turn.2 kept)
        | inr ends ↦ rw ends kept
      ]

  -- A window leaves the queue of the failed ones only if the channel answers it, whatever becomes of the
  -- others.
  pub manual_retry_failed-IsKept :
      (supported : Bool) (batch_size : ℕ) (w : Window) (s : SyncState)
      → Memᴰ w s.failed_queue
      → IsKept w (manual_retry_failed supported batch_size s).1
  unfolding manual_retry_failed summed
  manual_retry_failed-IsKept true n w s m = retry_turns-IsKept n 0 w (no_retries success) s (inl m)
  manual_retry_failed-IsKept false n w s m = inl m
