-- ===== src/Limits/BloomLaws.antt =====
-- The filter of backend/src/cps/cache/bloom_filter.py never denies what was added.
use gaking.Base.{ℕ, Bool, true, false, List, [], ◌∷◌, ◌≡◌, refl, arith}
use gaking.Limits.Bloom.{Filter, getbit, set_bits, all_set, get_positions, add, exists, add_batch}
use Prim.Native.String.{String}

-- Every bit of the first bitmap is one of the second.
abbrev pub Grows : List ℕ → List ℕ → Type 0
Grows bits bits' = (p : ℕ) → getbit p bits ≡ true → getbit p bits' ≡ true

AllSet : List ℕ → List ℕ → Type 0
AllSet [] bits = Unit
AllSet (p ∷ ps) bits = (getbit p bits ≡ true) × AllSet ps bits

AllSet-Grows : (ps bits bits' : List ℕ) → Grows bits bits' → AllSet ps bits → AllSet ps bits'
unfolding AllSet
AllSet-Grows [] bits bits' g h = tt
AllSet-Grows (p ∷ ps) bits bits' g h = (g p h.0, AllSet-Grows ps bits bits' g h.1)

push-Grows : (p : ℕ) (bits : List ℕ) → Grows bits (p ∷ bits)
unfolding getbit
push-Grows p bits q h = ground (arith, h)

set_bits-Grows : (faults : List Bool) (ps bits : List ℕ) → Grows bits (set_bits faults ps bits).1
unfolding set_bits
set_bits-Grows faults [] bits q h = h
set_bits-Grows [] (p ∷ ps) bits q h = set_bits-Grows [] ps (p ∷ bits) q (push-Grows p bits q h)
set_bits-Grows (true ∷ faults) (p ∷ ps) bits q h =
    set_bits-Grows faults ps (p ∷ bits) q (push-Grows p bits q h)
set_bits-Grows (false ∷ faults) (p ∷ ps) bits q h = h

getbit_push : (p : ℕ) (bits : List ℕ) → getbit p (p ∷ bits) ≡ true
unfolding getbit
getbit_push p bits = ground arith

set_bits-AllSet :
    (faults : List Bool) (ps bits : List ℕ)
    → (set_bits faults ps bits).0 ≡ true
    → AllSet ps (set_bits faults ps bits).1
unfolding set_bits AllSet
set_bits-AllSet faults [] bits h = tt
set_bits-AllSet [] (p ∷ ps) bits h =
    (set_bits-Grows [] ps (p ∷ bits) p (getbit_push p bits), set_bits-AllSet [] ps (p ∷ bits) h)
set_bits-AllSet (true ∷ faults) (p ∷ ps) bits h = (
  set_bits-Grows faults ps (p ∷ bits) p (getbit_push p bits),
  set_bits-AllSet faults ps (p ∷ bits) h,
)
set_bits-AllSet (false ∷ faults) (p ∷ ps) bits h = absurd (ground (arith, h))

all_set-AllSet :
    (faults : List Bool) (ps bits : List ℕ) → AllSet ps bits → all_set faults ps bits ≡ true
unfolding all_set AllSet
all_set-AllSet faults [] bits h = refl
all_set-AllSet [] (p ∷ ps) bits h = rw h.0 (all_set-AllSet [] ps bits h.1)
all_set-AllSet (true ∷ faults) (p ∷ ps) bits h = rw h.0 (all_set-AllSet faults ps bits h.1)
all_set-AllSet (false ∷ faults) (p ∷ ps) bits h = refl

module _ (digest : String → ℕ × ℕ) (f : Filter) where
  add_batch-Grows :
      (vs : List (List Bool × String)) (bits : List ℕ) → Grows bits (add_batch digest f vs bits).1
  unfolding add_batch add
  add_batch-Grows [] bits p h = h
  add_batch-Grows (v ∷ vs) bits p h =
      let bits' = (set_bits v.0 (get_positions digest f v.1) bits).1 in
      add_batch-Grows vs bits' p (set_bits-Grows v.0 (get_positions digest f v.1) bits p h)

  -- Once a text has been added, and whatever is added after it, and whichever commands fail then: the
  -- filter says that it may exist.
  pub add-exists :
      (before later : List Bool) (v : String) (vs : List (List Bool × String)) (bits : List ℕ)
      → (add digest f before v bits).0 ≡ true
      → exists digest f later v (add_batch digest f vs (add digest f before v bits).1).1 ≡ true
  unfolding add exists
  add-exists before later v vs bits done =
      let ps = get_positions digest f v in
      let bits' = (set_bits before ps bits).1 in
      all_set-AllSet later ps (add_batch digest f vs bits').1 (
        AllSet-Grows ps bits' (add_batch digest f vs bits').1 (add_batch-Grows vs bits')
          (set_bits-AllSet before ps bits done))
