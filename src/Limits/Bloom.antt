-- ===== src/Limits/Bloom.antt =====
-- backend/src/cps/cache/bloom_filter.py. `digest` are the two halves of the MD5 of a text, big-endian. The
-- bitmap in Redis is the list of the positions that are set. `faults` lists what becomes of the commands
-- to come, false one that fails; past its end every command runs.
use gaking.Base.{
  ℕ, zero, suc, ◌+◌, ◌*◌, ◌%◌, Bool, true, false, List, [], ◌∷◌, ◌==◌, ◌||◌, if◌then◌else◌,
}
use Prim.Native.String.{String}

pub record Filter : Type 0 where
  pub bit_size : ℕ
  pub hash_count : ℕ

-- GETBIT
unfoldable pub getbit : ℕ → List ℕ → Bool
getbit p [] = false
getbit p (x ∷ xs) = x == p || getbit p xs

-- `for i in range(hash_count)`, from `i` on
unfoldable pub positions_from : ℕ → ℕ → ℕ → ℕ → ℕ → List ℕ
positions_from zero i h1 h2 m = []
positions_from (suc n) i h1 h2 m = (h1 + i * h2) % m ∷ positions_from n (suc i) h1 h2 m

-- the loop of `add`
unfoldable pub set_bits : List Bool → List ℕ → List ℕ → Bool × List ℕ
set_bits faults [] bits = (true, bits)
set_bits [] (p ∷ ps) bits = set_bits [] ps (p ∷ bits)
set_bits (true ∷ faults) (p ∷ ps) bits = set_bits faults ps (p ∷ bits)
set_bits (false ∷ faults) (p ∷ ps) bits = (false, bits)

-- the loop of `exists`: a command that fails is an answer of yes
unfoldable pub all_set : List Bool → List ℕ → List ℕ → Bool
all_set faults [] bits = true
all_set [] (p ∷ ps) bits = if getbit p bits then all_set [] ps bits else false
all_set (true ∷ faults) (p ∷ ps) bits = if getbit p bits then all_set faults ps bits else false
all_set (false ∷ faults) (p ∷ ps) bits = true

module _ (digest : String → ℕ × ℕ) (f : Filter) where
  -- `_get_positions`
  unfoldable pub get_positions : String → List ℕ
  get_positions v =
      let (h1, h2) = digest v in
      positions_from f.hash_count 0 h1 (if h2 == 0 then 1 else h2) f.bit_size

  unfoldable pub add : List Bool → String → List ℕ → Bool × List ℕ
  add faults v bits = set_bits faults (get_positions v) bits

  unfoldable pub exists : List Bool → String → List ℕ → Bool
  exists faults v bits = all_set faults (get_positions v) bits

  -- `add_batch`, each text with the faults of its commands
  unfoldable pub add_batch : List (List Bool × String) → List ℕ → ℕ × List ℕ
  add_batch [] bits = (0, bits)
  add_batch (v ∷ vs) bits =
      let (done, bits') = add v.0 v.1 bits in
      let (n, bits'') = add_batch vs bits' in (if done then suc n else n, bits'')

-- `clear`
unfoldable pub clear : List ℕ → Bool × List ℕ
clear [] = (false, [])
clear (b ∷ bits) = (true, [])
