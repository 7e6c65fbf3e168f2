-- ===== src/Tests/Limits.antt =====
-- The theorems on backend/src/common/rate_limit_util.py and backend/src/cps/cache/bloom_filter.py, at
-- concrete inputs.
use gaking.Base.{ℕ, ◌≡◌, ◌≤◌, refl, true, false, [], ◌∷◌, arith}
use gaking.Base.Table.{Table, find}
use gaking.Limits.Sliding.{Limit, passed, Respects, passed-Respects}
use gaking.Limits.Fixed.{Counter, Request, passes, failures, passes-bounded}
use gaking.Limits.Bloom.{Filter, add, add_batch, exists, get_positions, positions_from, set_bits}
use gaking.Limits.BloomLaws.{add-exists}
use Prim.Native.String.{String}

abbrev two_a_minute : Limit
two_a_minute = record { limit = 2; window = 60 }

abbrev at : ℕ → Request
at now = record { now = now; jittered = 70; ran = true }

passed-Respects_example : Respects two_a_minute (passed two_a_minute (10 ∷ 20 ∷ 30 ∷ 75 ∷ []) [] [])
passed-Respects_example =
    passed-Respects two_a_minute (10 ∷ 20 ∷ 30 ∷ 75 ∷ [])
      (omega arith, (omega arith, (omega arith, (omega arith, tt))))

-- one request that does not reach Redis
abbrev lost : Request
lost = record { now = 62; jittered = 70; ran = false }

passes-bounded_example : passes two_a_minute (at 61 ∷ lost ∷ at 62 ∷ at 63 ∷ []) [] ≤ 3
unfolding find failures
passes-bounded_example =
    passes-bounded two_a_minute 60 1 (at 61 ∷ lost ∷ at 62 ∷ at 63 ∷ []) []
      (
        refl,
        omega arith,
        omega arith,
        omega arith,
        (
          refl,
          omega arith,
          omega arith,
          omega arith,
          (
            refl,
            omega arith,
            omega arith,
            omega arith,
            (refl, omega arith, omega arith, omega arith, tt),
          ),
        ),
      )
      refl

abbrev dropped : Table Counter
dropped = (1, record { count = 2; deadline = 110 }) ∷ []

abbrev small : Filter
small = record { bit_size = 16; hash_count = 3 }

abbrev digest : String → ℕ × ℕ
digest v = (5, 7)

add-exists_example :
    exists digest small [] "g1"
      (add_batch digest small (([], "g2") ∷ []) (add digest small [] "g1" []).1).1
    ≡ true
unfolding add get_positions positions_from set_bits
add-exists_example = add-exists digest small [] [] "g1" (([], "g2") ∷ []) [] refl
