-- ===== src/Random/Runs.antt =====
-- Runs of the generator.
use leveldb_windows.Base.{◌*◌, ◌%◌, ◌≡◌, refl, arith}
use leveldb_windows.Random.{modulus, multiplier, next, new_random}
use leveldb_windows.Random.Product.{IsSeed, next_remainder}

-- The seed that would stay itself is replaced.
bad_seed : new_random 0xffff_ffff ≡ 1
unfolding new_random
bad_seed = refl

next_remainder_example :
    (next 2147483646 ≡ 2147483646 * multiplier % modulus) × IsSeed (next 2147483646)
next_remainder_example = next_remainder 2147483646 (omega arith, omega arith)
