-- ===== src/Random.antt =====
-- LevelDB/util/random.h: the generator of pseudo-random numbers. Its seed is its state; a number comes
-- with the next seed.
pub mod Product
mod Runs
use leveldb_windows.Base.{
  ℕ, ◌+◌, ◌-◌, ◌*◌, ◌/◌, ◌%◌, ◌^◌, Bool, ltb, ◌==◌, ◌||◌, if◌then◌else◌, bit_and,
}

-- `M` and `A`.
abbrev pub modulus : ℕ
modulus = 2147483647

abbrev pub multiplier : ℕ
multiplier = 16807

pub new_random : ℕ → ℕ
new_random s =
    let seed = bit_and s 0x7fff_ffff in if seed == 0 || seed == 2147483647 then 1 else seed

pub next : ℕ → ℕ
next seed =
    let product = seed * multiplier % 2 ^ 64 in
    let seed' = (product / 2 ^ 31 + bit_and product modulus) % 2 ^ 32 in
    if ltb modulus seed' then seed' - modulus else seed'

pub uniform : ℕ → ℕ → ℕ × ℕ
uniform seed n = (next seed % n, next seed)

pub one_in : ℕ → ℕ → Bool × ℕ
one_in seed n = (next seed % n == 0, next seed)

-- `1 << n` is of 32 bits with a sign, so `max_log` is at most 30.
pub skewed : ℕ → ℕ → ℕ × ℕ
skewed seed max_log = let (log, seed') = uniform seed (max_log + 1) in uniform seed' (2 ^ log)
