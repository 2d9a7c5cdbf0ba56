-- ===== src/Random/Product.antt =====
-- LevelDB/util/random.h: Next as a product to the modulus.
use leveldb_windows.Base.{
  ℕ, zero, suc, ◌+◌, ◌-◌, ◌*◌, ◌/◌, ◌%◌, ◌^◌, ◌<◌, ◌≤◌, ◌≡◌, ◌≢◌, refl, sym, ◌∙◌, arith, Bool-cases,
  ltb, if◌then◌else◌, bit_and, inl, inr,
}
use leveldb_windows.Base.Bits.{bit_and_step, bit_and-zero}
use leveldb_windows.Random.{modulus, multiplier, new_random, next}

-- A mask of the low 31 bits.
abbrev low_bits : ℕ → ℕ
low_bits zero = 0
low_bits (suc s) = low_bits s * 2 + 1

abbrev power : ℕ → ℕ
power zero = 1
power (suc s) = power s * 2

masked :
    (s a : ℕ)
    → (q : ℕ) × (bit_and a (low_bits s) + q * power s ≡ a) × (bit_and a (low_bits s) < power s)
masked zero a = (a, omega (arith, bit_and-zero a), omega (arith, bit_and-zero a))
masked (suc s) a =
    let (q, sum, below) = masked s (a / 2) in
    let step = bit_and_step a (low_bits (suc s)) in
    let half : (low_bits s * 2 + 1) / 2 ≡ low_bits s = omega arith in
    let low : bit_and (a / 2) ((low_bits s * 2 + 1) / 2) ≡ bit_and (a / 2) (low_bits s) =
      rw half refl in
    let scaled : q * (power s * 2) ≡ q * power s * 2 = omega arith in
    (q, omega (arith, step, low, sum, scaled), omega (arith, step, low, below))

bit_and_low31 : (a : ℕ) → bit_and a 0x7fff_ffff ≡ a % 2147483648
bit_and_low31 a = let (q, sum, below) = masked 31 a in omega (arith, sum, below)

abbrev pub IsSeed : ℕ → Type 0
IsSeed seed = (0 < seed) × (seed < modulus)

never_multiple : (seed k : ℕ) → IsSeed seed → seed * 16807 ≢ k * 2147483647
never_multiple seed k h e = omega arith

-- A number of the product's size keeps its remainder when its high bits are added to its low ones.
folded :
    (p : ℕ)
    → p < 2147483648 * 16807
    → p % 2147483647 ≡ (p / 2147483648 + p % 2147483648) % 2147483647
folded p h = omega arith

-- One subtraction is enough.
subtracted :
    (v : ℕ)
    → v < 2 * modulus
    → 0 < v % modulus
    → (if ltb modulus v then v - modulus else v) ≡ v % modulus
subtracted v small pos = elim (Bool-cases (ltb modulus v)) [
  | inl above ↦ let over : modulus < v = ground (arith, above) in rw above (omega arith)
  | inr below ↦ let under : v ≤ modulus = ground (arith, below) in rw below (omega arith)
]

-- On a seed that is neither zero nor the modulus, the next one is the product of the seed and the
-- multiplier to the modulus, computed in words of 32 and 64 bits, and is neither zero nor the modulus.
pub next_remainder :
    (seed : ℕ) → IsSeed seed → (next seed ≡ seed * multiplier % modulus) × IsSeed (next seed)
unfolding next
next_remainder seed h =
    let p = seed * 16807 in
    let fits : p % 2 ^ 64 ≡ p = omega arith in
    let low = bit_and_low31 p in
    let sum = folded p (omega arith) in
    let never = never_multiple seed (p / 2147483647) h in
    let folds = p / 2147483648 + p % 2147483648 in
    let whole : folds % 2 ^ 32 ≡ folds = omega arith in
    let reduced = subtracted folds (omega arith) (omega (arith, sum, never)) in
    let value : (if ltb modulus folds then folds - modulus else folds) ≡ p % modulus =
      reduced ∙ sym sum in
    rw (fits, low, whole, value) (refl, (omega (arith, never), omega arith))

-- The constructor's seed is one of them, whatever number it is given.
pub new_random-IsSeed : (s : ℕ) → IsSeed (new_random s)
unfolding new_random
new_random-IsSeed s = let low = bit_and_low31 s in ground (arith, low)
