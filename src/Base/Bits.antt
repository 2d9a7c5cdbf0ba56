-- ===== src/Base/Bits.antt =====
-- The masks and the shifted `|` of the program as arithmetic, at every value.
use Prim.Native.Nat.{
  ℕ, zero, suc, ◌+◌, ◌*◌, ◌/◌, ◌%◌, ◌^◌, ◌≤◌, ◌<◌, min, max, bit_and, bit_or, digits,
  bit_and-bitwise, bit_or-bitwise,
}
use mathlib.Core.Path.{◌≡◌, refl, ap}
use native.Mathlib.Omega.{arith}

-- Both operations are the library's `digits`, with as many rounds as the first operand is large;
-- any number of rounds from there on gives the same.
module _ (past : ℕ → ℕ) (op : ℕ → ℕ → ℕ) where
  rounds_suffice : (b a n k : ℕ) → (a ≤ n) × (a ≤ k) → digits past op n a b ≡ digits past op k a b
  rounds_suffice b zero zero zero h = refl
  rounds_suffice b zero zero (suc k) h = refl
  rounds_suffice b zero (suc n) zero h = refl
  rounds_suffice b zero (suc n) (suc k) h = refl
  rounds_suffice b (suc a) zero k h = absurd (omega arith)
  rounds_suffice b (suc a) (suc n) zero h = absurd (omega arith)
  rounds_suffice b (suc a) (suc n) (suc k) h =
      ap (λ (high : ℕ). high * 2 + op (suc a % 2) (b % 2))
        (rounds_suffice (b / 2) (suc a / 2) n k (omega arith, omega arith))

  halves :
      (a b : ℕ)
      → digits past op (suc a) (suc a) b
        ≡ digits past op (suc a / 2) (suc a / 2) (b / 2) * 2 + op (suc a % 2) (b % 2)
  halves a b =
      ap (λ (high : ℕ). high * 2 + op (suc a % 2) (b % 2))
        (rounds_suffice (b / 2) (suc a / 2) a (suc a / 2) (omega arith, omega arith))

zero-bit_and : (b : ℕ) → bit_and 0 b ≡ 0
zero-bit_and b = bit_and-bitwise 0 b

pub zero-bit_or : (b : ℕ) → bit_or 0 b ≡ b
zero-bit_or b = bit_or-bitwise 0 b

-- `&` on the halves and on the low digits.
pub bit_and_step :
    (word mask : ℕ)
    → bit_and word mask ≡ bit_and (word / 2) (mask / 2) * 2 + min (word % 2) (mask % 2)
bit_and_step zero mask = omega (arith, zero-bit_and (mask / 2), zero-bit_and mask)
bit_and_step (suc word) mask =
    let all_digits : bit_and (suc word) mask ≡ digits (λ y. zero) min (suc word) (suc word) mask =
      λ i. bit_and-bitwise (suc word) mask i in
    let high_digits : bit_and (suc word / 2) (mask / 2)
        ≡ digits (λ y. zero) min (suc word / 2) (suc word / 2) (mask / 2) =
      λ i. bit_and-bitwise (suc word / 2) (mask / 2) i in
    omega (arith, all_digits, high_digits, halves (λ y. zero) min word mask)

bit_or_step : (a b : ℕ) → bit_or a b ≡ bit_or (a / 2) (b / 2) * 2 + max (a % 2) (b % 2)
bit_or_step zero b = omega (arith, zero-bit_or (b / 2), zero-bit_or b)
bit_or_step (suc a) b =
    let whole : bit_or (suc a) b ≡ digits (λ y. y) max (suc a) (suc a) b =
      λ i. bit_or-bitwise (suc a) b i in
    let half : bit_or (suc a / 2) (b / 2) ≡ digits (λ y. y) max (suc a / 2) (suc a / 2) (b / 2) =
      λ i. bit_or-bitwise (suc a / 2) (b / 2) i in
    omega (arith, whole, half, halves (λ y. y) max a b)

-- An empty mask, by the number of digits.
no_mask : (n a : ℕ) → a ≤ n → (bit_and a 0 ≡ 0) × (bit_or a 0 ≡ a)
no_mask n zero h = (refl, refl)
no_mask zero (suc a) h = absurd (omega arith)
no_mask (suc n) (suc a) h =
    let (high_and, high_or) = no_mask n (suc a / 2) (omega arith) in
    (omega (arith, bit_and_step (suc a) 0, high_and), omega (arith, bit_or_step (suc a) 0, high_or))

pub bit_and-zero : (a : ℕ) → bit_and a 0 ≡ 0
bit_and-zero a = (no_mask a a (omega arith)).0

pub bit_or-zero : (a : ℕ) → bit_or a 0 ≡ a
bit_or-zero a = (no_mask a a (omega arith)).1

bit_and-one : (a : ℕ) → bit_and a 1 ≡ a % 2
bit_and-one a = omega (arith, bit_and_step a 1, bit_and-zero (a / 2))

bit_and-fifteen : (a : ℕ) → bit_and a 15 ≡ a % 16
bit_and-fifteen a = omega (
  arith,
  bit_and_step a 15,
  bit_and_step (a / 2) 7,
  bit_and_step (a / 2 / 2) 3,
  bit_and-one (a / 2 / 2 / 2),
)

-- `a & 127`
pub bit_and_low7 : (a : ℕ) → bit_and a 127 ≡ a % 128
bit_and_low7 a = omega (
  arith,
  bit_and_step a 127,
  bit_and_step (a / 2) 63,
  bit_and_step (a / 2 / 2) 31,
  bit_and-fifteen (a / 2 / 2 / 2),
)

-- `a & 0xff`
pub bit_and_low8 : (a : ℕ) → bit_and a 255 ≡ a % 256
bit_and_low8 a = omega (
  arith,
  bit_and_step a 255,
  bit_and_step (a / 2) 127,
  bit_and_step (a / 2 / 2) 63,
  bit_and_step (a / 2 / 2 / 2) 31,
  bit_and-fifteen (a / 2 / 2 / 2 / 2),
)

bit_and-sixteen : (a : ℕ) → bit_and a 16 ≡ a / 16 % 2 * 16
bit_and-sixteen a = omega (
  arith,
  bit_and_step a 16,
  bit_and_step (a / 2) 8,
  bit_and_step (a / 2 / 2) 4,
  bit_and_step (a / 2 / 2 / 2) 2,
  bit_and-one (a / 2 / 2 / 2 / 2),
)

-- `a & 128`
pub bit_and_bit7 : (a : ℕ) → bit_and a 128 ≡ a / 128 % 2 * 128
bit_and_bit7 a = omega (
  arith,
  bit_and_step a 128,
  bit_and_step (a / 2) 64,
  bit_and_step (a / 2 / 2) 32,
  bit_and-sixteen (a / 2 / 2 / 2),
)

bit_or-one : (a : ℕ) → bit_or a 1 ≡ a / 2 * 2 + 1
bit_or-one a = omega (arith, bit_or_step a 1, bit_or-zero (a / 2))

bit_or-sixteen : (a : ℕ) → bit_or a 16 ≡ a / 32 * 32 + 16 + a % 16
bit_or-sixteen a = omega (
  arith,
  bit_or_step a 16,
  bit_or_step (a / 2) 8,
  bit_or_step (a / 2 / 2) 4,
  bit_or_step (a / 2 / 2 / 2) 2,
  bit_or-one (a / 2 / 2 / 2 / 2),
)

bit_or-bit7 : (a : ℕ) → bit_or a 128 ≡ a / 256 * 256 + 128 + a % 128
bit_or-bit7 a = omega (
  arith,
  bit_or_step a 128,
  bit_or_step (a / 2) 64,
  bit_or_step (a / 2 / 2) 32,
  bit_or-sixteen (a / 2 / 2 / 2),
)

-- The low byte of `a | 128`
pub bit_or_bit7_byte : (a : ℕ) → bit_or a 128 % 256 ≡ a % 128 + 128
bit_or_bit7_byte a = omega (arith, bit_or-bit7 a)

pub pow_suc2 : (s : ℕ) → 2 ^ suc s ≡ 2 ^ s + 2 ^ s
pow_suc2 s = omega arith

pub pow2_pos : (s : ℕ) → 0 < 2 ^ s
pow2_pos zero = omega arith
pow2_pos (suc s) = omega (arith, pow_suc2 s, pow2_pos s)

half_shifted : (s x : ℕ) → x * 2 ^ suc s ≡ x * 2 ^ s + x * 2 ^ s
half_shifted s x = rw pow_suc2 (omega arith)

-- `|` with a multiple of a power above the left operand is a sum.
pub bit_or_shifted : (s a x : ℕ) → a < 2 ^ s → bit_or a (x * 2 ^ s) ≡ a + x * 2 ^ s
bit_or_shifted zero zero x h = omega (arith, zero-bit_or (x * 1))
bit_or_shifted zero (suc a) x h = absurd (omega arith)
bit_or_shifted (suc s) a x h =
    let e : (x * 2 ^ suc s) / 2 ≡ x * 2 ^ s = omega (arith, half_shifted s x) in
    let lower : a / 2 < 2 ^ s = omega (arith, pow_suc2 s) in
    let step : bit_or (a / 2) ((x * 2 ^ suc s) / 2) ≡ a / 2 + x * 2 ^ s =
      rw e (bit_or_shifted s (a / 2) x lower) in
    omega (arith, bit_or_step a (x * 2 ^ suc s), half_shifted s x, step)

bit_or-comm_bounded : (n a b : ℕ) → a ≤ n → b ≤ n → bit_or a b ≡ bit_or b a
bit_or-comm_bounded zero zero zero p q = refl
bit_or-comm_bounded zero zero (suc b) p q = absurd (omega arith)
bit_or-comm_bounded zero (suc a) b p q = absurd (omega arith)
bit_or-comm_bounded (suc n) zero b p q = omega (arith, zero-bit_or b, bit_or-zero b)
bit_or-comm_bounded (suc n) (suc a) zero p q =
    omega (arith, zero-bit_or (suc a), bit_or-zero (suc a))
bit_or-comm_bounded (suc n) (suc a) (suc b) p q = omega (
  arith,
  bit_or_step (suc a) (suc b),
  bit_or_step (suc b) (suc a),
  bit_or-comm_bounded n (suc a / 2) (suc b / 2) (omega arith) (omega arith),
)

pub bit_or_comm : (a b : ℕ) → bit_or a b ≡ bit_or b a
bit_or_comm a b = bit_or-comm_bounded (a + b) a b (omega arith) (omega arith)

-- `|` stays within a word.
pub bit_or-lt-pow : (s a b : ℕ) → a < 2 ^ s → b < 2 ^ s → bit_or a b < 2 ^ s
bit_or-lt-pow zero zero zero p q = omega arith
bit_or-lt-pow zero zero (suc b) p q = absurd (omega arith)
bit_or-lt-pow zero (suc a) b p q = absurd (omega arith)
bit_or-lt-pow (suc s) a b p q = omega (
  arith,
  pow_suc2 s,
  bit_or_step a b,
  bit_or-lt-pow s (a / 2) (b / 2) (omega (arith, pow_suc2 s)) (omega (arith, pow_suc2 s)),
)
