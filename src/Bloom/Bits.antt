-- ===== src/Bloom/Bits.antt =====
-- LevelDB/util/bloom.cc: the bits of the array of a filter.
use leveldb_windows.Base.{
  ℕ, zero, suc, ◌+◌, ◌*◌, ◌/◌, ◌%◌, ◌^◌, ◌<◌, ◌≡◌, refl, arith, Bool, true, false, not, ◌||◌, [],
  ◌∷◌, Bytes, IsByte, length, get_or, set, length-set, All, ◌==◌, if◌then◌else◌, bit_and, bit_or,
  Bool-cases, inl, inr, ◌≢◌, ap,
}
use leveldb_windows.Bloom.{set_bit, has_bit}

module _ (p : ℕ → Bool) where
  all_below : ℕ → Bool
  all_below zero = true
  all_below (suc n) = if p n then all_below n else false

  all_below-lem : (n x : ℕ) → all_below n ≡ true → x < n → p x ≡ true
  unfolding all_below
  all_below-lem zero x h lt = absurd (omega arith)
  all_below-lem (suc n) x h lt = ground (arith, all_below-lem n x)

abbrev bit_of : ℕ → ℕ → Bool
bit_of x j = if bit_and x (2 ^ j) == 0 then false else true

abbrev or_bit : ℕ → ℕ → ℕ
or_bit x i = bit_or x (2 ^ i) % 256

set_table : all_below (λ n. bit_of (or_bit (n / 8) (n % 8)) (n % 8)) 2048 ≡ true
unfolding all_below
set_table = refl

keep_table :
    all_below
      (λ n. not (bit_of (n / 64) (n % 8)) || bit_of (or_bit (n / 64) (n / 8 % 8)) (n % 8))
      16384
    ≡ true
unfolding all_below
keep_table = refl

bit_of-or_bit_self : (x j : ℕ) → IsByte x → j < 8 → bit_of (or_bit x j) j ≡ true
bit_of-or_bit_self x j hx hj =
    let n = x * 8 + j in
    let e : n / 8 ≡ x = omega arith in
    let f : n % 8 ≡ j = omega arith in rw (e, f) at (all_below-lem _ 2048 n set_table (omega arith))

bit_of-or_bit :
    (x i j : ℕ) → IsByte x → i < 8 → j < 8 → bit_of x j ≡ true → bit_of (or_bit x i) j ≡ true
bit_of-or_bit x i j hx hi hj h =
    let n = x * 64 + i * 8 + j in
    let e : n / 64 ≡ x = omega arith in
    let f : n / 8 % 8 ≡ i = omega arith in
    let g : n % 8 ≡ j = omega arith in
    rw (e, f, g, h) at (all_below-lem _ 16384 n keep_table (omega arith))

get_or-set_self : (xs : Bytes) (i v : ℕ) → i < length xs → get_or (set xs i v) i 0 ≡ v
get_or-set_self [] i v h = absurd (omega arith)
get_or-set_self (x ∷ xs) zero v h = refl
get_or-set_self (x ∷ xs) (suc i) v h = get_or-set_self xs i v (omega arith)

get_or-set_ne : (xs : Bytes) (i j v : ℕ) → i ≢ j → get_or (set xs i v) j 0 ≡ get_or xs j 0
get_or-set_ne [] i j v h = refl
get_or-set_ne (x ∷ xs) zero zero v h = absurd (h refl)
get_or-set_ne (x ∷ xs) zero (suc j) v h = refl
get_or-set_ne (x ∷ xs) (suc i) zero v h = refl
get_or-set_ne (x ∷ xs) (suc i) (suc j) v h = get_or-set_ne xs i j v (λ e. h (ap suc e))

get_or-IsByte : (xs : Bytes) (i : ℕ) → All IsByte xs → IsByte (get_or xs i 0)
get_or-IsByte [] i h = omega arith
get_or-IsByte (x ∷ xs) zero h = h.0
get_or-IsByte (x ∷ xs) (suc i) h = get_or-IsByte xs i h.1

set-IsByte : (xs : Bytes) (i v : ℕ) → All IsByte xs → IsByte v → All IsByte (set xs i v)
set-IsByte [] i v h hv = tt
set-IsByte (x ∷ xs) zero v h hv = (hv, h.1)
set-IsByte (x ∷ xs) (suc i) v h hv = (h.0, set-IsByte xs i v h.1 hv)

pub set_bit-IsByte : (array : Bytes) (i : ℕ) → All IsByte array → All IsByte (set_bit array i)
unfolding set_bit
set_bit-IsByte array i h = set-IsByte array (i / 8) _ h (omega arith)

pub length-set_bit : (array : Bytes) (i : ℕ) → length (set_bit array i) ≡ length array
unfolding set_bit
length-set_bit array i = length-set array (i / 8) _

-- A bit inside the array is there once it has been set.
pub has_bit-set_bit_self :
    (array : Bytes) (i : ℕ)
    → All IsByte array
    → i < length array * 8
    → has_bit (set_bit array i) i ≡ true
unfolding has_bit set_bit
has_bit-set_bit_self array i h lt = rw (get_or-set_self array (i / 8) _ (omega arith)) (
    bit_of-or_bit_self (get_or array (i / 8) 0) (i % 8) (get_or-IsByte array (i / 8) h)
      (omega arith))

-- Setting a bit clears none.
pub has_bit-set_bit :
    (array : Bytes) (i j : ℕ)
    → All IsByte array
    → i < length array * 8
    → has_bit array j ≡ true
    → has_bit (set_bit array i) j ≡ true
unfolding has_bit set_bit
has_bit-set_bit array i j h lt found = elim (Bool-cases (i / 8 == j / 8)) [
  | inl same ↦
      let e : i / 8 ≡ j / 8 = ground arith in
      rw e (
        rw (get_or-set_self array (j / 8) _ (omega arith)) (
          bit_of-or_bit (get_or array (j / 8) 0) (i % 8) (j % 8) (get_or-IsByte array (j / 8) h)
            (omega arith) (omega arith) found))
  | inr differ ↦
      let d : i / 8 ≢ j / 8 = ground arith in rw (get_or-set_ne array (i / 8) (j / 8) _ d) found
]
