-- ===== src/Bloom/Sound.antt =====
-- LevelDB/util/bloom.cc: CreateFilter and KeyMayMatch on the same array of bits.
use leveldb_windows.Base.{
  ℕ, zero, suc, ◌+◌, ◌-◌, ◌*◌, ◌%◌, ◌^◌, ◌≤◌, ◌<◌, ◌≡◌, refl, ap, arith, true, false, List, [], ◌∷◌,
  ◌++◌, Bytes, IsByte, length, length-append, length-replicate, get_or, replicate, take-append, All,
  ltb, widen_int_small,
}
use leveldb_windows.Bloom.{
  HasNoFalseNegatives, BloomFilterPolicy, new_bloom_filter_policy, bloom_hash, rotate, set_bit,
  has_bit, set_probes, has_probes, set_keys, filter_bytes, bloom_create_filter, bloom_key_may_match,
  bloom_policy,
}
use leveldb_windows.Bloom.Bits.{
  set_bit-IsByte, length-set_bit, has_bit-set_bit_self, has_bit-set_bit,
}

-- An array of bytes with `bits` bits, more than none.
record IsArray (bits : ℕ) (array : Bytes) : Type 0 where
  bytes : All IsByte array
  size : length array * 8 ≡ bits
  some_bit : 0 < bits

set_bit-IsArray : (bits i : ℕ) (array : Bytes) → IsArray bits array → IsArray bits (set_bit array i)
set_bit-IsArray bits i array a = record {
  bytes = set_bit-IsByte array i a.bytes;
  size = rw length-set_bit a.size;
  some_bit = a.some_bit;
}

probe_inside : (bits h : ℕ) (array : Bytes) → IsArray bits array → h % bits < length array * 8
probe_inside bits h array a = rw a.size (omega (arith, a.some_bit))

set_probes-IsArray :
    (j h delta bits : ℕ) (array : Bytes)
    → IsArray bits array
    → IsArray bits (set_probes j h delta bits array)
unfolding set_probes
set_probes-IsArray zero h delta bits array a = a
set_probes-IsArray (suc j) h delta bits array a =
    set_probes-IsArray j ((h + delta) % 2 ^ 32) delta bits (set_bit array (h % bits))
      (set_bit-IsArray bits (h % bits) array a)

-- Later probes keep a bit.
has_bit-set_probes :
    (j h delta bits q : ℕ) (array : Bytes)
    → IsArray bits array
    → has_bit array q ≡ true
    → has_bit (set_probes j h delta bits array) q ≡ true
unfolding set_probes
has_bit-set_probes zero h delta bits q array a found = found
has_bit-set_probes (suc j) h delta bits q array a found =
    has_bit-set_probes j ((h + delta) % 2 ^ 32) delta bits q (set_bit array (h % bits))
      (set_bit-IsArray bits (h % bits) array a)
      (has_bit-set_bit array (h % bits) q a.bytes (probe_inside bits h array a) found)

-- The probes of a key are found once they have been set.
has_probes-set_probes :
    (j h delta bits : ℕ) (array : Bytes)
    → IsArray bits array
    → has_probes j h delta bits (set_probes j h delta bits array) ≡ true
unfolding has_probes set_probes
has_probes-set_probes zero h delta bits array a = refl
has_probes-set_probes (suc j) h delta bits array a =
    let next = set_bit array (h % bits) in
    let a' = set_bit-IsArray bits (h % bits) array a in
    let first : has_bit (set_probes j ((h + delta) % 2 ^ 32) delta bits next) (h % bits) ≡ true =
      has_bit-set_probes j ((h + delta) % 2 ^ 32) delta bits (h % bits) next a'
        (has_bit-set_bit_self array (h % bits) a.bytes (probe_inside bits h array a)) in
    rw first (has_probes-set_probes j ((h + delta) % 2 ^ 32) delta bits next a')

-- They stay found while another key is added.
has_probes_kept :
    (j h delta bits i g gamma : ℕ) (array : Bytes)
    → IsArray bits array
    → has_probes j h delta bits array ≡ true
    → has_probes j h delta bits (set_probes i g gamma bits array) ≡ true
unfolding has_probes
has_probes_kept zero h delta bits i g gamma array a found = refl
has_probes_kept (suc j) h delta bits i g gamma array a found = ground (
  arith,
  has_bit-set_probes i g gamma bits (h % bits) array a,
  has_probes_kept j ((h + delta) % 2 ^ 32) delta bits i g gamma array a,
)

module _ (k bits : ℕ) where
  abbrev Found : Bytes → Bytes → Type 0
  Found array key = has_probes k (bloom_hash key) (rotate (bloom_hash key)) bits array ≡ true

  set_keys-IsArray :
      (keys : List Bytes) (array : Bytes)
      → IsArray bits array
      → IsArray bits (set_keys k bits keys array)
  unfolding set_keys
  set_keys-IsArray [] array a = a
  set_keys-IsArray (key ∷ keys) array a =
      set_keys-IsArray keys _ (set_probes-IsArray k (bloom_hash key) _ bits array a)

  Found-set_keys :
      (keys : List Bytes) (array key : Bytes)
      → IsArray bits array
      → Found array key
      → Found (set_keys k bits keys array) key
  unfolding set_keys
  Found-set_keys [] array key a found = found
  Found-set_keys (next ∷ keys) array key a found =
      let h = bloom_hash next in
      Found-set_keys keys (set_probes k h (rotate h) bits array) key
        (set_probes-IsArray k h (rotate h) bits array a)
        (has_probes_kept k (bloom_hash key) (rotate (bloom_hash key)) bits k h (rotate h) array a
          found)

  All-Found :
      (keys : List Bytes) (array : Bytes)
      → IsArray bits array
      → All (Found (set_keys k bits keys array)) keys
  unfolding set_keys
  All-Found [] array a = tt
  All-Found (key ∷ keys) array a =
      let h = bloom_hash key in
      let next = set_probes k h (rotate h) bits array in
      let a' = set_probes-IsArray k h (rotate h) bits array a in
      (
        Found-set_keys keys next key a' (has_probes-set_probes k h (rotate h) bits array a),
        All-Found keys next a',
      )

replicate-IsByte : (n : ℕ) → All IsByte (replicate n 0)
replicate-IsByte zero = tt
replicate-IsByte (suc n) = (omega arith, replicate-IsByte n)

filter_bytes_enough :
    (p : BloomFilterPolicy) (n : ℕ) → n * p.bits_per_key + 7 < 2 ^ 64 → 8 ≤ filter_bytes p n
unfolding filter_bytes
filter_bytes_enough p n fits = ground arith

fresh-IsArray : (n : ℕ) → 0 < n → IsArray (n * 8) (replicate n 0)
fresh-IsArray n h = record {
  bytes = replicate-IsByte n;
  size = ap (λ (t : ℕ). t * 8) (length-replicate n 0);
  some_bit = omega arith;
}

get_or-append : (xs : Bytes) (y : ℕ) → get_or (xs ++ (y ∷ [])) (length xs) 0 ≡ y
get_or-append [] y = refl
get_or-append (x ∷ xs) y = get_or-append xs y

-- `KeyMayMatch` on an array with its number of probes behind it probes that array.
key_may_match-array :
    (k : ℕ) (array key : Bytes)
    → k ≤ 30
    → 0 < length array
    → Found k (length array * 8) array key
    → bloom_key_may_match key (array ++ (k % 256 ∷ [])) ≡ true
unfolding bloom_key_may_match
key_may_match-array k array key small some found =
    let size : length (array ++ (k % 256 ∷ [])) ≡ suc (length array) =
      omega (arith, length-append array (k % 256 ∷ [])) in
    let len : suc (length array) - 1 ≡ length array = omega arith in
    let probes : k % 256 ≡ k = omega arith in
    let long : ltb (suc (length array)) 2 ≡ false = ground arith in
    let few : ltb 30 k ≡ false = ground arith in
    rw (size, len, take-append array _, get_or-append array _, probes, long, few) found

All-map :
    {P Q : Bytes → Type 0} (keys : List Bytes)
    → ((key : Bytes) → P key → Q key)
    → All P keys
    → All Q keys
All-map [] f h = tt
All-map (key ∷ keys) f h = (f key h.0, All-map keys f h.1)

module _ (p : BloomFilterPolicy) (small : p.k ≤ 30) (keys : List Bytes)
    (fits : length keys * p.bits_per_key + 7 < 2 ^ 64) where
  abbrev array : Bytes
  array =
      let bytes = filter_bytes p (length keys) in set_keys p.k (bytes * 8) keys (replicate bytes 0)

  array-IsArray : IsArray (filter_bytes p (length keys) * 8) array
  array-IsArray = set_keys-IsArray p.k _ keys _ (
      fresh-IsArray (filter_bytes p (length keys))
        (omega (arith, filter_bytes_enough p (length keys) fits)))

  matches : All (λ key. bloom_key_may_match key (bloom_create_filter p keys []) ≡ true) keys
  unfolding bloom_create_filter
  matches =
      let some : 0 < length array =
        omega (arith, array-IsArray.size, filter_bytes_enough p (length keys) fits) in
      All-map keys
        (λ key found. key_may_match-array p.k array key small some (rw array-IsArray.size found))
        (All-Found p.k (filter_bytes p (length keys) * 8) keys
          (replicate (filter_bytes p (length keys)) 0)
          (fresh-IsArray (filter_bytes p (length keys))
            (omega (arith, filter_bytes_enough p (length keys) fits))))

  appends : (dst : Bytes) → bloom_create_filter p keys dst ≡ dst ++ bloom_create_filter p keys []
  unfolding bloom_create_filter
  appends dst = refl

new_k-le : (bits_per_key scaled : ℕ) → (new_bloom_filter_policy bits_per_key scaled).k ≤ 30
unfolding new_bloom_filter_policy
new_k-le bits_per_key scaled = ground arith

new_bits_per_key :
    (bits_per_key scaled : ℕ)
    → bits_per_key < 2 ^ 31
    → (new_bloom_filter_policy bits_per_key scaled).bits_per_key ≡ bits_per_key
unfolding new_bloom_filter_policy
new_bits_per_key bits_per_key scaled h = widen_int_small bits_per_key h

-- The policy that the constructor makes of a number of bits per key that is not negative has no false
-- negatives: every key that a filter was made for matches it, whatever stood in the string before it.
-- All the keys take fewer than 2^32 - 7 bits, so that no sum wraps in a `size_t`.
pub bloom-HasNoFalseNegatives :
    (bits_per_key scaled : ℕ) (keys : List Bytes)
    → bits_per_key < 2 ^ 31
    → length keys * bits_per_key + 7 < 2 ^ 32
    → HasNoFalseNegatives (bloom_policy (new_bloom_filter_policy bits_per_key scaled)) keys
bloom-HasNoFalseNegatives bits_per_key scaled keys positive few =
    let p = new_bloom_filter_policy bits_per_key scaled in
    let small = new_k-le bits_per_key scaled in
    let fits : length keys * p.bits_per_key + 7 < 2 ^ 64 =
      rw (new_bits_per_key bits_per_key scaled positive) (omega arith) in
    record { appends = λ dst. appends p small keys fits dst; matches = matches p small keys fits }
