-- ===== src/Bloom.antt =====
-- LevelDB/include/leveldb/filter_policy.h and LevelDB/util/bloom.cc: the interface of a filter, and
-- the Bloom filter.
pub mod Bits
pub mod Sound
mod Runs
use leveldb_windows.Base.{
  ℕ, zero, suc, ◌+◌, ◌-◌, ◌*◌, ◌/◌, ◌%◌, ◌^◌, ◌≡◌, Bool, true, false, List, [], ◌∷◌, ◌++◌, Bytes,
  length, get_or, set, replicate, take, All, ltb, ◌==◌, if◌then◌else◌, widen_int, bit_and, bit_or,
}
use leveldb_windows.Hash.{hash}

-- `CreateFilter` returns the string that it appends to; `KeyMayMatch` takes the key and a filter.
pub record FilterPolicy : Type 0 where
  pub create_filter : List Bytes → Bytes → Bytes
  pub key_may_match : Bytes → Bytes → Bool

-- What the interface asks for: the filter that was made for some keys, whatever stood before it in the
-- string, matches each of them.
pub record HasNoFalseNegatives (p : FilterPolicy) (keys : List Bytes) : Type 0 where
  pub appends : (dst : Bytes) → p.create_filter keys dst ≡ dst ++ p.create_filter keys []
  pub matches : All (λ key. p.key_may_match key (p.create_filter keys []) ≡ true) keys

pub bloom_hash : Bytes → ℕ
bloom_hash key = hash key 0xbc9f1d34

pub record BloomFilterPolicy : Type 0 where
  pub bits_per_key : ℕ
  pub k : ℕ

-- `bits_per_key` is the word of an `int`, and `bits_per_key_` a `size_t` of 64 bits. `scaled` is
-- `static_cast<size_t>(bits_per_key * 0.69)`, which is floating point.
pub new_bloom_filter_policy : ℕ → ℕ → BloomFilterPolicy
new_bloom_filter_policy bits_per_key scaled =
    let k_ = if ltb scaled 1 then 1 else scaled in
    record { bits_per_key = widen_int bits_per_key; k = if ltb 30 k_ then 30 else k_ }

-- `(h >> 17) | (h << 15)`
rotate : ℕ → ℕ
rotate h = bit_or (h / 2 ^ 17) (h * 2 ^ 15 % 2 ^ 32)

-- `array[bitpos/8] |= (1 << (bitpos % 8))`, and the test of that bit.
pub set_bit : Bytes → ℕ → Bytes
set_bit array bitpos =
    set array (bitpos / 8) (bit_or (get_or array (bitpos / 8) 0) (2 ^ (bitpos % 8)) % 256)

pub has_bit : Bytes → ℕ → Bool
has_bit array bitpos =
    if bit_and (get_or array (bitpos / 8) 0) (2 ^ (bitpos % 8)) == 0 then false else true

-- The inner loops, on the rounds that are left.
pub set_probes : ℕ → ℕ → ℕ → ℕ → Bytes → Bytes
set_probes zero h delta bits array = array
set_probes (suc j) h delta bits array =
    set_probes j ((h + delta) % 2 ^ 32) delta bits (set_bit array (h % bits))

pub has_probes : ℕ → ℕ → ℕ → ℕ → Bytes → Bool
has_probes zero h delta bits array = true
has_probes (suc j) h delta bits array =
    let rest = has_probes j ((h + delta) % 2 ^ 32) delta bits array in
    if has_bit array (h % bits) then rest else false

-- The loop over the keys.
pub set_keys : ℕ → ℕ → List Bytes → Bytes → Bytes
set_keys k bits [] array = array
set_keys k bits (key ∷ keys) array =
    let h = bloom_hash key in set_keys k bits keys (set_probes k h (rotate h) bits array)

-- `(bits + 7) / 8` of at least 64 bits, in a `size_t` of 64 bits. A `size_t` of 32 bits gives the same
-- where `n * bits_per_key_ + 7` is below 2^32.
pub filter_bytes : BloomFilterPolicy → ℕ → ℕ
filter_bytes p n =
    let bits = n * p.bits_per_key % 2 ^ 64 in ((if ltb bits 64 then 64 else bits) + 7) % 2 ^ 64 / 8

-- The array is the part of `dst` behind its old end; the number of probes follows it.
pub bloom_create_filter : BloomFilterPolicy → List Bytes → Bytes → Bytes
bloom_create_filter p keys dst =
    let bytes = filter_bytes p (length keys) in
    dst ++ (set_keys p.k (bytes * 8) keys (replicate bytes 0) ++ (p.k % 256 ∷ []))

pub bloom_key_may_match : Bytes → Bytes → Bool
bloom_key_may_match key bloom_filter =
    let len = length bloom_filter in
    let array = take (len - 1) bloom_filter in
    let bits = (len - 1) * 8 in
    let k = get_or bloom_filter (len - 1) 0 in
    let h = bloom_hash key in
    let found = has_probes k h (rotate h) bits array in
    if ltb len 2 then false else if ltb 30 k then true else found

abbrev pub bloom_policy : BloomFilterPolicy → FilterPolicy
bloom_policy p = record {
  create_filter = bloom_create_filter p;
  key_may_match = bloom_key_may_match;
}
