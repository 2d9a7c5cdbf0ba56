-- ===== src/Bloom/Runs.antt =====
-- A filter on concrete keys, and the theorem at a concrete policy.
use leveldb_windows.Base.{◌≡◌, refl, arith, true, false, [], ◌∷◌, Bytes}
use leveldb_windows.Hash.{hash}
use leveldb_windows.Bloom.{
  BloomFilterPolicy, HasNoFalseNegatives, new_bloom_filter_policy, bloom_hash, rotate, set_bit,
  has_bit, set_probes, has_probes, set_keys, filter_bytes, bloom_create_filter, bloom_key_may_match,
  bloom_policy,
}
use leveldb_windows.Bloom.Sound.{bloom-HasNoFalseNegatives}

-- `static_cast<size_t>(10 * 0.69)` is 6.
abbrev ten_bits : BloomFilterPolicy
ten_bits = record { bits_per_key = 10; k = 6 }

abbrev small_filter : Bytes
small_filter = bloom_create_filter ten_bits ((b'h' ∷ b'e' ∷ []) ∷ (b'w' ∷ []) ∷ []) []

hello_matches : bloom_key_may_match (b'h' ∷ b'e' ∷ []) small_filter ≡ true
unfolding bloom_create_filter bloom_key_may_match hash bloom_hash rotate set_bit has_bit set_probes
    has_probes set_keys filter_bytes
hello_matches = refl

other_misses : bloom_key_may_match (b'x' ∷ []) small_filter ≡ false
unfolding bloom_create_filter bloom_key_may_match hash bloom_hash rotate set_bit has_bit set_probes
    has_probes set_keys filter_bytes
other_misses = refl

bloom-HasNoFalseNegatives_example :
    HasNoFalseNegatives
      (bloom_policy (new_bloom_filter_policy 10 6))
      ((b'h' ∷ b'e' ∷ []) ∷ (b'w' ∷ []) ∷ [])
bloom-HasNoFalseNegatives_example =
    bloom-HasNoFalseNegatives 10 6 ((b'h' ∷ b'e' ∷ []) ∷ (b'w' ∷ []) ∷ []) (omega arith)
      (omega arith)

-- Of a negative number, `-1`, the bits of one key wrap to none.
no_bits : filter_bytes (new_bloom_filter_policy 0xffff_ffff 0) 1 ≡ 0
unfolding filter_bytes new_bloom_filter_policy
no_bits = refl
