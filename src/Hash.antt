-- ===== src/Hash.antt =====
-- LevelDB/util/hash.cc: the 32-bit hash of a byte string. Sums and products wrap at 2 ^ 32.
use leveldb_windows.Base.{ℕ, ◌+◌, ◌*◌, ◌/◌, ◌%◌, ◌^◌, [], ◌∷◌, Bytes, length, bit_xor}
use leveldb_windows.Coding.{decode_fixed32}

abbrev pub m : ℕ
m = 0xc6a4a793

-- `h += w; h *= m; h ^= (h >> r);`
abbrev mix : ℕ → ℕ → ℕ → ℕ
mix h w r = let h' = (h + w) % 2 ^ 32 * m % 2 ^ 32 in bit_xor h' (h' / 2 ^ r)

-- The loop over groups of four bytes, and the switch over what remains.
unfoldable pub hash_loop : Bytes → ℕ → ℕ
unfolding decode_fixed32
hash_loop [] h = h
hash_loop (a ∷ []) h = mix h a 24
hash_loop (a ∷ b ∷ []) h = mix ((h + b * 2 ^ 8) % 2 ^ 32) a 24
hash_loop (a ∷ b ∷ c ∷ []) h = mix (((h + c * 2 ^ 16) % 2 ^ 32 + b * 2 ^ 8) % 2 ^ 32) a 24
hash_loop (a ∷ b ∷ c ∷ d ∷ rest) h = hash_loop rest (mix h (decode_fixed32 (a ∷ b ∷ c ∷ d ∷ [])) 16)

-- `seed ^ (n * m)`, of which a `uint32_t` keeps the low 32 bits.
unfoldable pub hash : Bytes → ℕ → ℕ
unfolding hash_loop
hash bytes seed = hash_loop bytes (bit_xor seed (length bytes * m % 2 ^ 64) % 2 ^ 32)
