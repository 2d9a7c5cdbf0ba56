-- ===== src/Coding/Varint.antt =====
-- What the varint encoders write: groups of seven bits, the lowest first, the top bit set on every
-- byte but the last.
use leveldb_windows.Base.{
  ℕ, zero, suc, ◌+◌, ◌/◌, ◌%◌, ◌^◌, ◌≤◌, ◌<◌, ◌≡◌, refl, inl, inr, Bool-cases, arith, [], ◌∷◌,
  Bytes, IsByte, IsU32, IsU64, All, length, ltb, if◌then◌else◌, bit_or, bit_and,
}
use leveldb_windows.Base.Bits.{bit_and_low7, bit_or_bit7_byte}
use leveldb_windows.Base.Order.{lt_wf}
use leveldb_windows.Coding.{
  encode_varint32, encode_varint64, encode_varint64_loop, varint_length, varint_length_loop,
  low_byte,
}
use mathlib.Core.WellFounded.{Acc}

-- The groups of a number below 128 ^ (k + 1).
unfoldable pub groups : ℕ → ℕ → Bytes
groups zero v = v ∷ []
groups (suc k) v = if ltb v 128 then v ∷ [] else (v % 128 + 128) ∷ groups k (v / 128)

pub groups-IsByte : (k v : ℕ) → v < 128 ^ suc k → All IsByte (groups k v)
unfolding groups
groups-IsByte zero v h = omega arith
groups-IsByte (suc k) v h = ground (arith, groups-IsByte k (v / 128) (omega arith))

pub length-groups : (k v : ℕ) → (1 ≤ length (groups k v)) × (length (groups k v) ≤ suc k)
unfolding groups
length-groups zero v = omega arith
length-groups (suc k) v = ground (arith, length-groups k (v / 128))

pub groups_head :
    (k v : ℕ) → v < 128 ^ suc k → (b : ℕ) × (t : Bytes) × (groups k v ≡ b ∷ t) × IsByte b
unfolding groups
groups_head zero v h = (v, [], refl, omega arith)
groups_head (suc k) v h = elim (Bool-cases (ltb v 128)) [
  | inl last ↦ (v, [], rw last, ground arith)
  | inr more ↦ (v % 128 + 128, groups k (v / 128), rw more, omega arith)
]

more_byte : (v : ℕ) → low_byte (bit_or (bit_and v 127) 128) ≡ v % 128 + 128
more_byte v = omega (arith, bit_or_bit7_byte (bit_and v 127), bit_and_low7 v)

-- The ladder of `EncodeVarint32` writes the groups.
pub encode_varint32-groups : (v : ℕ) → IsU32 v → encode_varint32 v ≡ groups 4 v
unfolding encode_varint32 groups
encode_varint32-groups v h = simp bit_or_bit7_byte (ground arith)

encode_varint64_loop-groups :
    (k v : ℕ) (w : Acc ◌<◌ v) → v < 128 ^ suc k → encode_varint64_loop v w ≡ groups k v
unfolding encode_varint64_loop groups
encode_varint64_loop-groups zero v (Acc.intro _ smaller) h = ground arith
encode_varint64_loop-groups (suc k) v (Acc.intro _ smaller) h = grind (
  arith,
  more_byte v,
  λ (w : Acc ◌<◌ (v / 128)). encode_varint64_loop-groups k (v / 128) w (omega arith),
)

-- The loop of `EncodeVarint64` writes the groups.
pub encode_varint64-groups : (v : ℕ) → IsU64 v → encode_varint64 v ≡ groups 9 v
unfolding encode_varint64
encode_varint64-groups v h = encode_varint64_loop-groups 9 v (lt_wf.apply v) (omega arith)

varint_length_loop-groups :
    (k v : ℕ) (w : Acc ◌<◌ v) (len : ℕ)
    → v < 128 ^ suc k
    → varint_length_loop v w len + 1 ≡ len + length (groups k v)
unfolding varint_length_loop groups
varint_length_loop-groups zero v (Acc.intro _ smaller) len h = grind arith
varint_length_loop-groups (suc k) v (Acc.intro _ smaller) len h = grind (
  arith,
  λ (w : Acc ◌<◌ (v / 128)). varint_length_loop-groups k (v / 128) w (len + 1) (omega arith),
)

-- `VarintLength` is the number of bytes that `EncodeVarint64` writes, on every 64-bit number.
pub varint_length-eq : (v : ℕ) → IsU64 v → varint_length v ≡ length (encode_varint64 v)
unfolding varint_length
varint_length-eq v h =
    rw (encode_varint64-groups v h)
      (omega (arith, varint_length_loop-groups 9 v (lt_wf.apply v) 1 (omega arith)))
