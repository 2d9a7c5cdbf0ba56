-- ===== src/Coding/Fixed.antt =====
-- Fixed-width numbers: what the buffer holds, and what is read back.
use leveldb_windows.Base.{
  ℕ, ◌+◌, ◌*◌, ◌/◌, ◌%◌, ◌^◌, ◌≡◌, refl, arith, ◌∷◌, ◌++◌, Bytes, IsByte, IsU32, IsU64, bit_or,
  append_assoc, ◌∙◌, drop, length, All,
}
use leveldb_windows.Base.Bits.{bit_and_low8, bit_or_shifted, bit_or_comm}
use leveldb_windows.Coding.{encode_fixed32, encode_fixed64, decode_fixed32, decode_fixed64}

-- The four bytes as a number, the least significant first.
pub decode_fixed32-eq :
    (a b c d : ℕ) (rest : Bytes)
    → IsByte a
    → IsByte b
    → IsByte c
    → IsByte d
    → decode_fixed32 (a ∷ b ∷ c ∷ d ∷ rest) ≡ a + b * 256 + c * 65536 + d * 16777216
unfolding decode_fixed32
decode_fixed32-eq a b c d rest ha hb hc hd = rw (
  bit_or_shifted 8 a b (omega arith),
  bit_or_shifted 16 (a + b * 2 ^ 8) c (omega arith),
  bit_or_shifted 24 (a + b * 2 ^ 8 + c * 2 ^ 16) d (omega arith),
)

-- A word that is written and read back, whatever follows it.
pub decode_fixed32-encode_fixed32 :
    (v : ℕ) (rest : Bytes) → IsU32 v → decode_fixed32 (encode_fixed32 v ++ rest) ≡ v
unfolding encode_fixed32
decode_fixed32-encode_fixed32 v rest h = simp bit_and_low8 (omega (arith, value))
  where
    value :
        decode_fixed32
          (v % 256 ∷ (v / 2 ^ 8 % 256) ∷ (v / 2 ^ 16 % 256) ∷ (v / 2 ^ 24 % 256) ∷ rest)
        ≡ v % 256 + v / 2 ^ 8 % 256 * 256 + v / 2 ^ 16 % 256 * 65536 + v / 2 ^ 24 % 256 * 16777216
    value = decode_fixed32-eq _ _ _ _ rest (omega arith) (omega arith) (omega arith) (omega arith)

high_word_joined :
    (hi lo : ℕ) → IsU32 hi → IsU32 lo → bit_or (hi * 2 ^ 32 % 2 ^ 64) lo ≡ lo + hi * 2 ^ 32
high_word_joined hi lo hh hl =
    let e : hi * 2 ^ 32 % 2 ^ 64 ≡ hi * 2 ^ 32 = omega arith in
    rw e (bit_or_comm (hi * 2 ^ 32) lo ∙ bit_or_shifted 32 lo hi hl)

-- The two halves of the buffer are the low and the high word.
encode_fixed64-words :
    (v : ℕ) → encode_fixed64 v ≡ encode_fixed32 (v % 2 ^ 32) ++ encode_fixed32 (v / 2 ^ 32)
unfolding encode_fixed64 encode_fixed32
encode_fixed64-words v = simp bit_and_low8 (ground arith)

decode_fixed64-words :
    (lo hi : ℕ) (rest : Bytes)
    → IsU32 lo
    → IsU32 hi
    → decode_fixed64 (encode_fixed32 lo ++ (encode_fixed32 hi ++ rest)) ≡ lo + hi * 2 ^ 32
unfolding decode_fixed64
decode_fixed64-words lo hi rest hl hh =
    let behind : drop 4 (encode_fixed32 lo ++ (encode_fixed32 hi ++ rest))
        ≡ encode_fixed32 hi ++ rest =
      unfold encode_fixed32 in refl in
    rw
      (
        behind,
        decode_fixed32-encode_fixed32 lo (encode_fixed32 hi ++ rest) hl,
        decode_fixed32-encode_fixed32 hi rest hh,
      )
      (high_word_joined hi lo hh hl)

-- The same for a 64-bit word.
pub decode_fixed64-encode_fixed64 :
    (v : ℕ) (rest : Bytes) → IsU64 v → decode_fixed64 (encode_fixed64 v ++ rest) ≡ v
decode_fixed64-encode_fixed64 v rest h =
    rw (encode_fixed64-words v, append_assoc)
      (omega (arith, decode_fixed64-words (v % 2 ^ 32) (v / 2 ^ 32) rest))

pub length-encode_fixed32 : (v : ℕ) → length (encode_fixed32 v) ≡ 4
unfolding encode_fixed32
length-encode_fixed32 v = refl

pub length-encode_fixed64 : (v : ℕ) → length (encode_fixed64 v) ≡ 8
unfolding encode_fixed64
length-encode_fixed64 v = refl

pub encode_fixed32-IsByte : (v : ℕ) → All IsByte (encode_fixed32 v)
unfolding encode_fixed32
encode_fixed32-IsByte v = simp bit_and_low8 (omega arith)

pub encode_fixed64-IsByte : (v : ℕ) → All IsByte (encode_fixed64 v)
unfolding encode_fixed64
encode_fixed64-IsByte v = simp bit_and_low8 (omega arith)
