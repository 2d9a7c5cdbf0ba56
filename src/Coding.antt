-- ===== src/Coding.antt =====
-- LevelDB/util/coding.cc and the inline functions of LevelDB/util/coding.h: fixed-width numbers,
-- varints and length-prefixed strings. A pointer pair `p .. limit` and a `Slice` are the bytes that
-- they delimit; `dst` is the string appended to. A `Get` that succeeds returns the value with the
-- bytes behind it, and `none` is `NULL` or `false`, where the input has not moved past the number.
pub mod Fixed
pub mod Varint
pub mod Decode
pub mod Prefixed
mod Runs
use leveldb_windows.Base.{
  ℕ, zero, suc, ◌+◌, ◌*◌, ◌/◌, ◌%◌, ◌^◌, ◌≤◌, ◌<◌, bit_and, bit_or, arith, Option, none, some, List,
  [], ◌∷◌, ◌++◌, Bytes, ltb, leb, ◌==◌, if◌then◌else◌, length, get_or, take, drop,
}
use leveldb_windows.Base.Order.{lt_wf}
use mathlib.Core.Logic.{dite}
use mathlib.Core.WellFounded.{Acc}
use native.Mathlib.Decide.{dec_lt}

-- The byte order of the buffer is little endian on every platform; where the machine's own order is
-- that too, the source copies the word.
unfoldable pub encode_fixed32 : ℕ → Bytes
encode_fixed32 value =
    bit_and value 255
    ∷ bit_and (value / 2 ^ 8) 255
    ∷ bit_and (value / 2 ^ 16) 255
    ∷ bit_and (value / 2 ^ 24) 255
    ∷ []

unfoldable pub encode_fixed64 : ℕ → Bytes
encode_fixed64 value =
    bit_and value 255
    ∷ bit_and (value / 2 ^ 8) 255
    ∷ bit_and (value / 2 ^ 16) 255
    ∷ bit_and (value / 2 ^ 24) 255
    ∷ bit_and (value / 2 ^ 32) 255
    ∷ bit_and (value / 2 ^ 40) 255
    ∷ bit_and (value / 2 ^ 48) 255
    ∷ bit_and (value / 2 ^ 56) 255
    ∷ []

unfoldable pub put_fixed32 : Bytes → ℕ → Bytes
put_fixed32 dst value = dst ++ encode_fixed32 value

unfoldable pub put_fixed64 : Bytes → ℕ → Bytes
put_fixed64 dst value = dst ++ encode_fixed64 value

-- The source reads with no check of bounds: a caller has 4 (or 8) bytes at hand. Past the end the
-- model reads 0.
unfoldable pub decode_fixed32 : Bytes → ℕ
decode_fixed32 ptr =
    bit_or (bit_or (bit_or (get_or ptr 0 0) (get_or ptr 1 0 * 2 ^ 8)) (get_or ptr 2 0 * 2 ^ 16))
      (get_or ptr 3 0 * 2 ^ 24)

unfoldable pub decode_fixed64 : Bytes → ℕ
decode_fixed64 ptr =
    let lo = decode_fixed32 ptr in
    let hi = decode_fixed32 (drop 4 ptr) in bit_or (hi * 2 ^ 32 % 2 ^ 64) lo

-- A byte stored from a wider number keeps the number's low eight bits.
abbrev pub low_byte : ℕ → ℕ
low_byte v = v % 256

unfoldable pub encode_varint32 : ℕ → Bytes
encode_varint32 v =
    if ltb v (2 ^ 7)
    then low_byte v ∷ []
    else if ltb v (2 ^ 14)
    then low_byte (bit_or v 128) ∷ low_byte (v / 2 ^ 7) ∷ []
    else if ltb v (2 ^ 21)
    then low_byte (bit_or v 128) ∷ low_byte (bit_or (v / 2 ^ 7) 128) ∷ low_byte (v / 2 ^ 14) ∷ []
    else if ltb v (2 ^ 28)
    then low_byte (bit_or v 128)
      ∷ low_byte (bit_or (v / 2 ^ 7) 128)
      ∷ low_byte (bit_or (v / 2 ^ 14) 128)
      ∷ low_byte (v / 2 ^ 21)
      ∷ []
    else low_byte (bit_or v 128)
      ∷ low_byte (bit_or (v / 2 ^ 7) 128)
      ∷ low_byte (bit_or (v / 2 ^ 14) 128)
      ∷ low_byte (bit_or (v / 2 ^ 21) 128)
      ∷ low_byte (v / 2 ^ 28)
      ∷ []

unfoldable pub put_varint32 : Bytes → ℕ → Bytes
put_varint32 dst v = dst ++ encode_varint32 v

pub shift_shrinks : (v : ℕ) → 127 < v → v / 2 ^ 7 < v
shift_shrinks v h = omega arith

-- `while (v >= B) { ...; v >>= 7; }`
encode_varint64_loop : (v : ℕ) → Acc ◌<◌ v → Bytes
encode_varint64_loop v (Acc.intro _ smaller) =
    dite (dec_lt 127 v)
      (λ more.
        low_byte (bit_or (bit_and v 127) 128)
        ∷ encode_varint64_loop (v / 2 ^ 7) (smaller _ (shift_shrinks v more)))
      (λ _. low_byte v ∷ [])

unfoldable pub encode_varint64 : ℕ → Bytes
unfolding encode_varint64_loop lt_wf dec_lt
encode_varint64 v = encode_varint64_loop v (lt_wf.apply v)

unfoldable pub put_varint64 : Bytes → ℕ → Bytes
put_varint64 dst v = dst ++ encode_varint64 v

unfoldable pub put_length_prefixed_slice : Bytes → Bytes → Bytes
put_length_prefixed_slice dst value = put_varint32 dst (length value % 2 ^ 32) ++ value

varint_length_loop : (v : ℕ) → Acc ◌<◌ v → ℕ → ℕ
varint_length_loop v (Acc.intro _ smaller) len =
    dite (dec_lt 127 v)
      (λ more. varint_length_loop (v / 2 ^ 7) (smaller _ (shift_shrinks v more)) (len + 1))
      (λ _. len)

unfoldable pub varint_length : ℕ → ℕ
unfolding varint_length_loop lt_wf dec_lt
varint_length v = varint_length_loop v (lt_wf.apply v) 1

-- The loop that `GetVarint32PtrFallback` and `GetVarint64Ptr` share, on words of `width` bits and
-- up to the shift `last`.
unfoldable pub get_varint_loop : (width last : ℕ) → Bytes → ℕ → ℕ → Option (ℕ × Bytes)
get_varint_loop width last [] result shift = none
get_varint_loop width last (byte ∷ p) result shift =
    let more =
      get_varint_loop width last p (bit_or result (bit_and byte 127 * 2 ^ shift % 2 ^ width))
        (shift + 7) in
    let done = some (bit_or result (byte * 2 ^ shift % 2 ^ width), p) in
    if leb shift last then (if bit_and byte 128 == 0 then done else more) else none

unfoldable pub get_varint32_ptr_fallback : Bytes → Option (ℕ × Bytes)
unfolding get_varint_loop
get_varint32_ptr_fallback p = get_varint_loop 32 28 p 0 0

unfoldable pub get_varint32_ptr : Bytes → Option (ℕ × Bytes)
unfolding get_varint32_ptr_fallback
get_varint32_ptr [] = get_varint32_ptr_fallback []
get_varint32_ptr (result ∷ p) =
    if bit_and result 128 == 0 then some (result, p) else get_varint32_ptr_fallback (result ∷ p)

unfoldable pub get_varint32 : Bytes → Option (ℕ × Bytes)
unfolding get_varint32_ptr
get_varint32 input = get_varint32_ptr input

unfoldable pub get_varint64_ptr : Bytes → Option (ℕ × Bytes)
unfolding get_varint_loop
get_varint64_ptr p = get_varint_loop 64 63 p 0 0

unfoldable pub get_varint64 : Bytes → Option (ℕ × Bytes)
unfolding get_varint64_ptr
get_varint64 input = get_varint64_ptr input

infixl 5 ◌>>=◌
abbrev pub ◌>>=◌ {ℓ κ} : {A : Type ℓ} {B : Type κ} → Option A → (A → Option B) → Option B
none >>= f = none
some a >>= f = f a

-- Both overloads of `GetLengthPrefixedSlice`: the string, and the input behind it.
unfoldable pub get_length_prefixed_slice : Bytes → Option (Bytes × Bytes)
unfolding get_varint32
get_length_prefixed_slice input = do
  (len, p) ← get_varint32 input
  if leb len (length p) then some (take len p, drop len p) else none
