-- ===== src/Coding/Runs.antt =====
-- The codecs at concrete input.
use leveldb_windows.Base.{◌≡◌, refl, arith, some, none, [], ◌∷◌, ◌++◌, length}
use leveldb_windows.Coding.{
  encode_varint32, encode_varint64, get_varint32, get_varint64, get_length_prefixed_slice,
}
use leveldb_windows.Coding.Decode.{get_varint64-encode_varint64}

varint_300 : encode_varint32 300 ≡ 0xac ∷ 0x02 ∷ []
unfolding encode_varint32
varint_300 = refl

varint64_max : length (encode_varint64 0xffff_ffff_ffff_ffff) ≡ 10
unfolding encode_varint64
varint64_max = refl

-- A sixth byte with more to come is refused.
overlong : get_varint32 (0x80 ∷ 0x80 ∷ 0x80 ∷ 0x80 ∷ 0x80 ∷ 0 ∷ []) ≡ none
unfolding get_varint32
overlong = refl

padded_zero : get_varint64 (0x80 ∷ 0 ∷ 7 ∷ []) ≡ some (0, 7 ∷ [])
unfolding get_varint64
padded_zero = refl

one_letter : get_length_prefixed_slice (1 ∷ b'a' ∷ 9 ∷ []) ≡ some (b'a' ∷ [], 9 ∷ [])
unfolding get_length_prefixed_slice
one_letter = refl

get_varint64-encode_varint64_example :
    get_varint64 (encode_varint64 0xffff_ffff_ffff_ffff ++ (5 ∷ []))
    ≡ some (0xffff_ffff_ffff_ffff, 5 ∷ [])
get_varint64-encode_varint64_example =
    get_varint64-encode_varint64 0xffff_ffff_ffff_ffff (5 ∷ []) (omega arith)
