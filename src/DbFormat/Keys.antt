-- ===== src/DbFormat/Keys.antt =====
-- LevelDB/db/dbformat.h: internal keys packed and parsed.
use leveldb_windows.Base.{
  ℕ, ◌+◌, ◌-◌, ◌*◌, ◌/◌, ◌%◌, ◌^◌, ◌≤◌, ◌≡◌, refl, ◌∙◌, arith, some, [], ◌++◌, append_assoc,
  append-nil, Bytes, IsU32, length, length-append, take, drop, ltb, false, take-append, drop-append,
  bit_and,
}
use leveldb_windows.Base.Bits.{bit_or_comm, bit_or_shifted, bit_and_low8}
use leveldb_windows.Coding.{
  encode_fixed64, encode_varint32, decode_fixed64, put_fixed64, get_length_prefixed_slice,
}
use leveldb_windows.Coding.Fixed.{decode_fixed64-encode_fixed64, length-encode_fixed64}
use leveldb_windows.Coding.Prefixed.{get_length_prefixed_slice-encode}
use leveldb_windows.DbFormat.{
  ValueType, type_deletion, type_value, type_code, max_sequence_number, ParsedInternalKey,
  pack_sequence_and_type, append_internal_key, extract_user_key, trailer, parse_internal_key,
  extract_value_type, new_lookup_key, memtable_key, lookup_internal_key, lookup_user_key,
  value_type_for_seek, value_type_of,
}

pub type_code-le : (t : ValueType) → type_code t ≤ 1
type_code-le type_deletion = omega arith
type_code-le type_value = omega arith

-- Below the largest sequence number the number and the type have bits of their own.
pub pack_eq :
    (seq : ℕ) (t : ValueType)
    → seq ≤ max_sequence_number
    → pack_sequence_and_type seq t ≡ seq * 256 + type_code t
unfolding pack_sequence_and_type
pack_eq seq t h =
    let room : seq * 2 ^ 8 % 2 ^ 64 ≡ seq * 2 ^ 8 = omega arith in
    rw room (
      bit_or_comm (seq * 2 ^ 8) (type_code t)
      ∙ bit_or_shifted 8 (type_code t) seq (omega (arith, type_code-le t))
      ∙ omega arith)

-- The bytes that `append_internal_key` appends.
abbrev pub internal_key : ParsedInternalKey → Bytes
internal_key k = k.user_key ++ encode_fixed64 (pack_sequence_and_type k.sequence k.type)

pub append_internal_key-eq :
    (result : Bytes) (k : ParsedInternalKey)
    → append_internal_key result k ≡ result ++ internal_key k
unfolding append_internal_key put_fixed64
append_internal_key-eq result k = append_assoc result k.user_key _

pub length-internal_key : (k : ParsedInternalKey) → length (internal_key k) ≡ length k.user_key + 8
length-internal_key k =
    rw length-append
      (omega (arith, length-encode_fixed64 (pack_sequence_and_type k.sequence k.type)))

pub extract_user_key-internal_key :
    (k : ParsedInternalKey) → extract_user_key (internal_key k) ≡ k.user_key
unfolding extract_user_key
extract_user_key-internal_key k =
    let e : length (internal_key k) - 8 ≡ length k.user_key =
      omega (arith, length-internal_key k) in
    rw e (take-append k.user_key _)

pub trailer-internal_key :
    (k : ParsedInternalKey)
    → k.sequence ≤ max_sequence_number
    → trailer (internal_key k) ≡ k.sequence * 256 + type_code k.type
unfolding trailer
trailer-internal_key k h =
    let e : length (internal_key k) - 8 ≡ length k.user_key =
      omega (arith, length-internal_key k) in
    rw (e, drop-append k.user_key) (tag_back (pack_eq k.sequence k.type h) (type_code-le k.type))
  where
    tag_back :
        pack_sequence_and_type k.sequence k.type ≡ k.sequence * 256 + type_code k.type
        → type_code k.type ≤ 1
        → decode_fixed64 (encode_fixed64 (pack_sequence_and_type k.sequence k.type))
          ≡ k.sequence * 256 + type_code k.type
    tag_back packed small = rw packed (
        rw append-nil at
          (decode_fixed64-encode_fixed64 (k.sequence * 256 + type_code k.type) [] (omega arith)))

value_type_of-type_code : (t : ValueType) → value_type_of (type_code t) ≡ some t
value_type_of-type_code type_deletion = refl
value_type_of-type_code type_value = refl

-- The type byte and the number behind it come apart again.
tag_parts :
    (seq n : ℕ) (t : ValueType)
    → n ≡ seq * 256 + type_code t
    → (value_type_of (bit_and n 255) ≡ some t) × (n / 256 ≡ seq)
tag_parts seq n t e =
    let low : bit_and n 255 ≡ type_code t = omega (arith, bit_and_low8 n, type_code-le t) in
    (rw low (value_type_of-type_code t), omega (arith, type_code-le t))

-- A key that is appended to the empty string is parsed back to its parts, where its sequence number is
-- at most kMaxSequenceNumber, which is 2^56 - 1.
pub parse_internal_key-append_internal_key :
    (k : ParsedInternalKey)
    → k.sequence ≤ max_sequence_number
    → parse_internal_key (append_internal_key [] k) ≡ some k
unfolding parse_internal_key
parse_internal_key-append_internal_key k h =
    let (typed, numbered) =
      tag_parts k.sequence (trailer (internal_key k)) k.type (trailer-internal_key k h) in
    let long : ltb (length (internal_key k)) 8 ≡ false = ground (arith, length-internal_key k) in
    let user : take (length (internal_key k) - 8) (internal_key k) ≡ k.user_key =
      unfold extract_user_key in extract_user_key-internal_key k in
    rw append_internal_key-eq (rw (long, typed, user, numbered))

-- The same bytes give the type.
pub extract_value_type-internal_key :
    (k : ParsedInternalKey)
    → k.sequence ≤ max_sequence_number
    → extract_value_type (internal_key k) ≡ some k.type
unfolding extract_value_type
extract_value_type-internal_key k h =
    (tag_parts k.sequence (trailer (internal_key k)) k.type (trailer-internal_key k h)).0

-- The internal key of a lookup is the internal key with the type for seeking.
pub lookup_internal_key-new_lookup_key :
    (u : Bytes) (s : ℕ)
    → lookup_internal_key (new_lookup_key u s)
      ≡ internal_key (record { user_key = u; sequence = s; type = value_type_for_seek })
unfolding lookup_internal_key new_lookup_key
lookup_internal_key-new_lookup_key u s =
    rw append_assoc (drop-append (encode_varint32 ((length u + 8) % 2 ^ 32)) _)

pub lookup_user_key-new_lookup_key : (u : Bytes) (s : ℕ) → lookup_user_key (new_lookup_key u s) ≡ u
unfolding lookup_user_key
lookup_user_key-new_lookup_key u s =
    let k : ParsedInternalKey = record { user_key = u; sequence = s; type = value_type_for_seek } in
    let user : take (length (internal_key k) - 8) (internal_key k) ≡ u =
      unfold extract_user_key in extract_user_key-internal_key k in
    let e : drop (new_lookup_key u s).kstart (new_lookup_key u s).buffer ≡ internal_key k =
      unfold lookup_internal_key in lookup_internal_key-new_lookup_key u s in
    rw e user

-- The memtable key of a lookup is its internal key behind the key's length.
pub memtable_key-new_lookup_key :
    (u : Bytes) (s : ℕ)
    → IsU32 (length u + 8)
    → get_length_prefixed_slice (memtable_key (new_lookup_key u s))
      ≡ some (lookup_internal_key (new_lookup_key u s), [])
unfolding memtable_key
memtable_key-new_lookup_key u s h =
    let k : ParsedInternalKey = record { user_key = u; sequence = s; type = value_type_for_seek } in
    let size : length (internal_key k) ≡ (length u + 8) % 2 ^ 32 =
      omega (arith, length-internal_key k) in
    let whole : (new_lookup_key u s).buffer
        ≡ encode_varint32 (length (internal_key k)) ++ (internal_key k ++ []) =
      unfold new_lookup_key in rw (append-nil, size, append_assoc) in
    rw (lookup_internal_key-new_lookup_key, whole)
      (get_length_prefixed_slice-encode (internal_key k) [] (omega arith))
