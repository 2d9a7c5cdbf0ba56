-- ===== src/DbFormat.antt =====
-- LevelDB/db/dbformat.h and LevelDB/db/dbformat.cc: internal keys, which are a user key with a
-- sequence number and a type behind it, their comparator, and lookup keys.
pub mod Keys
pub mod InternalOrder
mod Runs
use leveldb_windows.Base.{
  ℕ, zero, suc, ◌+◌, ◌-◌, ◌*◌, ◌/◌, ◌%◌, ◌^◌, ◌≤◌, ◌<◌, Bool, true, false, ◌&&◌, Option, none, some,
  [], ◌∷◌, ◌++◌, Bytes, length, take, drop, ltb, leb, if◌then◌else◌, bit_and, bit_or,
}
use leveldb_windows.Coding.{encode_varint32, encode_fixed64, put_fixed64, decode_fixed64}
use leveldb_windows.Comparator.{Comparator}
use Prim.Native.Nat.{Ordering, lt, eq, gt}

-- The types of an entry. A cast from a byte that is neither 0 nor 1 gives no enumerator.
pub data ValueType : Type 0 where
  type_deletion type_value : ValueType

abbrev pub type_code : ValueType → ℕ
type_code type_deletion = 0
type_code type_value = 1

abbrev pub value_type_for_seek : ValueType
value_type_for_seek = type_value

abbrev pub max_sequence_number : ℕ
max_sequence_number = 2 ^ 56 - 1

pub record ParsedInternalKey : Type 0 where
  pub user_key : Bytes
  pub sequence : ℕ
  pub type : ValueType

unfoldable pub internal_key_encoding_length : ParsedInternalKey → ℕ
internal_key_encoding_length key = length key.user_key + 8

-- `(seq << 8) | t`
unfoldable pub pack_sequence_and_type : ℕ → ValueType → ℕ
pack_sequence_and_type seq t = bit_or (seq * 2 ^ 8 % 2 ^ 64) (type_code t)

unfoldable pub append_internal_key : Bytes → ParsedInternalKey → Bytes
append_internal_key result key =
    put_fixed64 (result ++ key.user_key) (pack_sequence_and_type key.sequence key.type)

-- `Slice(internal_key.data(), internal_key.size() - 8)`; the key has 8 bytes at least.
unfoldable pub extract_user_key : Bytes → Bytes
extract_user_key internal_key = take (length internal_key - 8) internal_key

-- `DecodeFixed64(internal_key.data() + n - 8)`
unfoldable pub trailer : Bytes → ℕ
trailer internal_key = decode_fixed64 (drop (length internal_key - 8) internal_key)

-- `none` where the byte is no enumerator.
abbrev pub value_type_of : ℕ → Option ValueType
value_type_of zero = some type_deletion
value_type_of (suc zero) = some type_value
value_type_of _ = none

unfoldable pub extract_value_type : Bytes → Option ValueType
extract_value_type internal_key = value_type_of (bit_and (trailer internal_key) 255)

abbrev with_type : Option ValueType → Bytes → ℕ → Option ParsedInternalKey
with_type none user_key sequence = none
with_type (some t) user_key sequence =
    some (record { user_key = user_key; sequence = sequence; type = t })

-- The `bool` of the source is whether there is a result.
unfoldable pub parse_internal_key : Bytes → Option ParsedInternalKey
parse_internal_key internal_key =
    let n = length internal_key in
    let num = trailer internal_key in
    if ltb n 8
    then none
    else with_type (value_type_of (bit_and num 255)) (take (n - 8) internal_key) (num / 2 ^ 8)

module _ (user_comparator : Comparator) where
  -- Increasing user key, then decreasing number.
  unfoldable pub internal_compare : Bytes → Bytes → Ordering
  internal_compare akey bkey =
      let anum = trailer akey in
      let bnum = trailer bkey in
      elim (user_comparator.compare_keys (extract_user_key akey) (extract_user_key bkey)) [
        | Ordering.lt ↦ lt
        | Ordering.eq ↦ if ltb bnum anum then lt else if ltb anum bnum then gt else eq
        | Ordering.gt ↦ gt
      ]

  abbrev is_less : Ordering → Bool
  is_less Ordering.lt = true
  is_less _ = false

  -- What `FindShortestSeparator` and `FindShortSuccessor` do with the shortened user key `tmp`.
  adopt : Bytes → Bytes → Bytes → Bytes
  adopt key user_start tmp =
      if ltb (length tmp) (length user_start)
        && is_less (user_comparator.compare_keys user_start tmp)
      then put_fixed64 tmp (pack_sequence_and_type max_sequence_number value_type_for_seek)
      else key

  unfoldable pub internal_shortest_separator : Bytes → Bytes → Bytes
  unfolding adopt
  internal_shortest_separator start limit =
      let user_start = extract_user_key start in
      let user_limit = extract_user_key limit in
      adopt start user_start (user_comparator.find_shortest_separator user_start user_limit)

  unfoldable pub internal_short_successor : Bytes → Bytes
  unfolding adopt
  internal_short_successor key =
      let user_key = extract_user_key key in
      adopt key user_key (user_comparator.find_short_successor user_key)

  abbrev pub internal_key_comparator : Comparator
  internal_key_comparator = record {
    compare_keys = internal_compare;
    find_shortest_separator = internal_shortest_separator;
    find_short_successor = internal_short_successor;
  }

-- The buffer from `start_` to `end_`, and the two places inside it.
pub record LookupKey : Type 0 where
  pub buffer : Bytes
  pub kstart : ℕ

unfoldable pub new_lookup_key : Bytes → ℕ → LookupKey
new_lookup_key user_key s =
    let usize = length user_key in
    let prefix = encode_varint32 ((usize + 8) % 2 ^ 32) in
    record {
      buffer =
          (prefix ++ user_key) ++ encode_fixed64 (pack_sequence_and_type s value_type_for_seek);
      kstart = length prefix;
    }

unfoldable pub memtable_key : LookupKey → Bytes
memtable_key k = k.buffer

unfoldable pub lookup_internal_key : LookupKey → Bytes
lookup_internal_key k = drop k.kstart k.buffer

unfoldable pub lookup_user_key : LookupKey → Bytes
lookup_user_key k = let internal = drop k.kstart k.buffer in take (length internal - 8) internal
