-- ===== src/Format.antt =====
-- LevelDB/table/format.h and LevelDB/table/format.cc: block handles and the footer of a table file.
pub mod RoundTrip
mod Runs
use leveldb_windows.Base.{
  ℕ, zero, suc, ◌+◌, ◌-◌, ◌*◌, ◌/◌, ◌%◌, ◌^◌, ◌⊎◌, inl, inr, Option, none, some, [], ◌∷◌, ◌++◌,
  Bytes, length, take, drop, replicate, ◌==◌, if◌then◌else◌, bit_and, bit_or,
}
use leveldb_windows.Status.{Status, corruption}
use leveldb_windows.Coding.{put_varint64, put_fixed32, get_varint64, decode_fixed32, ◌>>=◌}

pub record BlockHandle : Type 0 where
  pub offset : ℕ
  pub size : ℕ

pub record Footer : Type 0 where
  pub metaindex_handle : BlockHandle
  pub index_handle : BlockHandle

abbrev pub max_encoded_length : ℕ
max_encoded_length = 20

abbrev pub encoded_length : ℕ
encoded_length = 48

abbrev pub table_magic_number : ℕ
table_magic_number = 0xdb4775248b80fb57

pub encode_handle : BlockHandle → Bytes → Bytes
encode_handle h dst = put_varint64 (put_varint64 dst h.offset) h.size

-- The handle with the input behind it; `none` is the status `bad block handle`.
pub decode_handle : Bytes → Option (BlockHandle × Bytes)
decode_handle input = do
  (offset, behind) ← get_varint64 input
  (size, rest) ← get_varint64 behind
  some (record { offset = offset; size = size }, rest)

-- `std::string::resize`
abbrev pub resize : Bytes → ℕ → Bytes
resize s n = take n s ++ replicate (n - length s) 0

-- The padding is to a length of the whole string, not of what was added.
pub encode_footer : Footer → Bytes → Bytes
encode_footer f dst =
    let handles = encode_handle f.index_handle (encode_handle f.metaindex_handle dst) in
    let padded = resize handles (2 * max_encoded_length) in
    put_fixed32 (put_fixed32 padded (bit_and table_magic_number 0xffffffff))
      (table_magic_number / 2 ^ 32)

abbrev or_bad_handle : Option (Footer × Bytes) → (Footer × Bytes) ⊎ Status
or_bad_handle none = inr (corruption "bad block handle")
or_bad_handle (some p) = inl p

-- The input has `encoded_length` bytes at least. What is left of it starts behind the magic number.
pub decode_footer : Bytes → (Footer × Bytes) ⊎ Status
decode_footer input =
    let magic_ptr = drop (encoded_length - 8) input in
    let magic_lo = decode_fixed32 magic_ptr in
    let magic_hi = decode_fixed32 (drop 4 magic_ptr) in
    let magic = bit_or (magic_hi * 2 ^ 32 % 2 ^ 64) magic_lo in
    let handles : Option (Footer × Bytes) = do
      (metaindex, behind) ← decode_handle input
      (index, rest) ← decode_handle behind
      some
          (record { metaindex_handle = metaindex; index_handle = index }, drop encoded_length input)
    in if magic == table_magic_number
      then or_bad_handle handles
      else inr (corruption "not an sstable (bad magic number)")
