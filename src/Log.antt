-- ===== src/Log.antt =====
-- LevelDB/db/log_format.h and LevelDB/db/log_writer.cc: the log file is cut into blocks, and a record
-- into the fragments that fit in them.
pub mod Reader
pub mod Blocks
mod Runs
use leveldb_windows.Base.{
  ℕ, zero, suc, ◌+◌, ◌-◌, ◌*◌, ◌/◌, ◌%◌, ◌^◌, Bool, true, false, Option, none, some, [], ◌∷◌, ◌++◌,
  Bytes, length, take, drop, replicate, ltb, ◌==◌, if◌then◌else◌, bit_and,
}
use leveldb_windows.Status.{Status, ok}
use leveldb_windows.Coding.{encode_fixed32}
use leveldb_windows.Crc32c.{Checksum, mask}

pub data RecordType : Type 0 where
  zero_type full_type first_type middle_type last_type : RecordType

pub record_type_code : RecordType → ℕ
record_type_code zero_type = 0
record_type_code full_type = 1
record_type_code first_type = 2
record_type_code middle_type = 3
record_type_code last_type = 4

abbrev pub max_record_type : ℕ
max_record_type = 4

abbrev pub block_size : ℕ
block_size = 32768

abbrev pub header_size : ℕ
header_size = 7

-- The file of the environment: `Append` and `Flush` return a status with the file they leave.
pub record WritableFile (F : Type 0) : Type 0 where
  pub append_to : F → Bytes → Status × F
  pub flush : F → Status × F

pub record Writer (F : Type 0) : Type 0 where
  pub dest : F
  pub block_offset : ℕ

pub new_writer : {F : Type 0} → F → Writer F
new_writer file = record { dest = file; block_offset = 0 }

pub fragment_type : Bool → Bool → RecordType
fragment_type true true = full_type
fragment_type true false = first_type
fragment_type false true = last_type
fragment_type false false = middle_type

-- How many of `left` bytes go behind this offset.
pub fragment_length : ℕ → ℕ → ℕ
fragment_length block_offset left =
    let avail = block_size - block_offset - header_size in if ltb left avail then left else avail

module _ (c : Checksum) where
  -- The element of `type_crc_` that the constructor computes.
  pub type_crc : RecordType → ℕ
  type_crc t = c.extend 0 (record_type_code t ∷ [])

  -- The bytes of `buf`.
  pub record_header : RecordType → Bytes → Bytes
  record_header t fragment =
      let n = length fragment in
      encode_fixed32 (mask (c.extend (type_crc t) fragment))
      ++ (bit_and n 0xff ∷ (n / 2 ^ 8 % 256) ∷ record_type_code t ∷ [])

module _ {F : Type 0} (env : WritableFile F) where
  -- The status of the trailer's `Append` is not looked at.
  pub switch_block : Writer F → Writer F
  switch_block w =
      let leftover = block_size - w.block_offset in
      let filled = env.append_to w.dest (replicate leftover 0) in
      if ltb leftover header_size
      then record { dest = if ltb 0 leftover then filled.1 else w.dest; block_offset = 0 }
      else w

module _ {F : Type 0} (env : WritableFile F) (c : Checksum) where
  -- The fragment is `n` bytes at `ptr`.
  pub emit_physical_record : Writer F → RecordType → Bytes → Status × Writer F
  emit_physical_record w t fragment =
      let header_written = env.append_to w.dest (record_header c t fragment) in
      let payload_written = env.append_to header_written.1 fragment in
      let flushed = env.flush payload_written.1 in
      let written =
        if ok header_written.0
        then (if ok payload_written.0 then flushed else payload_written)
        else header_written in
      (
        written.0,
        record {
          dest = written.1;
          block_offset = w.block_offset + (header_size + length fragment);
        },
      )

  -- The loop, on fuel for its rounds; `none` is fuel that ran out.
  pub add_fragments : ℕ → Writer F → Bool → Bytes → Option (Status × Writer F)
  add_fragments zero w begin left = none
  add_fragments (suc fuel) w begin left =
      let switched = switch_block env w in
      let n = fragment_length switched.block_offset (length left) in
      let emitted =
        emit_physical_record switched (fragment_type begin (length left == n)) (take n left) in
      let more = add_fragments fuel emitted.1 false (drop n left) in
      if ok emitted.0
      then (if ltb 0 (length left - n) then more else some emitted)
      else some emitted

  -- Every round but the first starts at the end of a block, and so takes a byte at least.
  pub add_record : Writer F → Bytes → Option (Status × Writer F)
  add_record w slice = add_fragments (suc (suc (length slice))) w true slice
