-- ===== src/Log/Runs.antt =====
-- The log at concrete values. The file is the list of what was appended; the checksum adds the bytes.
use leveldb_windows.Base.{ℕ, ◌+◌, ◌%◌, ◌^◌, ◌≡◌, refl, arith, true, [], ◌∷◌, ◌++◌, Bytes, IsU32}
use leveldb_windows.Status.{ok_status}
use leveldb_windows.Crc32c.{Checksum, IsChecksum}
use leveldb_windows.Log.{
  WritableFile, Writer, full_type, record_type_code, record_header, add_record,
}
use leveldb_windows.Log.Blocks.{Ends, add_record-Ends}
use leveldb_windows.Log.Reader.{
  SequentialFile, Reader, read_physical_record, new_reader, check_physical_record,
}
use leveldb_windows.Log.Reader.Rounds.{Answers, read_physical_record-Answers}
use leveldb_windows.Log.Reader.Physical.{check_physical_record-record_header}

sum : ℕ → Bytes → ℕ
sum crc [] = crc % 2 ^ 32
sum crc (b ∷ bytes) = sum (crc + b) bytes

sum-IsU32 : (crc : ℕ) (bytes : Bytes) → IsU32 (sum crc bytes)
unfolding sum
sum-IsU32 crc [] = omega arith
sum-IsU32 crc (b ∷ bytes) = sum-IsU32 (crc + b) bytes

sum_mod : (a b : ℕ) (bytes : Bytes) → a % 2 ^ 32 ≡ b % 2 ^ 32 → sum a bytes ≡ sum b bytes
unfolding sum
sum_mod a b [] h = h
sum_mod a b (x ∷ bytes) h = sum_mod (a + x) (b + x) bytes (omega arith)

sum-concat : (crc : ℕ) (a bytes : Bytes) → sum (sum crc a) bytes ≡ sum crc (a ++ bytes)
unfolding sum
sum-concat crc [] bytes = sum_mod (crc % 2 ^ 32) crc bytes (omega arith)
sum-concat crc (x ∷ a) bytes = sum-concat (crc + x) a bytes

abbrev checksum : Checksum
checksum = record { extend = sum }

checksum-IsChecksum : IsChecksum checksum
checksum-IsChecksum = record { word = sum-IsU32; concat = sum-concat }

abbrev memory_file : WritableFile Bytes
memory_file = record {
  append_to = λ file bytes. (ok_status, file ++ bytes);
  flush = λ file. (ok_status, file);
}

-- The last seven bytes of a block take a header and no payload.
abbrev near_end : Writer Bytes
near_end = record { dest = []; block_offset = 32761 }

add_record-Ends_example : Ends (add_record memory_file checksum near_end (1 ∷ 2 ∷ []))
add_record-Ends_example = add_record-Ends memory_file checksum near_end (1 ∷ 2 ∷ [])

abbrev reader : Reader Bytes
reader = new_reader [] true true 0

check_physical_record-record_header_example :
    check_physical_record checksum
      (record reader {
        buffer = record_header checksum full_type (1 ∷ 2 ∷ []) ++ ((1 ∷ 2 ∷ []) ++ (9 ∷ []));
      })
      []
    ≡ (1, 1 ∷ 2 ∷ [], record reader { buffer = 9 ∷ [] })
unfolding record_type_code
check_physical_record-record_header_example =
    check_physical_record-record_header checksum full_type (1 ∷ 2 ∷ []) (9 ∷ []) reader
      (omega arith) refl [] checksum-IsChecksum (omega arith)

-- A file that is at its end.
abbrev empty_file : SequentialFile Bytes
empty_file = record { read = λ file n. (ok_status, [], file); skip = λ file n. (ok_status, file) }

read_physical_record-Answers_example : Answers (read_physical_record empty_file checksum reader [])
read_physical_record-Answers_example = read_physical_record-Answers empty_file checksum reader []
