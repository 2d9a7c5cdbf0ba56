-- ===== src/Log/Reader.antt =====
-- LevelDB/db/log_reader.h and LevelDB/db/log_reader.cc. The reader's state carries the file that the
-- environment gave and, in place of the reporter, the list of what was reported, the newest first.
pub mod Physical
pub mod Rounds
use leveldb_windows.Base.{
  ℕ, zero, suc, ◌+◌, ◌-◌, ◌*◌, ◌%◌, ◌^◌, Bool, true, false, not, ◌&&◌, Option, none, some, List, [],
  ◌∷◌, ◌++◌, Bytes, length, take, drop, get_or, ltb, ◌==◌, if◌then◌else◌, bit_and, bit_or,
}
use Prim.Native.String.{String}
use leveldb_windows.Status.{Status, corruption, ok}
use leveldb_windows.Coding.{decode_fixed32}
use leveldb_windows.Crc32c.{Checksum, checksum_value, unmask}
use leveldb_windows.Log.{max_record_type, block_size, header_size}

-- The file of the environment: `Read` returns what it read of the bytes asked for.
pub record SequentialFile (F : Type 0) : Type 0 where
  pub read : F → ℕ → Status × Bytes × F
  pub skip : F → ℕ → Status × F

pub record Reader (F : Type 0) : Type 0 where
  pub file : F
  pub has_reporter : Bool
  pub reported : List (ℕ × Status)
  pub checksum : Bool
  pub buffer : Bytes
  pub eof : Bool
  pub last_record_offset : ℕ
  pub end_of_buffer_offset : ℕ
  pub initial_offset : ℕ

abbrev pub new_reader : {F : Type 0} → F → Bool → Bool → ℕ → Reader F
new_reader file has_reporter checksum initial_offset = record {
  file = file;
  has_reporter = has_reporter;
  reported = [];
  checksum = checksum;
  buffer = [];
  eof = false;
  last_record_offset = 0;
  end_of_buffer_offset = 0;
  initial_offset = initial_offset;
}

abbrev pub eof_type : ℕ
eof_type = 5

abbrev pub bad_record : ℕ
bad_record = 6

-- `a - b` on `uint64_t`.
abbrev pub minus64 : ℕ → ℕ → ℕ
minus64 a b = (a + (2 ^ 64 - b % 2 ^ 64)) % 2 ^ 64

-- A `char` that becomes an `unsigned int` is extended by its sign.
abbrev pub unsigned_of_char : ℕ → ℕ
unsigned_of_char byte = if ltb byte 128 then byte else byte + (2 ^ 32 - 256)

module _ {F : Type 0} where
  pub report_drop : Reader F → ℕ → Status → Reader F
  report_drop r bytes reason =
      let start = minus64 (minus64 r.end_of_buffer_offset (length r.buffer)) bytes in
      if r.has_reporter
      then (if ltb start r.initial_offset
          then r
          else record r { reported = (bytes, reason) ∷ r.reported })
      else r

  pub report_corruption : Reader F → ℕ → String → Reader F
  report_corruption r bytes reason = report_drop r bytes (corruption reason)

  pub clear_buffer : Reader F → Reader F
  clear_buffer r = record r { buffer = [] }

module _ {F : Type 0} (env : SequentialFile F) where
  -- The Boolean is what the source returns.
  pub skip_to_initial_block : Reader F → Bool × Reader F
  skip_to_initial_block r =
      let offset_in_block = r.initial_offset % block_size in
      let block_start = r.initial_offset - offset_in_block in
      let start =
        if ltb (block_size - 6) offset_in_block
        then (block_start + block_size) % 2 ^ 64
        else block_start in
      let skipped = env.skip r.file start in
      let at_start = record r { end_of_buffer_offset = start } in
      let moved = record at_start { file = skipped.1 } in
      if ltb 0 start
      then (if ok skipped.0 then (true, moved) else (false, report_drop moved start skipped.0))
      else (true, at_start)

abbrev pub record_length : Bytes → ℕ
record_length header = bit_or (get_or header 4 0) (get_or header 5 0 * 2 ^ 8)

-- The bytes that the checksum of a record covers.
abbrev pub checked_bytes : Bytes → Bytes
checked_bytes header = take (suc (record_length header)) (drop 6 header)

module _ {F : Type 0} where
  -- The steps behind the parsed header: the record's type, its payload and the reader left.
  pub take_physical_record : Reader F → ℕ × Bytes × Reader F
  take_physical_record r =
      let n = record_length r.buffer in
      let payload = take n (drop header_size r.buffer) in
      let left = record r { buffer = drop (header_size + n) r.buffer } in
      let start =
        minus64 (minus64 (minus64 left.end_of_buffer_offset (length left.buffer)) header_size) n in
      if ltb start r.initial_offset
      then (bad_record, [], left)
      else (unsigned_of_char (get_or r.buffer 6 0), payload, left)

module _ {F : Type 0} (c : Checksum) where
  -- The source leaves `*result` as it was where no record is returned; here it is `result`.
  pub check_physical_record : Reader F → Bytes → ℕ × Bytes × Reader F
  check_physical_record r result =
      let n = record_length r.buffer in
      let drop_size = length r.buffer in
      let cleared = clear_buffer r in
      let expected_crc = unmask (decode_fixed32 r.buffer) in
      let actual_crc = checksum_value c (checked_bytes r.buffer) in
      let taken = take_physical_record r in
      if ltb (length r.buffer) (header_size + n)
      then (if r.eof
          then (eof_type, result, cleared)
          else (bad_record, result, report_corruption cleared drop_size "bad record length"))
      else (if get_or r.buffer 6 0 == 0 && n == 0
          then (bad_record, result, cleared)
          else (if r.checksum
              then (if actual_crc == expected_crc then taken else (
                bad_record,
                result,
                report_corruption cleared drop_size "checksum mismatch",
              ))
              else taken))

module _ {F : Type 0} (env : SequentialFile F) where
  -- `false` is a failed read, after which the reader is at the end of the file.
  pub refill_buffer : Reader F → Bool × Reader F
  refill_buffer r =
      let answer = env.read r.file block_size in
      let got = answer.1 in
      let end_offset = (r.end_of_buffer_offset + length got) % 2 ^ 64 in
      let moved = record r { file = answer.2; end_of_buffer_offset = end_offset; buffer = got } in
      let failed = report_drop (clear_buffer moved) block_size answer.0 in
      if ok answer.0
      then (true, record moved { eof = ltb (length got) block_size })
      else (false, record failed { eof = true })

module _ {F : Type 0} (env : SequentialFile F) (c : Checksum) where
  -- The loop, on fuel for its rounds; `none` is fuel that ran out.
  pub read_physical_loop : ℕ → Reader F → Bytes → Option (ℕ × Bytes × Reader F)
  read_physical_loop zero r result = none
  read_physical_loop (suc fuel) r result =
      let filled = refill_buffer env r in
      let again = read_physical_loop fuel filled.1 result in
      if ltb (length r.buffer) header_size
      then (if r.eof
          then some (eof_type, result, clear_buffer r)
          else (if filled.0 then again else some (eof_type, result, filled.1)))
      else some (check_physical_record c r result)

  -- A second read that is short ends the file, so the loop has three rounds at most.
  pub read_physical_record : Reader F → Bytes → Option (ℕ × Bytes × Reader F)
  read_physical_record r result = read_physical_loop 3 r result

-- What `ReadRecord` keeps between its rounds.
pub record Assembly : Type 0 where
  pub in_fragmented_record : Bool
  pub scratch : Bytes
  pub prospective_record_offset : ℕ
  pub fragment : Bytes

pub new_assembly : Assembly
new_assembly = record {
  in_fragmented_record = false;
  scratch = [];
  prospective_record_offset = 0;
  fragment = [];
}

-- A round either returns, with the record or without one, or goes on.
pub data Round (F : Type 0) : Type 0 where
  returned : Option Bytes → Reader F → Round F
  continued : Assembly → Reader F → Round F

module _ {F : Type 0} where
  -- A record that starts inside another one drops what was gathered, but an empty first fragment.
  pub drop_partial : Assembly → Reader F → String → Reader F
  drop_partial a r reason =
      if a.in_fragmented_record
      then (if length a.scratch == 0 then r else report_corruption r (length a.scratch) reason)
      else r

  pub full_record : Assembly → ℕ → Reader F → Round F
  full_record a offset r =
      let dropped = drop_partial a r "partial record without end(1)" in
      returned (some a.fragment) (record dropped { last_record_offset = offset })

  pub first_fragment : Assembly → ℕ → Reader F → Round F
  first_fragment a offset r =
      continued
        (record a {
          in_fragmented_record = true;
          scratch = a.fragment;
          prospective_record_offset = offset;
        })
        (drop_partial a r "partial record without end(2)")

  pub middle_fragment : Assembly → Reader F → Round F
  middle_fragment a r =
      if a.in_fragmented_record
      then continued (record a { scratch = a.scratch ++ a.fragment }) r
      else continued a
          (report_corruption r (length a.fragment) "missing start of fragmented record(1)")

  pub last_fragment : Assembly → Reader F → Round F
  last_fragment a r =
      if a.in_fragmented_record
      then returned (some (a.scratch ++ a.fragment))
          (record r { last_record_offset = a.prospective_record_offset })
      else continued a
          (report_corruption r (length a.fragment) "missing start of fragmented record(2)")

  pub bad_fragment : Assembly → Reader F → Round F
  bad_fragment a r =
      if a.in_fragmented_record
      then continued (record a { in_fragmented_record = false; scratch = [] })
          (report_corruption r (length a.scratch) "error in middle of record")
      else continued a r

  -- The source writes the type into the message.
  pub unknown_fragment : Assembly → Reader F → Round F
  unknown_fragment a r =
      let gathered = if a.in_fragmented_record then length a.scratch else 0 in
      continued (record a { in_fragmented_record = false; scratch = [] })
        (report_corruption r (length a.fragment + gathered) "unknown record type")

  -- The switch on the type of the physical record at `offset`.
  pub dispatch : ℕ → ℕ → Assembly → Reader F → Round F
  dispatch record_type offset a r =
      if record_type == 1
      then full_record a offset r
      else if record_type == 2
      then first_fragment a offset r
      else if record_type == 3
      then middle_fragment a r
      else if record_type == 4
      then last_fragment a r
      else if record_type == eof_type
      then returned none r
      else if record_type == bad_record
      then bad_fragment a r
      else unknown_fragment a r

module _ {F : Type 0} (env : SequentialFile F) (c : Checksum) where
  -- The loop over the physical records, on fuel for its rounds.
  pub read_record_loop : ℕ → Assembly → Reader F → Option (Option Bytes × Reader F)
  read_record_loop zero a r = none
  read_record_loop (suc fuel) a r =
      let offset = minus64 r.end_of_buffer_offset (length r.buffer) in
      elim (read_physical_record env c r a.fragment) [
        | none ↦ none
        | some (record_type, fragment, left) ↦
            elim (dispatch record_type offset (record a { fragment = fragment }) left) [
              | returned result final ↦ some (result, final)
              | continued next final ↦ read_record_loop fuel next final
            ]
      ]

  -- The inner `none` is `false`.
  pub read_record : ℕ → Reader F → Option (Option Bytes × Reader F)
  read_record fuel r =
      let skipped = skip_to_initial_block env r in
      let skips = ltb r.last_record_offset r.initial_offset in
      let start = if skips then skipped.1 else r in
      let rest = read_record_loop fuel new_assembly start in
      if skips && not skipped.0 then some (none, skipped.1) else rest
