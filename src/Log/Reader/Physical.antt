-- ===== src/Log/Reader/Physical.antt =====
-- LevelDB/db/log_reader.cc: one physical record, as the writer lays it out.
use leveldb_windows.Base.{
  ℕ, ◌+◌, ◌*◌, ◌/◌, ◌%◌, ◌^◌, ◌<◌, ◌≡◌, refl, ap, ◌∙◌, arith, Bool, true, false, [], ◌∷◌, ◌++◌,
  append_assoc, Bytes, length, length-append, drop, drop_join, take-append, get_or, ltb, lt→ltb,
  ◌==◌, if◌then◌else◌, bit_or, bit_and,
}
use leveldb_windows.Base.Bits.{bit_or_shifted, bit_and_low8}
use leveldb_windows.Coding.{encode_fixed32, decode_fixed32}
use leveldb_windows.Coding.Fixed.{decode_fixed32-encode_fixed32}
use leveldb_windows.Crc32c.{Checksum, IsChecksum, checksum_value, mask, unmask}
use leveldb_windows.Crc32c.Mask.{mask-IsU32, unmask-mask}
use leveldb_windows.Log.{RecordType, record_type_code, record_header, type_crc}
use leveldb_windows.Log.Reader.{
  Reader, record_length, checked_bytes, take_physical_record, check_physical_record,
}

-- The code of a type is below 5.
record_type_code-small : (t : RecordType) → record_type_code t < 5
unfolding record_type_code
record_type_code-small t = ground arith

-- A length of two bytes.
length_bytes : (n : ℕ) → n < 2 ^ 16 → bit_or (bit_and n 0xff) (n / 2 ^ 8 % 256 * 2 ^ 8) ≡ n
length_bytes n h =
    rw bit_and_low8 (bit_or_shifted 8 (n % 256) (n / 2 ^ 8 % 256) (omega arith) ∙ omega arith)

not_below_zero : (a : ℕ) → ltb a 0 ≡ false
not_below_zero a = ground arith

not_shorter : (a b : ℕ) → ltb (7 + (a + b)) (7 + a) ≡ false
not_shorter a b = ground arith

positive_nonzero : (a : ℕ) → 0 < a → (a == 0) ≡ false
positive_nonzero a h = ground arith

either_way : {A : Type 0} (b : Bool) (a : A) → (if b then a else a) ≡ a
either_way true a = refl
either_way false a = refl

same : (a : ℕ) → (a == a) ≡ true
same a = ground arith

module _ (c : Checksum) (t : RecordType) (payload rest : Bytes) where
  abbrev laid_out : Bytes
  laid_out = record_header c t payload ++ (payload ++ rest)

  length_read : length payload < 2 ^ 16 → record_length laid_out ≡ length payload
  unfolding record_header encode_fixed32
  length_read small = length_bytes (length payload) small

  type_read : get_or laid_out 6 0 ≡ record_type_code t
  unfolding record_header encode_fixed32
  type_read = refl

  header_behind : drop 7 laid_out ≡ payload ++ rest
  unfolding record_header encode_fixed32
  header_behind = refl

  checked_read : drop 6 laid_out ≡ record_type_code t ∷ (payload ++ rest)
  unfolding record_header encode_fixed32
  checked_read = refl

  length-laid_out : length laid_out ≡ 7 + (length payload + length rest)
  unfolding record_header encode_fixed32
  length-laid_out = omega (arith, length-append payload rest)

  record_behind : drop (7 + length payload) laid_out ≡ rest
  record_behind =
      let header = record_header c t payload in
      let seven : length header ≡ 7 = unfold record_header in unfold encode_fixed32 in refl in
      rw (← append_assoc header payload rest) (
        drop_join (7 + length payload) (header ++ payload) rest
          (length-append header payload ∙ rw seven refl))

  crc_read :
      IsChecksum c
      → unmask (decode_fixed32 laid_out) ≡ checksum_value c (record_type_code t ∷ payload)
  unfolding record_header type_crc
  crc_read k =
      let crc = c.extend (c.extend 0 (record_type_code t ∷ [])) payload in
      rw
        (
          append_assoc,
          decode_fixed32-encode_fixed32 (mask crc) _ (mask-IsU32 crc),
          unmask-mask crc (k.word _ payload),
        )
        (k.concat 0 (record_type_code t ∷ []) payload)

  checked_payload : length payload < 2 ^ 16 → checked_bytes laid_out ≡ record_type_code t ∷ payload
  checked_payload small =
      rw (length_read small, checked_read)
        (ap (λ bytes. record_type_code t ∷ bytes) (take-append payload rest))

  module _ {F : Type 0} (r : Reader F) (small : length payload < 2 ^ 16)
      (from_start : r.initial_offset ≡ 0) where
    take_laid_out :
        take_physical_record (record r { buffer = laid_out })
        ≡ (record_type_code t, payload, record r { buffer = rest })
    unfolding take_physical_record
    take_laid_out =
        rw
          (
            length_read small,
            header_behind,
            record_behind,
            take-append payload rest,
            from_start,
            type_read,
            not_below_zero,
            lt→ltb (record_type_code t) 128 (omega (arith, record_type_code-small t)),
          )
          refl

    -- The reader takes the type and the payload of a physical record as the writer lays it out, whether
    -- checksums are verified or not, and is left behind it. The payload has fewer than 65536 bytes, the
    -- type is not the zero type, the reader starts at offset 0, and the checksum keeps its laws.
    pub check_physical_record-record_header :
        (result : Bytes)
        → IsChecksum c
        → 0 < record_type_code t
        → check_physical_record c (record r { buffer = laid_out }) result
          ≡ (record_type_code t, payload, record r { buffer = rest })
    unfolding check_physical_record
    check_physical_record-record_header result k nonzero =
        rw
          (
            crc_read k,
            checked_payload small,
            length_read small,
            length-laid_out,
            type_read,
            take_laid_out,
          )
          (rw
            (
              not_shorter (length payload) (length rest),
              positive_nonzero (record_type_code t) nonzero,
              same,
            )
            (either_way r.checksum _))
