-- ===== src/VersionEdit/RoundTrip.antt =====
-- A version edit that is written and read back.
use leveldb_windows.Base.{
  ℕ, ◌+◌, ◌≡◌, refl, arith, Bool, false, some, List, [], ◌++◌, append-nil, Bytes, IsU32, IsU64,
  length, All,
}
use leveldb_windows.VersionEdit.{VersionEdit, FileMetaData, encode_to, decode_from, decoded}
use leveldb_windows.VersionEdit.Encode.{
  comparator_chunk, number_chunk, pointer_chunk, deleted_chunk, file_chunk, chunks, encoding,
  KeyFits, DeletedFits, FileFits, encode_to-encoding,
}
use leveldb_windows.VersionEdit.Lists.{
  IsIncreasing, IsFresh, Decodes-optional, Decodes-compact_pointers, Decodes-new_files,
  Decodes-deleted_files, Decodes-nil,
}
use leveldb_windows.VersionEdit.Fields.{
  Decodes, Decodes-comparator, Decodes-log_number, Decodes-prev_log_number, Decodes-next_file,
  Decodes-last_sequence,
}

-- An edit that can be written: a field that is not set has its default value, numbers and lengths
-- fit their encodings, levels exist.
pub record IsEdit (e : VersionEdit) : Type 0 where
  pub comparator_default : e.has_comparator ≡ false → e.comparator ≡ []
  pub log_default : e.has_log_number ≡ false → e.log_number ≡ 0
  pub prev_log_default : e.has_prev_log_number ≡ false → e.prev_log_number ≡ 0
  pub next_file_default : e.has_next_file_number ≡ false → e.next_file_number ≡ 0
  pub sequence_default : e.has_last_sequence ≡ false → e.last_sequence ≡ 0
  pub comparator_fits : IsU32 (length e.comparator)
  pub log_fits : IsU64 e.log_number
  pub prev_log_fits : IsU64 e.prev_log_number
  pub next_file_fits : IsU64 e.next_file_number
  pub sequence_fits : IsU64 e.last_sequence
  pub pointers_fit : All KeyFits e.compact_pointers
  pub deleted_fit : All DeletedFits e.deleted_files
  pub deleted_increase : IsIncreasing e.deleted_files
  pub files_fit : All FileFits e.new_files
  pub files_fresh : All IsFresh e.new_files

-- The scalar fields in the order of `EncodeTo`, over the lists.
abbrev scalars :
    Bytes
    → Bool
    → ℕ
    → Bool
    → ℕ
    → Bool
    → ℕ
    → Bool
    → ℕ
    → Bool
    → List (ℕ × Bytes)
    → List (ℕ × ℕ)
    → List (ℕ × FileMetaData)
    → VersionEdit
scalars c hc l hl p hp n hn q hq pointers deleted files = record {
  comparator = c;
  has_comparator = hc;
  log_number = l;
  has_log_number = hl;
  prev_log_number = p;
  has_prev_log_number = hp;
  next_file_number = n;
  has_next_file_number = hn;
  last_sequence = q;
  has_last_sequence = hq;
  compact_pointers = pointers;
  deleted_files = deleted;
  new_files = files;
}

module _ (e : VersionEdit) (v : IsEdit e) (before : List (ℕ × Bytes)) where
  abbrev c : Bytes
  c = e.comparator

  -- The pointers that were there stay in front.
  abbrev joined : VersionEdit
  joined = record e { compact_pointers = before ++ e.compact_pointers }

  Decodes-lists :
      (s : VersionEdit)
      → s ≡ record e { compact_pointers = before; deleted_files = []; new_files = [] }
      → Decodes
          (chunks pointer_chunk e.compact_pointers
            ++ (chunks deleted_chunk e.deleted_files ++ chunks file_chunk e.new_files))
          s
          (decoded joined)
  Decodes-lists s same = rw same (
      Decodes-compact_pointers e.compact_pointers _ _ (decoded joined) v.pointers_fit (
        Decodes-deleted_files e.deleted_files _ _ (decoded joined) v.deleted_fit v.deleted_increase
          (rw append-nil at (
            Decodes-new_files e.new_files [] (record joined { new_files = [] }) (decoded joined)
              v.files_fit v.files_fresh (Decodes-nil joined)))))

  Decodes-encoding :
      Decodes
        (encoding e)
        (scalars [] false 0 false 0 false 0 false 0 false before [] [])
        (decoded joined)
  Decodes-encoding =
      Decodes-optional e.has_comparator c [] comparator_chunk
        (λ x has. scalars x has 0 false 0 false 0 false 0 false before [] []) _ (decoded joined)
        v.comparator_default (Decodes-comparator _ _ (decoded joined) c v.comparator_fits)
        (Decodes-optional e.has_log_number e.log_number 0 (number_chunk 2)
          (λ x has. scalars c e.has_comparator x has 0 false 0 false 0 false before [] []) _
          (decoded joined) v.log_default
          (Decodes-log_number _ _ (decoded joined) e.log_number v.log_fits)
          (Decodes-optional e.has_prev_log_number e.prev_log_number 0 (number_chunk 9)
            (λ x has.
              scalars c e.has_comparator e.log_number e.has_log_number x has 0 false 0 false before
                [] [])
            _ (decoded joined) v.prev_log_default
            (Decodes-prev_log_number _ _ (decoded joined) e.prev_log_number v.prev_log_fits)
            (Decodes-optional e.has_next_file_number e.next_file_number 0 (number_chunk 3)
              (λ x has.
                scalars c e.has_comparator e.log_number e.has_log_number e.prev_log_number
                  e.has_prev_log_number x has 0 false before [] [])
              _ (decoded joined) v.next_file_default
              (Decodes-next_file _ _ (decoded joined) e.next_file_number v.next_file_fits)
              (Decodes-optional e.has_last_sequence e.last_sequence 0 (number_chunk 4)
                (λ x has.
                  scalars c e.has_comparator e.log_number e.has_log_number e.prev_log_number
                    e.has_prev_log_number e.next_file_number e.has_next_file_number x has before []
                    [])
                _ (decoded joined) v.sequence_default
                (Decodes-last_sequence _ _ (decoded joined) e.last_sequence v.sequence_fits)
                (Decodes-lists _ refl)))))

-- An edit that can be written is read back whole, but for the compaction pointers: those of the edit
-- that reads it stay in front, since `Clear` leaves them.
pub decode_from-encode_to :
    (e e' : VersionEdit)
    → IsEdit e
    → decode_from e' (encode_to e [])
      ≡ some (decoded (record e { compact_pointers = e'.compact_pointers ++ e.compact_pointers }))
unfolding decode_from
decode_from-encode_to e e' v =
    rw (encode_to-encoding e [] v.comparator_fits v.pointers_fit v.files_fit)
      (Decodes-encoding e v e'.compact_pointers (length (encoding e) + 1) (omega arith))
