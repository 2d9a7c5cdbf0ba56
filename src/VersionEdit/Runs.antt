-- ===== src/VersionEdit/Runs.antt =====
-- A version edit at concrete values.
use leveldb_windows.Base.{◌≡◌, refl, arith, true, false, some, [], ◌∷◌, ◌++◌, ◌^◌}
use leveldb_windows.VersionEdit.{VersionEdit, new_file, encode_to, decode_from, decoded}
use leveldb_windows.VersionEdit.Encode.{encoding, encode_to-encoding}
use leveldb_windows.VersionEdit.RoundTrip.{IsEdit, decode_from-encode_to}

abbrev edit : VersionEdit
edit = record {
  comparator = b'c' ∷ [];
  has_comparator = true;
  log_number = 300;
  has_log_number = true;
  prev_log_number = 0;
  has_prev_log_number = false;
  next_file_number = 12;
  has_next_file_number = true;
  last_sequence = 2 ^ 40;
  has_last_sequence = true;
  compact_pointers = (1, b'k' ∷ []) ∷ [];
  deleted_files = (0, 7) ∷ (2, 5) ∷ [];
  new_files = (3, new_file 9 1000 (b'a' ∷ []) (b'z' ∷ [])) ∷ [];
}

edit-IsEdit : IsEdit edit
edit-IsEdit = record {
  comparator_default = λ h. cc;
  log_default = λ h. cc;
  prev_log_default = λ h. refl;
  next_file_default = λ h. cc;
  sequence_default = λ h. cc;
  comparator_fits = omega arith;
  log_fits = omega arith;
  prev_log_fits = omega arith;
  next_file_fits = omega arith;
  sequence_fits = omega arith;
  pointers_fit = omega arith;
  deleted_fit = omega arith;
  deleted_increase = ((refl, tt), (tt, tt));
  files_fit = omega arith;
  files_fresh = omega arith;
}

decode_from-encode_to_example :
    decode_from edit (encode_to edit [])
    ≡ some (decoded (record edit { compact_pointers = (1, b'k' ∷ []) ∷ (1, b'k' ∷ []) ∷ [] }))
decode_from-encode_to_example = decode_from-encode_to edit edit edit-IsEdit

encode_to-encoding_example : encode_to edit (0 ∷ []) ≡ (0 ∷ []) ++ encoding edit
encode_to-encoding_example =
    encode_to-encoding edit (0 ∷ []) (omega arith) (omega arith) (omega arith)
