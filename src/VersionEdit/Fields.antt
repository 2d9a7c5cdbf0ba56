-- ===== src/VersionEdit/Fields.antt =====
-- LevelDB/db/version_edit.cc: one round of DecodeFrom and one chunk of EncodeTo.
use leveldb_windows.Base.{
  ℕ, zero, suc, ◌<◌, ◌≤◌, ◌≡◌, arith, some, ◌++◌, append_assoc, Bytes, IsU32, IsU64, length,
  length-append, lt→ltb, inl,
}
use leveldb_windows.Coding.{encode_varint32, encode_varint64}
use leveldb_windows.Coding.Varint.{encode_varint32-groups, length-groups}
use leveldb_windows.Coding.Decode.{get_varint32-encode_varint32, get_varint64-encode_varint64}
use leveldb_windows.Coding.Prefixed.{get_length_prefixed_slice-encode}
use leveldb_windows.VersionEdit.{
  VersionEdit, FileMetaData, num_levels, new_file, set_comparator_name, set_log_number,
  set_prev_log_number, set_next_file, set_last_sequence, set_compact_pointer, add_file, delete_file,
  get_level, get_internal_key, decode_field, Outcome, decode_loop,
}
use leveldb_windows.VersionEdit.Encode.{
  prefixed, comparator_chunk, number_chunk, pointer_chunk, deleted_chunk, file_chunk, KeyFits,
  DeletedFits, FileFits,
}

-- With any fuel above the length of the input the loop ends in `r`.
abbrev pub Decodes : Bytes → VersionEdit → Outcome → Type 0
Decodes input e r = (fuel : ℕ) → length input < fuel → decode_loop fuel input e ≡ some r

some_byte : (v : ℕ) → IsU32 v → 1 ≤ length (encode_varint32 v)
some_byte v h = rw (encode_varint32-groups v h) (length-groups 4 v).0

-- A tag, and a payload that the case for the tag reads.
field_step :
    (tag : ℕ) (payload rest : Bytes) (e e' : VersionEdit) (r : Outcome)
    → IsU32 tag
    → decode_field tag (payload ++ rest) e ≡ inl (e', rest)
    → Decodes rest e' r
    → Decodes (encode_varint32 tag ++ (payload ++ rest)) e r
unfolding decode_loop
field_step tag payload rest e e' r h field later zero lt = absurd (omega arith)
field_step tag payload rest e e' r h field later (suc fuel) lt =
    rw (get_varint32-encode_varint32 tag (payload ++ rest) h, decode_loop, field)
      (later fuel (
        omega (
          arith,
          length-append (encode_varint32 tag) (payload ++ rest),
          length-append payload rest,
          some_byte tag h,
        )))

get_level-encode :
    (level : ℕ) (rest : Bytes)
    → level < num_levels
    → get_level (encode_varint32 level ++ rest) ≡ some (level, rest)
unfolding get_level
get_level-encode level rest h =
    rw (get_varint32-encode_varint32 level rest (omega arith), lt→ltb level num_levels h)

get_internal_key-encode :
    (key rest : Bytes)
    → IsU32 (length key)
    → get_internal_key (encode_varint32 (length key) ++ (key ++ rest)) ≡ some (key, rest)
unfolding get_internal_key
get_internal_key-encode key rest h = get_length_prefixed_slice-encode key rest h

module _ (rest : Bytes) (e : VersionEdit) (r : Outcome) where
  pub Decodes-comparator :
      (name : Bytes)
      → IsU32 (length name)
      → Decodes rest (set_comparator_name e name) r
      → Decodes (comparator_chunk name ++ rest) e r
  Decodes-comparator name h later =
      rw append_assoc (
        field_step 1 (prefixed name) rest e (set_comparator_name e name) r (omega arith) read later)
    where
      read : decode_field 1 (prefixed name ++ rest) e ≡ inl (set_comparator_name e name, rest)
      read =
          unfold decode_field in rw append_assoc (rw (get_length_prefixed_slice-encode name rest h))

  Decodes-number :
      (tag num : ℕ) (e' : VersionEdit)
      → IsU32 tag
      → decode_field tag (encode_varint64 num ++ rest) e ≡ inl (e', rest)
      → Decodes rest e' r
      → Decodes (number_chunk tag num ++ rest) e r
  Decodes-number tag num e' ht read later =
      rw append_assoc (field_step tag (encode_varint64 num) rest e e' r ht read later)

  pub Decodes-log_number :
      (num : ℕ)
      → IsU64 num
      → Decodes rest (set_log_number e num) r
      → Decodes (number_chunk 2 num ++ rest) e r
  unfolding decode_field
  Decodes-log_number num h =
      Decodes-number 2 num (set_log_number e num) (omega arith)
        (rw (get_varint64-encode_varint64 num rest h))

  pub Decodes-prev_log_number :
      (num : ℕ)
      → IsU64 num
      → Decodes rest (set_prev_log_number e num) r
      → Decodes (number_chunk 9 num ++ rest) e r
  unfolding decode_field
  Decodes-prev_log_number num h =
      Decodes-number 9 num (set_prev_log_number e num) (omega arith)
        (rw (get_varint64-encode_varint64 num rest h))

  pub Decodes-next_file :
      (num : ℕ)
      → IsU64 num
      → Decodes rest (set_next_file e num) r
      → Decodes (number_chunk 3 num ++ rest) e r
  unfolding decode_field
  Decodes-next_file num h =
      Decodes-number 3 num (set_next_file e num) (omega arith)
        (rw (get_varint64-encode_varint64 num rest h))

  pub Decodes-last_sequence :
      (num : ℕ)
      → IsU64 num
      → Decodes rest (set_last_sequence e num) r
      → Decodes (number_chunk 4 num ++ rest) e r
  unfolding decode_field
  Decodes-last_sequence num h =
      Decodes-number 4 num (set_last_sequence e num) (omega arith)
        (rw (get_varint64-encode_varint64 num rest h))

  pub Decodes-compact_pointer :
      (level : ℕ) (key : Bytes)
      → KeyFits (level, key)
      → Decodes rest (set_compact_pointer e level key) r
      → Decodes (pointer_chunk (level, key) ++ rest) e r
  Decodes-compact_pointer level key (hl, hk) later = rw append_assoc (
      field_step 5 (encode_varint32 level ++ prefixed key) rest e (set_compact_pointer e level key)
        r (omega arith) read later)
    where
      read :
          decode_field 5 ((encode_varint32 level ++ prefixed key) ++ rest) e
          ≡ inl (set_compact_pointer e level key, rest)
      read =
          unfold decode_field in
          simp (append_assoc, get_level-encode level _ hl, get_internal_key-encode key rest hk)

  pub Decodes-deleted_file :
      (level number : ℕ)
      → DeletedFits (level, number)
      → Decodes rest (delete_file e level number) r
      → Decodes (deleted_chunk (level, number) ++ rest) e r
  Decodes-deleted_file level number (hl, hn) later = rw append_assoc (
      field_step 6 (encode_varint32 level ++ encode_varint64 number) rest e
        (delete_file e level number) r (omega arith) read later)
    where
      read :
          decode_field 6 ((encode_varint32 level ++ encode_varint64 number) ++ rest) e
          ≡ inl (delete_file e level number, rest)
      read =
          unfold decode_field in
          simp
            (append_assoc, get_level-encode level _ hl, get_varint64-encode_varint64 number rest hn)

  pub Decodes-new_file :
      (level : ℕ) (f : FileMetaData)
      → FileFits (level, f)
      → Decodes rest (add_file e level (new_file f.number f.file_size f.smallest f.largest)) r
      → Decodes (file_chunk (level, f) ++ rest) e r
  Decodes-new_file level f (hl, hn, hz, hs, hg) later = rw append_assoc (
      field_step 7 payload rest e
        (add_file e level (new_file f.number f.file_size f.smallest f.largest)) r (omega arith) read
        later)
    where
      payload : Bytes
      payload =
          encode_varint32 level
          ++ (encode_varint64 f.number
              ++ (encode_varint64 f.file_size ++ (prefixed f.smallest ++ prefixed f.largest)))

      read :
          decode_field 7 (payload ++ rest) e
          ≡ inl (add_file e level (new_file f.number f.file_size f.smallest f.largest), rest)
      read =
          unfold decode_field in
          simp (
            append_assoc,
            get_level-encode level _ hl,
            get_varint64-encode_varint64 f.number _ hn,
            get_varint64-encode_varint64 f.file_size _ hz,
            get_internal_key-encode f.smallest _ hs,
            get_internal_key-encode f.largest rest hg,
          )
