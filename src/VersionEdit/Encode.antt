-- ===== src/VersionEdit/Encode.antt =====
-- What `EncodeTo` appends: a chunk for each field that is set and for each item of the three lists.
use leveldb_windows.Base.{
  ℕ, ◌<◌, ◌≡◌, sym, ap, ◌∙◌, Bool, true, false, List, [], ◌∷◌, ◌++◌, append_assoc, append-nil,
  Bytes, IsU32, IsU64, length, All, if◌then◌else◌,
}
use leveldb_windows.Coding.{
  encode_varint32, encode_varint64, put_varint32, put_varint64, put_length_prefixed_slice,
}
use leveldb_windows.Coding.Prefixed.{put_length_prefixed_slice-append}
use leveldb_windows.VersionEdit.{
  VersionEdit, FileMetaData, num_levels, put_compact_pointers, put_deleted_files, put_new_files,
  encode_to,
}

abbrev pub prefixed : Bytes → Bytes
prefixed s = encode_varint32 (length s) ++ s

abbrev pub comparator_chunk : Bytes → Bytes
comparator_chunk name = encode_varint32 1 ++ prefixed name

abbrev pub number_chunk : ℕ → ℕ → Bytes
number_chunk tag num = encode_varint32 tag ++ encode_varint64 num

abbrev pub pointer_chunk : ℕ × Bytes → Bytes
pointer_chunk (level, key) = encode_varint32 5 ++ (encode_varint32 level ++ prefixed key)

abbrev pub deleted_chunk : ℕ × ℕ → Bytes
deleted_chunk (level, number) =
    encode_varint32 6 ++ (encode_varint32 level ++ encode_varint64 number)

abbrev pub file_chunk : ℕ × FileMetaData → Bytes
file_chunk (level, f) =
    encode_varint32 7
    ++ (encode_varint32 level
        ++ (encode_varint64 f.number
            ++ (encode_varint64 f.file_size ++ (prefixed f.smallest ++ prefixed f.largest))))

abbrev pub chunks {ℓ} : {A : Type ℓ} → (A → Bytes) → List A → Bytes
chunks chunk [] = []
chunks chunk (x ∷ xs) = chunk x ++ chunks chunk xs

abbrev pub optional : Bool → Bytes → Bytes
optional has chunk = if has then chunk else []

abbrev pub encoding : VersionEdit → Bytes
encoding e =
    optional e.has_comparator (comparator_chunk e.comparator)
    ++ (optional e.has_log_number (number_chunk 2 e.log_number)
        ++ (optional e.has_prev_log_number (number_chunk 9 e.prev_log_number)
            ++ (optional e.has_next_file_number (number_chunk 3 e.next_file_number)
                ++ (optional e.has_last_sequence (number_chunk 4 e.last_sequence)
                    ++ (chunks pointer_chunk e.compact_pointers
                        ++ (chunks deleted_chunk e.deleted_files
                            ++ chunks file_chunk e.new_files))))))

abbrev pub KeyFits : ℕ × Bytes → Type 0
KeyFits (level, key) = (level < num_levels) × IsU32 (length key)

abbrev pub DeletedFits : ℕ × ℕ → Type 0
DeletedFits (level, number) = (level < num_levels) × IsU64 number

abbrev pub FileFits : ℕ × FileMetaData → Type 0
FileFits (level, f) =
    (level < num_levels)
    × IsU64 f.number
    × IsU64 f.file_size
    × IsU32 (length f.smallest)
    × IsU32 (length f.largest)

pointer_chunk-put :
    (dst : Bytes) (level : ℕ) (key : Bytes)
    → IsU32 (length key)
    → put_length_prefixed_slice (put_varint32 (put_varint32 dst 5) level) key
      ≡ dst ++ pointer_chunk (level, key)
unfolding put_varint32
pointer_chunk-put dst level key h =
    rw (put_length_prefixed_slice-append _ key h) (simp append_assoc)

put_compact_pointers-chunks :
    (l : List (ℕ × Bytes)) (dst : Bytes)
    → All KeyFits l
    → put_compact_pointers dst l ≡ dst ++ chunks pointer_chunk l
unfolding put_compact_pointers
put_compact_pointers-chunks [] dst h = sym (append-nil dst)
put_compact_pointers-chunks ((level, key) ∷ l) dst h =
    put_compact_pointers-chunks l _ h.1
    ∙ ap (λ (d : Bytes). d ++ chunks pointer_chunk l) (pointer_chunk-put dst level key h.0.1)
    ∙ append_assoc dst (pointer_chunk (level, key)) (chunks pointer_chunk l)

put_deleted_files-chunks :
    (l : List (ℕ × ℕ)) (dst : Bytes) → put_deleted_files dst l ≡ dst ++ chunks deleted_chunk l
unfolding put_deleted_files put_varint32 put_varint64
put_deleted_files-chunks [] dst = sym (append-nil dst)
put_deleted_files-chunks ((level, number) ∷ l) dst =
    put_deleted_files-chunks l _ ∙ simp append_assoc

file_chunk-put :
    (dst : Bytes) (level : ℕ) (f : FileMetaData)
    → IsU32 (length f.smallest)
    → IsU32 (length f.largest)
    → put_length_prefixed_slice
        (put_length_prefixed_slice
          (put_varint64
            (put_varint64 (put_varint32 (put_varint32 dst 7) level) f.number)
            f.file_size)
          f.smallest)
        f.largest
      ≡ dst ++ file_chunk (level, f)
unfolding put_varint32 put_varint64
file_chunk-put dst level f hs hl =
    rw (put_length_prefixed_slice-append _ f.largest hl)
      (rw (put_length_prefixed_slice-append _ f.smallest hs) (simp append_assoc))

put_new_files-chunks :
    (l : List (ℕ × FileMetaData)) (dst : Bytes)
    → All FileFits l
    → put_new_files dst l ≡ dst ++ chunks file_chunk l
unfolding put_new_files
put_new_files-chunks [] dst h = sym (append-nil dst)
put_new_files-chunks ((level, f) ∷ l) dst h =
    put_new_files-chunks l _ h.1
    ∙ ap (λ (d : Bytes). d ++ chunks file_chunk l) (file_chunk-put dst level f h.0.3 h.0.4)
    ∙ append_assoc dst (file_chunk (level, f)) (chunks file_chunk l)

optional-put :
    (has : Bool) (dst chunk written : Bytes)
    → written ≡ dst ++ chunk
    → (if has then written else dst) ≡ dst ++ optional has chunk
optional-put true dst chunk written e = e
optional-put false dst chunk written e = sym (append-nil dst)

comparator_chunk-put :
    (dst name : Bytes)
    → IsU32 (length name)
    → put_length_prefixed_slice (put_varint32 dst 1) name ≡ dst ++ comparator_chunk name
unfolding put_varint32
comparator_chunk-put dst name h = rw (put_length_prefixed_slice-append _ name h) (simp append_assoc)

number_chunk-put :
    (dst : Bytes) (tag num : ℕ)
    → put_varint64 (put_varint32 dst tag) num ≡ dst ++ number_chunk tag num
unfolding put_varint32 put_varint64
number_chunk-put dst tag num = append_assoc dst _ _

optional_comparator-put :
    (has : Bool) (dst name : Bytes)
    → IsU32 (length name)
    → (if has then put_length_prefixed_slice (put_varint32 dst 1) name else dst)
      ≡ dst ++ optional has (comparator_chunk name)
optional_comparator-put has dst name h = optional-put has dst _ _ (comparator_chunk-put dst name h)

optional_number-put :
    (has : Bool) (dst : Bytes) (tag num : ℕ)
    → (if has then put_varint64 (put_varint32 dst tag) num else dst)
      ≡ dst ++ optional has (number_chunk tag num)
optional_number-put has dst tag num = optional-put has dst _ _ (number_chunk-put dst tag num)

-- What is appended to any string: the encoding of the edit.
pub encode_to-encoding :
    (e : VersionEdit) (dst : Bytes)
    → IsU32 (length e.comparator)
    → All KeyFits e.compact_pointers
    → All FileFits e.new_files
    → encode_to e dst ≡ dst ++ encoding e
unfolding encode_to
encode_to-encoding e dst hc hk hf =
    rw
      (
        put_new_files-chunks e.new_files _ hf,
        put_deleted_files-chunks,
        put_compact_pointers-chunks e.compact_pointers _ hk,
        optional_comparator-put e.has_comparator dst e.comparator hc,
      )
      (simp (optional_number-put, append_assoc))
