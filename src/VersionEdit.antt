-- ===== src/VersionEdit.antt =====
-- LevelDB/db/version_edit.h and LevelDB/db/version_edit.cc: a change of the set of files, and its
-- record in the manifest.
pub mod Encode
pub mod Fields
pub mod Lists
pub mod RoundTrip
mod Runs
use leveldb_windows.Base.{
  ℕ, zero, suc, ◌+◌, ◌^◌, Bool, true, false, ◌&&◌, Option, none, some, List, [], ◌∷◌, ◌++◌, Bytes,
  length, ltb, ◌==◌, if◌then◌else◌, ◌⊎◌, inl, inr,
}
use leveldb_windows.Status.{Status, ok_status, corruption}
use leveldb_windows.Coding.{
  put_varint32, put_varint64, put_length_prefixed_slice, get_varint32, get_varint64,
  get_length_prefixed_slice, ◌>>=◌,
}
use Prim.Native.String.{String}

-- `config::kNumLevels`
abbrev pub num_levels : ℕ
num_levels = 7

-- An `InternalKey` is its `rep_`.
pub record FileMetaData : Type 0 where
  pub refs : ℕ
  pub allowed_seeks : ℕ
  pub number : ℕ
  pub file_size : ℕ
  pub smallest : Bytes
  pub largest : Bytes

pub record VersionEdit : Type 0 where
  pub comparator : Bytes
  pub has_comparator : Bool
  pub log_number : ℕ
  pub has_log_number : Bool
  pub prev_log_number : ℕ
  pub has_prev_log_number : Bool
  pub next_file_number : ℕ
  pub has_next_file_number : Bool
  pub last_sequence : ℕ
  pub has_last_sequence : Bool
  pub compact_pointers : List (ℕ × Bytes)
  pub deleted_files : List (ℕ × ℕ)
  pub new_files : List (ℕ × FileMetaData)

abbrev pub new_file : ℕ → ℕ → Bytes → Bytes → FileMetaData
new_file number file_size smallest largest = record {
  refs = 0;
  allowed_seeks = 2 ^ 30;
  number = number;
  file_size = file_size;
  smallest = smallest;
  largest = largest;
}

-- `compact_pointers_` is not among what the source clears.
abbrev pub clear : VersionEdit → VersionEdit
clear e = record {
  comparator = [];
  has_comparator = false;
  log_number = 0;
  has_log_number = false;
  prev_log_number = 0;
  has_prev_log_number = false;
  next_file_number = 0;
  has_next_file_number = false;
  last_sequence = 0;
  has_last_sequence = false;
  compact_pointers = e.compact_pointers;
  deleted_files = [];
  new_files = [];
}

-- The order of `std::pair`, and `std::set::insert` on the members in increasing order.
abbrev pub pair_lt : ℕ × ℕ → ℕ × ℕ → Bool
pair_lt (a, b) (c, d) = if ltb a c then true else if ltb c a then false else ltb b d

pub insert_pair : ℕ × ℕ → List (ℕ × ℕ) → List (ℕ × ℕ)
insert_pair p [] = p ∷ []
insert_pair p (q ∷ s) =
    let rest = insert_pair p s in
    if pair_lt p q then p ∷ (q ∷ s) else if pair_lt q p then q ∷ rest else q ∷ s

abbrev pub set_comparator_name : VersionEdit → Bytes → VersionEdit
set_comparator_name e name = record e { comparator = name; has_comparator = true }

abbrev pub set_log_number : VersionEdit → ℕ → VersionEdit
set_log_number e num = record e { log_number = num; has_log_number = true }

abbrev pub set_prev_log_number : VersionEdit → ℕ → VersionEdit
set_prev_log_number e num = record e { prev_log_number = num; has_prev_log_number = true }

abbrev pub set_next_file : VersionEdit → ℕ → VersionEdit
set_next_file e num = record e { next_file_number = num; has_next_file_number = true }

abbrev pub set_last_sequence : VersionEdit → ℕ → VersionEdit
set_last_sequence e seq = record e { last_sequence = seq; has_last_sequence = true }

abbrev pub set_compact_pointer : VersionEdit → ℕ → Bytes → VersionEdit
set_compact_pointer e level key = record e {
  compact_pointers = e.compact_pointers ++ ((level, key) ∷ []);
}

abbrev pub add_file : VersionEdit → ℕ → FileMetaData → VersionEdit
add_file e level f = record e { new_files = e.new_files ++ ((level, f) ∷ []) }

abbrev pub delete_file : VersionEdit → ℕ → ℕ → VersionEdit
delete_file e level file = record e { deleted_files = insert_pair (level, file) e.deleted_files }

-- The three loops of `EncodeTo`.
pub put_compact_pointers : Bytes → List (ℕ × Bytes) → Bytes
put_compact_pointers dst [] = dst
put_compact_pointers dst ((level, key) ∷ rest) =
    put_compact_pointers (put_length_prefixed_slice (put_varint32 (put_varint32 dst 5) level) key)
      rest

pub put_deleted_files : Bytes → List (ℕ × ℕ) → Bytes
put_deleted_files dst [] = dst
put_deleted_files dst ((level, number) ∷ rest) =
    put_deleted_files (put_varint64 (put_varint32 (put_varint32 dst 6) level) number) rest

pub put_new_files : Bytes → List (ℕ × FileMetaData) → Bytes
put_new_files dst [] = dst
put_new_files dst ((level, f) ∷ rest) =
    let dst = put_varint32 (put_varint32 dst 7) level in
    let dst = put_varint64 (put_varint64 dst f.number) f.file_size in
    put_new_files (put_length_prefixed_slice (put_length_prefixed_slice dst f.smallest) f.largest)
      rest

pub encode_to : VersionEdit → Bytes → Bytes
encode_to e dst =
    let dst =
      if e.has_comparator
      then put_length_prefixed_slice (put_varint32 dst 1) e.comparator
      else dst in
    let dst = if e.has_log_number then put_varint64 (put_varint32 dst 2) e.log_number else dst in
    let dst =
      if e.has_prev_log_number then put_varint64 (put_varint32 dst 9) e.prev_log_number else dst in
    let dst =
      if e.has_next_file_number
      then put_varint64 (put_varint32 dst 3) e.next_file_number
      else dst in
    let dst =
      if e.has_last_sequence then put_varint64 (put_varint32 dst 4) e.last_sequence else dst in
    put_new_files (put_deleted_files (put_compact_pointers dst e.compact_pointers) e.deleted_files)
      e.new_files

pub get_internal_key : Bytes → Option (Bytes × Bytes)
get_internal_key input = get_length_prefixed_slice input

pub get_level : Bytes → Option (ℕ × Bytes)
get_level input = do
  (v, rest) ← get_varint32 input
  if ltb v num_levels then some (v, rest) else none

abbrev or_msg : String → Option (VersionEdit × Bytes) → (VersionEdit × Bytes) ⊎ String
or_msg msg none = inr msg
or_msg msg (some p) = inl p

-- One case of the `switch`: the edit and the input behind the field, or the message.
pub decode_field : ℕ → Bytes → VersionEdit → (VersionEdit × Bytes) ⊎ String
decode_field tag input e =
    if tag == 1
    then or_msg "comparator name"
        (do (str, rest) ← get_length_prefixed_slice input; some (set_comparator_name e str, rest))
    else if tag == 2
    then or_msg "log number"
        (do (num, rest) ← get_varint64 input; some (set_log_number e num, rest))
    else if tag == 9
    then or_msg "previous log number"
        (do (num, rest) ← get_varint64 input; some (set_prev_log_number e num, rest))
    else if tag == 3
    then or_msg "next file number"
        (do (num, rest) ← get_varint64 input; some (set_next_file e num, rest))
    else if tag == 4
    then or_msg "last sequence number"
        (do (seq, rest) ← get_varint64 input; some (set_last_sequence e seq, rest))
    else if tag == 5
    then or_msg "compaction pointer" (do
      (level, input) ← get_level input
      (key, rest) ← get_internal_key input
      some (set_compact_pointer e level key, rest))
    else if tag == 6
    then or_msg "deleted file" (do
      (level, input) ← get_level input
      (number, rest) ← get_varint64 input
      some (delete_file e level number, rest))
    else if tag == 7
    then or_msg "new-file entry" (do
      (level, input) ← get_level input
      (number, input) ← get_varint64 input
      (file_size, input) ← get_varint64 input
      (smallest, input) ← get_internal_key input
      (largest, rest) ← get_internal_key input
      some (add_file e level (new_file number file_size smallest largest), rest))
    else inr "unknown tag"

-- The message stands for the status `Corruption("VersionEdit", msg)`.
pub data Outcome : Type 0 where
  decoded : VersionEdit → Outcome
  failed : VersionEdit → String → Outcome

abbrev finish : Bytes → VersionEdit → Outcome
finish [] e = decoded e
finish (b ∷ input) e = failed e "invalid tag"

-- The `while` loop and the test behind it. Each round takes a byte at least; `none` is fuel that ran
-- out.
pub decode_loop : ℕ → Bytes → VersionEdit → Option Outcome
decode_loop zero input e = none
decode_loop (suc fuel) input e = elim (get_varint32 input) [
  | none ↦ some (finish input e)
  | some (tag, rest) ↦ elim (decode_field tag rest e) [
    | inl (e', rest') ↦ decode_loop fuel rest' e'
    | inr msg ↦ some (failed e msg)
  ]
]

pub decode_from : VersionEdit → Bytes → Option Outcome
decode_from e src = decode_loop (length src + 1) src (clear e)

pub status : Outcome → Status
status (decoded e) = ok_status
status (failed e msg) = corruption msg
