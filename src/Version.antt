-- ===== src/Version.antt =====
-- LevelDB/db/version_set.h and LevelDB/db/version_set.cc, the class Version: the files of each level,
-- and the searches for the files that hold a key or meet a range of keys.
pub mod FindFile
pub mod Overlap
pub mod Inputs
pub mod Levels
pub mod Get
mod Runs
use leveldb_windows.Base.{
  ℕ, zero, suc, ◌+◌, ◌-◌, ◌*◌, ◌/◌, ◌%◌, ◌^◌, Bool, true, false, not, ◌||◌, Option, none, some,
  List, [], ◌∷◌, ◌++◌, Bytes, length, get_or, ltb, leb, ◌==◌, is_lt, is_gt, if◌then◌else◌,
}
use leveldb_windows.Comparator.{Comparator}
use leveldb_windows.Coding.{encode_fixed64}
use leveldb_windows.DbFormat.{
  internal_compare, extract_user_key, max_sequence_number, value_type_for_seek,
}
use leveldb_windows.DbFormat.Keys.{internal_key}
use leveldb_windows.VersionEdit.{FileMetaData, new_file}

-- What an index past the end of a vector would reach; no theorem reads it.
abbrev pub no_file : FileMetaData
no_file = new_file 0 0 [] []

-- `InternalKey(user_key, kMaxSequenceNumber, kValueTypeForSeek)`
abbrev pub seek_key : Bytes → Bytes
seek_key user_key =
    internal_key
      (record { user_key = user_key; sequence = max_sequence_number; type = value_type_for_seek })

module _ (user : Comparator) where
  -- Whether the file ends before the key.
  abbrev pub ends_before : FileMetaData → Bytes → Bool
  ends_before f key = is_lt (internal_compare user f.largest key)

  -- The loop, on fuel for its rounds.
  pub find_file_loop : ℕ → List FileMetaData → Bytes → ℕ → ℕ → ℕ
  find_file_loop zero files key left right = right
  find_file_loop (suc fuel) files key left right =
      let mid = (left + right) % 2 ^ 32 / 2 in
      let later = find_file_loop fuel files key (mid + 1) right in
      let earlier = find_file_loop fuel files key left mid in
      if ltb left right
      then (if ends_before (get_or files mid no_file) key then later else earlier)
      else right

  -- Every round shortens the range.
  pub find_file : List FileMetaData → Bytes → ℕ
  find_file files key =
      let right = length files % 2 ^ 32 in find_file_loop (suc right) files key 0 right

  -- `none` is the null pointer.
  abbrev pub after_file : Option Bytes → FileMetaData → Bool
  after_file none f = false
  after_file (some user_key) f = is_gt (user.compare_keys user_key (extract_user_key f.largest))

  abbrev pub before_file : Option Bytes → FileMetaData → Bool
  before_file none f = false
  before_file (some user_key) f = is_lt (user.compare_keys user_key (extract_user_key f.smallest))

  -- The loop over all files.
  unfoldable pub some_file_meets : List FileMetaData → Option Bytes → Option Bytes → Bool
  some_file_meets [] smallest largest = false
  some_file_meets (f ∷ files) smallest largest =
      let rest = some_file_meets files smallest largest in
      if after_file smallest f || before_file largest f then rest else true

  abbrev pub first_index : List FileMetaData → Option Bytes → ℕ
  first_index files none = 0
  first_index files (some user_key) = find_file files (seek_key user_key)

  pub some_file_overlaps_range : Bool → List FileMetaData → Option Bytes → Option Bytes → Bool
  some_file_overlaps_range disjoint_sorted_files files smallest largest =
      let index = first_index files smallest in
      if disjoint_sorted_files
      then (if leb (length files) index
          then false
          else not (before_file largest (get_or files index no_file)))
      else some_file_meets files smallest largest
