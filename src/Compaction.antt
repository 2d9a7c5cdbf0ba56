-- ===== src/Compaction.antt =====
-- LevelDB/db/version_set.h and LevelDB/db/version_set.cc, the class Compaction: the questions that a
-- running compaction asks for every key, with the places that they remember between keys.
pub mod BaseLevel
pub mod Inputs
pub mod Places
mod Runs
use leveldb_windows.Base.{
  ℕ, zero, suc, ◌+◌, Bool, true, false, not, ◌&&◌, List, [], ◌∷◌, ◌++◌, Bytes, length, take, drop,
  replicate, ltb, leb, ◌==◌, is_lt, is_gt, if◌then◌else◌,
}
use leveldb_windows.Comparator.{Comparator}
use leveldb_windows.DbFormat.{internal_compare, extract_user_key}
use leveldb_windows.VersionEdit.{FileMetaData, VersionEdit, delete_file, num_levels}
use leveldb_windows.Version.Levels.{
  Levels, total_file_size, target_file_size, max_grand_parent_overlap_bytes,
}

-- `input_levels` are the files of `input_version_`.
pub record Compaction : Type 0 where
  pub level : ℕ
  pub max_output_file_size : ℕ
  pub input_levels : Levels
  pub inputs : List FileMetaData
  pub other_inputs : List FileMetaData
  pub grandparents : List FileMetaData
  pub grandparent_index : ℕ
  pub seen_key : Bool
  pub overlapped_bytes : ℕ
  pub level_ptrs : List ℕ

unfoldable pub new_compaction : ℕ → Levels → Compaction
new_compaction level input_levels = record {
  level = level;
  max_output_file_size = target_file_size;
  input_levels = input_levels;
  inputs = [];
  other_inputs = [];
  grandparents = [];
  grandparent_index = 0;
  seen_key = false;
  overlapped_bytes = 0;
  level_ptrs = replicate num_levels 0;
}

pub is_trivial_move : Compaction → Bool
is_trivial_move c =
    length c.inputs == 1
    && length c.other_inputs == 0
    && leb (total_file_size c.grandparents) max_grand_parent_overlap_bytes

pub delete_inputs : VersionEdit → ℕ → List FileMetaData → VersionEdit
delete_inputs edit level [] = edit
delete_inputs edit level (f ∷ files) = delete_inputs (delete_file edit level f.number) level files

pub add_input_deletions : Compaction → VersionEdit → VersionEdit
add_input_deletions c edit =
    delete_inputs (delete_inputs edit c.level c.inputs) (c.level + 1) c.other_inputs

module _ (user : Comparator) where
  -- The loop over the files of one level from `level_ptrs_[lvl]` on: whether a file's range holds the
  -- key, and where it stops.
  pub advance : List FileMetaData → Bytes → ℕ → Bool × ℕ
  advance [] user_key ptr = (false, ptr)
  advance (f ∷ files) user_key ptr =
      let rest = advance files user_key (ptr + 1) in
      if is_gt (user.compare_keys user_key (extract_user_key f.largest))
      then rest
      else (not (is_lt (user.compare_keys user_key (extract_user_key f.smallest))), ptr)

  -- The loop over the levels, with their places.
  pub base_levels : Levels → List ℕ → Bytes → Bool × List ℕ
  base_levels [] ptrs user_key = (true, ptrs)
  base_levels (files ∷ levels) [] user_key = (true, [])
  base_levels (files ∷ levels) (ptr ∷ ptrs) user_key =
      let (held, ptr') = advance (drop ptr files) user_key ptr in
      let rest = base_levels levels ptrs user_key in
      if held then (false, ptr' ∷ ptrs) else (rest.0, ptr' ∷ rest.1)

  pub is_base_level_for_key : Compaction → Bytes → Bool × Compaction
  is_base_level_for_key c user_key =
      let first = suc (suc c.level) in
      let answer = base_levels (drop first c.input_levels) (drop first c.level_ptrs) user_key in
      (answer.0, record c { level_ptrs = take first c.level_ptrs ++ answer.1 })

  -- The loop over the grandparents from `grandparent_index_` on: the index and the bytes passed.
  pub pass_grandparents : Bool → List FileMetaData → Bytes → ℕ → ℕ → ℕ × ℕ
  pass_grandparents seen_key [] internal_key index bytes = (index, bytes)
  pass_grandparents seen_key (f ∷ files) internal_key index bytes =
      let rest =
        pass_grandparents seen_key files internal_key (index + 1)
          (if seen_key then bytes + f.file_size else bytes) in
      if is_gt (internal_compare user internal_key f.largest) then rest else (index, bytes)

  pub should_stop_before : Compaction → Bytes → Bool × Compaction
  should_stop_before c internal_key =
      let (index, bytes) =
        pass_grandparents c.seen_key (drop c.grandparent_index c.grandparents) internal_key
          c.grandparent_index c.overlapped_bytes in
      let moved = record c { grandparent_index = index; seen_key = true } in
      if ltb max_grand_parent_overlap_bytes bytes
      then (true, record moved { overlapped_bytes = 0 })
      else (false, record moved { overlapped_bytes = bytes })
