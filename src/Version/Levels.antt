-- ===== src/Version/Levels.antt =====
-- LevelDB/db/version_set.cc: the level that the output of a memtable goes to.
pub mod Pick
use leveldb_windows.Base.{
  ℕ, zero, suc, ◌+◌, ◌-◌, ◌*◌, ◌^◌, Bool, true, false, Option, none, some, List, [], ◌∷◌, ◌++◌,
  Bytes, length, get_or, ltb, if◌then◌else◌,
}
use leveldb_windows.Comparator.{Comparator}
use leveldb_windows.DbFormat.{extract_user_key}
use leveldb_windows.VersionEdit.{FileMetaData, num_levels}
use leveldb_windows.Version.{some_file_overlaps_range}
use leveldb_windows.Version.Inputs.{overlapping_inputs}

abbrev pub target_file_size : ℕ
target_file_size = 2 * 1048576

abbrev pub max_grand_parent_overlap_bytes : ℕ
max_grand_parent_overlap_bytes = 10 * target_file_size

-- `config::kMaxMemCompactLevel`
abbrev pub max_mem_compact_level : ℕ
max_mem_compact_level = 2

-- The sum does not pass 2^63.
pub total_file_size : List FileMetaData → ℕ
total_file_size [] = 0
total_file_size (f ∷ files) = f.file_size + total_file_size files

-- `files_`, with an empty level past the last one.
abbrev pub Levels : Type 0
Levels = List (List FileMetaData)

abbrev pub level_files : Levels → ℕ → List FileMetaData
level_files levels level = get_or levels level []

module _ (user : Comparator) where
  pub overlap_in_level : Levels → ℕ → Option Bytes → Option Bytes → Bool
  overlap_in_level levels level smallest largest =
      some_file_overlaps_range user (ltb 0 level) (level_files levels level) smallest largest

  -- Whether the overlap with the files two levels further down is too great; `begin` and `end` of the
  -- source are internal keys with the two user keys.
  pub too_many_bytes : Levels → ℕ → Bytes → Bytes → Option Bool
  too_many_bytes levels level smallest largest =
      elim (overlapping_inputs user (level + 2) (level_files levels (level + 2)) (some smallest)
        (some largest)) [
          | none ↦ none
          | some overlaps ↦ some (ltb max_grand_parent_overlap_bytes (total_file_size overlaps))
        ]

  -- The loop, on the rounds that `kMaxMemCompactLevel` leaves; `none` is a search that does not end.
  pub push_down : ℕ → Levels → ℕ → Bytes → Bytes → Option ℕ
  push_down zero levels level smallest largest = some level
  push_down (suc rounds) levels level smallest largest =
      let next = push_down rounds levels (level + 1) smallest largest in
      let heavy : Option ℕ = elim (too_many_bytes levels level smallest largest) [
        | none ↦ none
        | some b ↦ if b then some level else next
      ] in
      if overlap_in_level levels (level + 1) (some smallest) (some largest)
      then some level
      else (if ltb (level + 2) num_levels then heavy else next)

  pub pick_level_for_mem_table_output : Levels → Bytes → Bytes → Option ℕ
  pick_level_for_mem_table_output levels smallest largest =
      let pushed = push_down max_mem_compact_level levels 0 smallest largest in
      if overlap_in_level levels 0 (some smallest) (some largest) then some 0 else pushed
