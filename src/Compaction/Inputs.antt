-- ===== src/Compaction/Inputs.antt =====
-- LevelDB/db/version_set.cc: the files that a compaction takes in, from those that it is asked for.
pub mod Range
use leveldb_windows.Base.{
  ℕ, zero, suc, ◌+◌, ◌*◌, Bool, true, false, ◌&&◌, Option, none, some, List, [], ◌∷◌, ◌++◌, Bytes,
  length, take, drop, get_or, ltb, leb, ◌==◌, is_lt, is_gt, if◌then◌else◌,
}
use leveldb_windows.Comparator.{Comparator}
use leveldb_windows.DbFormat.{internal_compare, extract_user_key}
use leveldb_windows.VersionEdit.{FileMetaData, VersionEdit, set_compact_pointer, num_levels}
use leveldb_windows.Version.Inputs.{overlapping_inputs}
use leveldb_windows.Version.Levels.{Levels, level_files, target_file_size, total_file_size}
use leveldb_windows.Compaction.{Compaction, new_compaction}
use leveldb_windows.Coding.{◌>>=◌}

abbrev pub expanded_compaction_byte_size_limit : ℕ
expanded_compaction_byte_size_limit = 25 * target_file_size

abbrev pub max_file_size_for_level : ℕ → ℕ
max_file_size_for_level level = target_file_size

-- `CompactRange` keeps the files up to the one that brings the sum to the limit.
pub up_to_limit : ℕ → ℕ → List FileMetaData → List FileMetaData
up_to_limit limit total [] = []
up_to_limit limit total (f ∷ files) =
    let rest = up_to_limit limit (total + f.file_size) files in
    f ∷ (if leb limit (total + f.file_size) then [] else rest)

-- `compact_pointer_[level] = key`
pub point_at : ℕ → Bytes → List Bytes → List Bytes
point_at level key [] = []
point_at zero key (old ∷ pointers) = key ∷ pointers
point_at (suc level) key (old ∷ pointers) = old ∷ point_at level key pointers

module _ (user : Comparator) where
  -- The loop of `GetRange` behind the first file.
  pub widen_range : Bytes → Bytes → List FileMetaData → Bytes × Bytes
  widen_range smallest largest [] = (smallest, largest)
  widen_range smallest largest (f ∷ inputs) =
      widen_range
        (if is_lt (internal_compare user f.smallest smallest) then f.smallest else smallest)
        (if is_gt (internal_compare user f.largest largest) then f.largest else largest) inputs

  pub get_range : List FileMetaData → Bytes × Bytes
  get_range [] = ([], [])
  get_range (f ∷ inputs) = widen_range f.smallest f.largest inputs

  pub get_range2 : List FileMetaData → List FileMetaData → Bytes × Bytes
  get_range2 inputs1 inputs2 = get_range (inputs1 ++ inputs2)

  -- `GetOverlappingInputs` on a level, between two internal keys.
  pub inputs_between : Levels → ℕ → Bytes × Bytes → Option (List FileMetaData)
  inputs_between levels level (begin', end') =
      overlapping_inputs user level (level_files levels level) (some (extract_user_key begin'))
        (some (extract_user_key end'))

  -- The two lists of files, grown where more files of the level come in without a file more of the
  -- next one. The second search is run before the tests that the source runs it behind.
  pub grow_inputs :
      Levels
      → ℕ
      → List FileMetaData
      → List FileMetaData
      → Option (List FileMetaData × List FileMetaData)
  grow_inputs levels level inputs0 [] = some (inputs0, [])
  grow_inputs levels level inputs0 (g ∷ others) = do
    let inputs1 = g ∷ others
    expanded0 ← inputs_between levels level (get_range2 inputs0 inputs1)
    expanded1 ← inputs_between levels (level + 1) (get_range expanded0)
    some (
        if (ltb (length inputs0) (length expanded0)
            && ltb (total_file_size inputs1 + total_file_size expanded0)
                expanded_compaction_byte_size_limit)
          && length expanded1 == length inputs1
        then (expanded0, expanded1)
        else (inputs0, inputs1))

  -- The levels are those of the current version; the edit is the compaction's, and the pointers are
  -- those of the version set.
  pub setup_other_inputs :
      Compaction → VersionEdit → List Bytes → Option (Compaction × VersionEdit × List Bytes)
  setup_other_inputs c edit pointers = do
    let levels = c.input_levels
    inputs1 ← inputs_between levels (c.level + 1) (get_range c.inputs)
    (grown0, grown1) ← grow_inputs levels c.level c.inputs inputs1
    let all = get_range2 grown0 grown1
    let largest = (get_range grown0).1
    grandparents ←
        (if ltb (c.level + 2) num_levels then inputs_between levels (c.level + 2) all else some [])
    some (
      record c { inputs = grown0; other_inputs = grown1; grandparents = grandparents },
      set_compact_pointer edit c.level largest,
      point_at c.level largest pointers,
    )

  -- A new compaction of the level from the files.
  pub start_compaction :
      Levels
      → VersionEdit
      → List Bytes
      → ℕ
      → List FileMetaData
      → Option (Option (Compaction × VersionEdit × List Bytes))
  start_compaction levels edit pointers level inputs = do
    ready ←
        setup_other_inputs (record (new_compaction level levels) { inputs = inputs }) edit pointers
    some (some ready)

  -- `CompactRange`; the inner `none` is NULL. The edit is the new compaction's own.
  pub compact_range :
      Levels
      → VersionEdit
      → List Bytes
      → ℕ
      → Option Bytes
      → Option Bytes
      → Option (Option (Compaction × VersionEdit × List Bytes))
  compact_range levels edit pointers level begin end = do
    inputs ← overlapping_inputs user level (level_files levels level) begin end
    let kept = if ltb 0 level then up_to_limit (max_file_size_for_level level) 0 inputs else inputs
    let started = start_compaction levels edit pointers level kept
    (if length inputs == 0 then some none else started)

  -- The first file behind the place where the level's last compaction ended, or the first file.
  pub file_behind : Bytes → List FileMetaData → List FileMetaData
  file_behind pointer [] = []
  file_behind pointer (f ∷ files) =
      let rest = file_behind pointer files in
      if length pointer == 0
      then f ∷ []
      else if is_gt (internal_compare user f.largest pointer)
      then f ∷ []
      else rest

  pub file_to_start : Bytes → List FileMetaData → List FileMetaData
  file_to_start pointer files = elim (file_behind pointer files) [
    | [] ↦ take 1 files
    | ◌∷◌ f rest ↦ f ∷ rest
  ]

  -- In level 0 all the files that overlap come in.
  pub with_overlaps : Levels → ℕ → List FileMetaData → Option (List FileMetaData)
  with_overlaps levels zero inputs = inputs_between levels 0 (get_range inputs)
  with_overlaps levels (suc level) inputs = some inputs

  -- `PickCompaction`: `due` is the level whose score is at least 1, the inner `none` is NULL.
  pub pick_compaction :
      Levels
      → Option ℕ
      → Option (ℕ × FileMetaData)
      → VersionEdit
      → List Bytes
      → Option (Option (Compaction × VersionEdit × List Bytes))
  pick_compaction levels (some level) file_to_compact edit pointers = do
    let picked = file_to_start (get_or pointers level []) (level_files levels level)
    inputs ← with_overlaps levels level picked
    start_compaction levels edit pointers level inputs
  pick_compaction levels none (some (level, f)) edit pointers = do
    inputs ← with_overlaps levels level (f ∷ [])
    start_compaction levels edit pointers level inputs
  pick_compaction levels none none edit pointers = some none
