-- ===== src/Version/Runs.antt =====
-- The searches of a version at concrete files.
use leveldb_windows.Base.{
  ℕ, ◌≤◌, ◌≡◌, ◌⊎◌, refl, arith, true, false, Option, none, some, List, [], ◌∷◌, Bytes, All,
}
use leveldb_windows.Comparator.{Comparator, bytewise_comparator}
use leveldb_windows.Comparator.Shorten.{bytewise-IsOrder}
use leveldb_windows.Slice.{slice_compare}
use leveldb_windows.Coding.{encode_fixed64}
use leveldb_windows.DbFormat.{ParsedInternalKey, type_value, internal_compare, extract_user_key}
use leveldb_windows.DbFormat.Keys.{internal_key}
use leveldb_windows.VersionEdit.{FileMetaData, new_file}
use leveldb_windows.Version.{find_file, some_file_overlaps_range}
use leveldb_windows.Version.FindFile.{first_reaching, find_file-eq}
use leveldb_windows.Version.Overlap.{
  HasKeys, IsDisjoint, IsDisjoint-Ascends, some_file_overlaps_range_eq,
}
use leveldb_windows.Version.Inputs.{overlapping_inputs}
use leveldb_windows.Version.Inputs.Closed.{meeting, Inside, Wider, overlapping_inputs_closed}
use leveldb_windows.Version.Levels.{
  Levels, level_files, pick_level_for_mem_table_output, max_mem_compact_level,
}
use leveldb_windows.Version.Levels.Pick.{Misses, down_from, pick_level_for_mem_table_output_lem}
use leveldb_windows.Version.Get.{candidate_above}
use leveldb_windows.Version.Get.Candidates.{candidate_above-eq}
use Prim.Native.Nat.{lt, gt}

abbrev user : Comparator
user = bytewise_comparator

abbrev key : Bytes → ℕ → ParsedInternalKey
key u n = record { user_key = u; sequence = n; type = type_value }

abbrev file : ℕ → ParsedInternalKey → ParsedInternalKey → FileMetaData
file number first last = new_file number 1000 (internal_key first) (internal_key last)

abbrev early : FileMetaData
early = file 5 (key (b'a' ∷ []) 9) (key (b'c' ∷ []) 8)

abbrev late : FileMetaData
late = file 7 (key (b'f' ∷ []) 3) (key (b'k' ∷ []) 4)

abbrev files : List FileMetaData
files = early ∷ late ∷ []

files-HasKeys : All HasKeys files
files-HasKeys = (
  record { last = key (b'c' ∷ []) 8; last_bytes = refl; last_number = omega arith },
  (record { last = key (b'k' ∷ []) 4; last_bytes = refl; last_number = omega arith }, tt),
)

early_in_order : internal_compare user early.smallest early.largest ≡ lt
unfolding internal_compare extract_user_key slice_compare encode_fixed64
early_in_order = refl

late_in_order : internal_compare user late.smallest late.largest ≡ lt
unfolding internal_compare extract_user_key slice_compare encode_fixed64
late_in_order = refl

early_before_late : internal_compare user early.largest late.smallest ≡ lt
unfolding internal_compare extract_user_key slice_compare encode_fixed64
early_before_late = refl

files-IsDisjoint : IsDisjoint user files
files-IsDisjoint =
    (λ e. cc (early_in_order, e), (early_before_late, tt), (λ e. cc (late_in_order, e), tt, tt))

find_file-eq_example :
    find_file user files (internal_key (key (b'd' ∷ []) 2))
    ≡ first_reaching user files (internal_key (key (b'd' ∷ []) 2))
find_file-eq_example =
    find_file-eq user bytewise-IsOrder files (internal_key (key (b'd' ∷ []) 2))
      (IsDisjoint-Ascends user bytewise-IsOrder files files-IsDisjoint) (omega arith)

some_file_overlaps_range_eq_example :
    some_file_overlaps_range user true files (some (b'd' ∷ [])) none
    ≡ some_file_overlaps_range user false files (some (b'd' ∷ [])) none
some_file_overlaps_range_eq_example =
    some_file_overlaps_range_eq user bytewise-IsOrder files (some (b'd' ∷ [])) none files-IsDisjoint
      files-HasKeys (omega arith)

-- The second file meets the range and reaches before it, so the search starts again.
abbrev crossing : List FileMetaData
crossing = early ∷ file 8 (key (b'b' ∷ []) 9) (key (b'g' ∷ []) 8) ∷ []

overlapping_inputs_closed_example :
    (begin' : Option Bytes) × ((end' : Option Bytes) × (Wider user begin' end'
          (some (b'd' ∷ []))
          (some (b'e' ∷ []))
        × (overlapping_inputs user 0 crossing (some (b'd' ∷ [])) (some (b'e' ∷ []))
            ≡ some (meeting user begin' end' crossing))
        × All (Inside user begin' end') (meeting user begin' end' crossing)))
overlapping_inputs_closed_example =
    overlapping_inputs_closed user bytewise-IsOrder crossing (some (b'd' ∷ [])) (some (b'e' ∷ []))

late_starts : internal_compare user late.smallest (internal_key (key (b'g' ∷ []) 4)) ≡ lt
unfolding internal_compare extract_user_key slice_compare encode_fixed64
late_starts = refl

late_ends : internal_compare user late.largest (internal_key (key (b'g' ∷ []) 4)) ≡ gt
unfolding internal_compare extract_user_key slice_compare encode_fixed64
late_ends = refl

candidate_above-eq_example :
    candidate_above user files
      (extract_user_key (internal_key (key (b'g' ∷ []) 4)))
      (internal_key (key (b'g' ∷ []) 4))
    ≡ late ∷ []
candidate_above-eq_example =
    candidate_above-eq user bytewise-IsOrder files 1 (internal_key (key (b'g' ∷ []) 4))
      files-IsDisjoint (omega arith) (omega arith) (λ e. cc (late_starts, e))
      (λ e. cc (late_ends, e))

abbrev levels : Levels
levels = [] ∷ [] ∷ files ∷ []

pick_level_for_mem_table_output_lem_example :
    (level : ℕ) × ((pick_level_for_mem_table_output user levels (b'd' ∷ []) (b'e' ∷ [])
        ≡ some level)
      × (level ≤ max_mem_compact_level)
      × ((level ≡ 0)
          ⊎ All
              (λ l. All (Misses user (b'd' ∷ []) (b'e' ∷ [])) (level_files levels l))
              (down_from level)))
pick_level_for_mem_table_output_lem_example =
    pick_level_for_mem_table_output_lem user bytewise-IsOrder levels (b'd' ∷ []) (b'e' ∷ [])
      ((tt, tt, omega arith), ((files-IsDisjoint, files-HasKeys, omega arith), tt))
