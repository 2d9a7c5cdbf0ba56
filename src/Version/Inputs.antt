-- ===== src/Version/Inputs.antt =====
-- LevelDB/db/version_set.cc, Version::GetOverlappingInputs: the files of a level that meet a range of
-- keys. In level 0 a file that reaches beyond the range widens it, and the search starts again.
pub mod Closed
use leveldb_windows.Base.{
  ℕ, zero, suc, ◌+◌, ◌*◌, Bool, true, false, ◌&&◌, ◌||◌, Option, none, some, List, [], ◌∷◌, ◌++◌,
  Bytes, length, is_lt, is_gt, if◌then◌else◌, ◌==◌,
}
use leveldb_windows.Comparator.{Comparator}
use leveldb_windows.DbFormat.{extract_user_key}
use leveldb_windows.VersionEdit.{FileMetaData}

-- A pass over the files ends, or stops where the range has widened to the two bounds.
pub data Pass : Type 0 where
  finished : List FileMetaData → Pass
  widened : Option Bytes → Option Bytes → Pass

abbrev pub file_start : FileMetaData → Bytes
file_start f = extract_user_key f.smallest

abbrev pub file_limit : FileMetaData → Bytes
file_limit f = extract_user_key f.largest

module _ (user : Comparator) where
  -- `begin != NULL && user_cmp->Compare(key, user_begin) < 0`
  abbrev pub is_below : Option Bytes → Bytes → Bool
  is_below none key = false
  is_below (some user_begin) key = is_lt (user.compare_keys key user_begin)

  -- `end != NULL && user_cmp->Compare(key, user_end) > 0`
  abbrev pub is_above : Option Bytes → Bytes → Bool
  is_above none key = false
  is_above (some user_end) key = is_gt (user.compare_keys key user_end)

  -- The pass, on the files from `i` on and with what `*inputs` holds.
  pub pass_over : Bool → Option Bytes → Option Bytes → List FileMetaData → List FileMetaData → Pass
  pass_over level_zero begin end inputs [] = finished inputs
  pass_over level_zero begin end inputs (f ∷ files) =
      let skipped = pass_over level_zero begin end inputs files in
      let pushed = pass_over level_zero begin end (inputs ++ (f ∷ [])) files in
      if is_below begin (file_limit f)
      then skipped
      else if is_above end (file_start f)
      then skipped
      else if level_zero && is_below begin (file_start f)
      then widened (some (file_start f)) end
      else if level_zero && is_above end (file_limit f)
      then widened begin (some (file_limit f))
      else pushed

  -- The passes, on fuel for their number; `none` is fuel that ran out.
  pub passes :
      ℕ → Bool → List FileMetaData → Option Bytes → Option Bytes → Option (List FileMetaData)
  passes zero level_zero files begin end = none
  passes (suc fuel) level_zero files begin end = elim (pass_over level_zero begin end [] files) [
    | finished inputs ↦ some inputs
    | widened begin' end' ↦ passes fuel level_zero files begin' end'
  ]

  -- Each widening brings a bound of a file into the range.
  pub overlapping_inputs :
      ℕ → List FileMetaData → Option Bytes → Option Bytes → Option (List FileMetaData)
  overlapping_inputs level files begin end =
      passes (suc (length files + length files)) (level == 0) files begin end
