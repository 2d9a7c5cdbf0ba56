-- ===== src/VersionBuilder/Runs.antt =====
-- The builder at concrete edits.
use leveldb_windows.Base.{ℕ, ◌≡◌, false, not, ◌&&◌, ◌||◌, List, [], ◌∷◌, All}
use leveldb_windows.Comparator.{bytewise_comparator}
use leveldb_windows.Comparator.Shorten.{bytewise-IsOrder}
use leveldb_windows.VersionEdit.{FileMetaData, VersionEdit, new_file, add_file, delete_file}
use leveldb_windows.Version.Levels.{Levels}
use leveldb_windows.VersionBuilder.{LevelState, has_number, new_builder, save_level, save_to}
use leveldb_windows.VersionBuilder.Order.{IsSorted}
use leveldb_windows.VersionBuilder.Invariant.{apply_all, save_to-IsSorted}
use leveldb_windows.VersionBuilder.Members.{has_file, has_file-save_level}

abbrev file : ℕ → ℕ → FileMetaData
file number letter = new_file number 40000 (letter ∷ []) (letter ∷ [])

abbrev no_edit : VersionEdit
no_edit = record {
  comparator = [];
  has_comparator = false;
  log_number = 0;
  has_log_number = false;
  prev_log_number = 0;
  has_prev_log_number = false;
  next_file_number = 0;
  has_next_file_number = false;
  last_sequence = 0;
  has_last_sequence = false;
  compact_pointers = [];
  deleted_files = [];
  new_files = [];
}

-- The second edit deletes a file of the first.
abbrev edits : List VersionEdit
edits =
    add_file (add_file no_edit 1 (file 9 b'x')) 1 (file 8 b'c')
    ∷ delete_file (add_file no_edit 1 (file 10 b'a')) 1 9
    ∷ []

abbrev base : Levels
base = [] ∷ (file 5 b'b' ∷ []) ∷ []

save_to-IsSorted_example :
    All
      (IsSorted bytewise_comparator)
      (save_to bytewise_comparator (apply_all bytewise_comparator (new_builder []) edits) base)
save_to-IsSorted_example =
    save_to-IsSorted bytewise_comparator bytewise-IsOrder [] edits base (tt, ((tt, tt), tt))

abbrev changes : LevelState
changes = record { deleted_files = 5 ∷ []; added_files = file 8 b'c' ∷ [] }

has_file-save_level_example :
    has_file (save_level bytewise_comparator changes (file 5 b'b' ∷ [])) 5 ≡ (
      not (has_number changes.deleted_files 5)
      && (has_file changes.added_files 5 || has_file (file 5 b'b' ∷ []) 5))
has_file-save_level_example = has_file-save_level bytewise_comparator changes (file 5 b'b' ∷ []) 5
