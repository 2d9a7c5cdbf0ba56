-- ===== src/VersionBuilder.antt =====
-- LevelDB/db/version_set.cc, the class VersionSet::Builder: edits are applied to the files of a
-- version, and the files of the next version are saved. The set of added files of a level is the list
-- of its elements in their order, and the set of deleted files the list of their numbers.
pub mod Order
pub mod Saved
pub mod Sorted
pub mod Invariant
pub mod Members
mod Runs
use leveldb_windows.Base.{
  ℕ, zero, suc, ◌+◌, ◌/◌, ◌%◌, ◌^◌, leb, Bool, true, false, ◌||◌, List, [], ◌∷◌, ◌++◌, Bytes,
  get_or, set, ltb, ◌==◌, if◌then◌else◌, replicate,
}
use leveldb_windows.Comparator.{Comparator}
use leveldb_windows.DbFormat.{internal_compare}
use leveldb_windows.VersionEdit.{FileMetaData, VersionEdit, num_levels}
use leveldb_windows.Version.Levels.{Levels, level_files}
use Prim.Native.Nat.{Ordering}

pub record LevelState : Type 0 where
  pub deleted_files : List ℕ
  pub added_files : List FileMetaData

abbrev pub no_changes : LevelState
no_changes = record { deleted_files = []; added_files = [] }

-- `compact_pointer_` is the version set's.
pub record Builder : Type 0 where
  pub levels : List LevelState
  pub compact_pointer : List Bytes

pub new_builder : List Bytes → Builder
new_builder compact_pointer = record {
  levels = replicate num_levels no_changes;
  compact_pointer = compact_pointer;
}

abbrev pub has_number : List ℕ → ℕ → Bool
has_number [] number = false
has_number (n ∷ numbers) number = n == number || has_number numbers number

pub erase_number : List ℕ → ℕ → List ℕ
erase_number [] number = []
erase_number (n ∷ numbers) number =
    let rest = erase_number numbers number in if n == number then rest else n ∷ rest

-- A change of `levels_[level]`.
abbrev pub change_level : Builder → ℕ → (LevelState → LevelState) → Builder
change_level b level change = record b {
  levels = set b.levels level (change (get_or b.levels level no_changes));
}

pub apply_pointers : List (ℕ × Bytes) → Builder → Builder
apply_pointers [] b = b
apply_pointers ((level, key) ∷ pointers) b =
    apply_pointers pointers (record b { compact_pointer = set b.compact_pointer level key })

pub apply_deleted : List (ℕ × ℕ) → Builder → Builder
apply_deleted [] b = b
apply_deleted ((level, number) ∷ deleted) b =
    apply_deleted deleted
      (change_level b level (λ l. record l { deleted_files = number ∷ l.deleted_files }))

-- One seek for every 16 kB, and 100 at least.
pub allowed_seeks_of : ℕ → ℕ
allowed_seeks_of file_size =
    let seeks = file_size / 16384 % 2 ^ 32 in
    if ltb seeks 100 then 100 else if leb (2 ^ 31) seeks then 100 else seeks

pub added_file : FileMetaData → FileMetaData
added_file f = record f { refs = 1; allowed_seeks = allowed_seeks_of f.file_size }

-- The file is not among the deleted ones.
pub maybe_add_file : List ℕ → FileMetaData → List FileMetaData → List FileMetaData
maybe_add_file deleted f files =
    if has_number deleted f.number then files else files ++ (record f { refs = f.refs + 1 } ∷ [])

pub add_all : List ℕ → List FileMetaData → List FileMetaData → List FileMetaData
add_all deleted [] files = files
add_all deleted (f ∷ rest) files = add_all deleted rest (maybe_add_file deleted f files)

module _ (user : Comparator) where
  -- By smallest key, then by number.
  unfoldable pub by_smallest_key : FileMetaData → FileMetaData → Bool
  by_smallest_key f1 f2 = elim (internal_compare user f1.smallest f2.smallest) [
    | Ordering.lt ↦ true
    | Ordering.eq ↦ ltb f1.number f2.number
    | Ordering.gt ↦ false
  ]

  -- `std::set::insert`, which leaves an equal element as it is.
  pub insert_file : FileMetaData → List FileMetaData → List FileMetaData
  insert_file f [] = f ∷ []
  insert_file f (g ∷ files) =
      let rest = insert_file f files in
      if by_smallest_key f g
      then f ∷ (g ∷ files)
      else (if by_smallest_key g f then g ∷ rest else g ∷ files)

  abbrev pub add_to_level : FileMetaData → LevelState → LevelState
  add_to_level f l = record {
    deleted_files = erase_number l.deleted_files f.number;
    added_files = insert_file (added_file f) l.added_files;
  }

  pub apply_new_files : List (ℕ × FileMetaData) → Builder → Builder
  apply_new_files [] b = b
  apply_new_files ((level, f) ∷ files) b =
      apply_new_files files (change_level b level (add_to_level f))

  pub apply : Builder → VersionEdit → Builder
  apply b edit =
      apply_new_files edit.new_files
        (apply_deleted edit.deleted_files (apply_pointers edit.compact_pointers b))

  -- The elements before and from `std::upper_bound`, on a range in order.
  unfoldable pub up_to : FileMetaData → List FileMetaData → List FileMetaData
  up_to a [] = []
  up_to a (f ∷ base) = let rest = up_to a base in if by_smallest_key a f then [] else f ∷ rest

  unfoldable pub beyond : FileMetaData → List FileMetaData → List FileMetaData
  beyond a [] = []
  beyond a (f ∷ base) = let rest = beyond a base in if by_smallest_key a f then f ∷ base else rest

  -- The merge of one level.
  pub save_loop :
      List ℕ → List FileMetaData → List FileMetaData → List FileMetaData → List FileMetaData
  save_loop deleted [] base files = add_all deleted base files
  save_loop deleted (a ∷ added) base files =
      save_loop deleted added (beyond a base)
        (maybe_add_file deleted a (add_all deleted (up_to a base) files))

  pub save_level : LevelState → List FileMetaData → List FileMetaData
  save_level l base = save_loop l.deleted_files l.added_files base []

  pub save_levels : List LevelState → Levels → Levels
  save_levels [] base = []
  save_levels (l ∷ levels) [] = save_level l [] ∷ save_levels levels []
  save_levels (l ∷ levels) (files ∷ base) = save_level l files ∷ save_levels levels base

  pub save_to : Builder → Levels → Levels
  save_to b base = save_levels b.levels base
