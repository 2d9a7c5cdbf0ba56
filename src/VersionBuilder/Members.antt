-- ===== src/VersionBuilder/Members.antt =====
-- Which files a saved level has.
use leveldb_windows.Base.{
  ℕ, ◌≡◌, refl, ap, arith, Bool, false, not, ◌&&◌, ◌||◌, List, [], ◌∷◌, ◌++◌, Bool-cases, inl, inr,
  ◌==◌,
}
use leveldb_windows.Comparator.{Comparator}
use leveldb_windows.VersionEdit.{FileMetaData}
use leveldb_windows.VersionBuilder.{
  LevelState, has_number, by_smallest_key, up_to, beyond, save_level,
}
use leveldb_windows.VersionBuilder.Saved.{kept, merged, save_loop-merged}

-- Whether a file of the list has the number.
pub has_file : List FileMetaData → ℕ → Bool
has_file [] number = false
has_file (f ∷ files) number = f.number == number || has_file files number

has_file-append :
    (xs ys : List FileMetaData) (number : ℕ)
    → has_file (xs ++ ys) number ≡ (has_file xs number || has_file ys number)
unfolding has_file
has_file-append [] ys number = refl
has_file-append (f ∷ xs) ys number = ground (arith, has_file-append xs ys number)

has_file-kept :
    (deleted : List ℕ) (files : List FileMetaData) (number : ℕ)
    → has_file (kept deleted files) number
      ≡ (not (has_number deleted number) && has_file files number)
unfolding has_file kept
has_file-kept deleted [] number = ground arith
has_file-kept deleted (f ∷ files) number = elim (Bool-cases (f.number == number)) [
  | inl same ↦
      (let e : f.number ≡ number = ground arith in
        elim (Bool-cases (has_number deleted number)) [
          | inl gone ↦ rw (e, gone, has_file-kept deleted files number) (ground arith)
          | inr stays ↦ rw (e, stays) (ground arith)
        ])
  | inr other ↦ elim (Bool-cases (has_number deleted f.number)) [
    | inl gone ↦ rw (gone, other) (has_file-kept deleted files number)
    | inr stays ↦ rw (stays, other) (has_file-kept deleted files number)
  ]
]

module _ (user : Comparator) where
  up_to-beyond :
      (a : FileMetaData) (base : List FileMetaData) → up_to user a base ++ beyond user a base ≡ base
  unfolding up_to beyond
  up_to-beyond a [] = refl
  up_to-beyond a (f ∷ base) = elim (Bool-cases (by_smallest_key user a f)) [
    | inl before ↦ rw before
    | inr behind ↦ rw (behind, up_to-beyond a base)
  ]

  has_file-merged :
      (added base : List FileMetaData) (number : ℕ)
      → has_file (merged user added base) number ≡ (has_file added number || has_file base number)
  unfolding merged has_file
  has_file-merged [] base number = refl
  has_file-merged (a ∷ added) base number = ground (
    arith,
    has_file-append (up_to user a base) (a ∷ merged user added (beyond user a base)) number,
    has_file-merged added (beyond user a base) number,
    has_file-append (up_to user a base) (beyond user a base) number,
    ap (λ files. has_file files number) (up_to-beyond a base),
  )

  -- A saved level has a file of a number exactly when the number is not among the deleted ones and an
  -- added file or a file of the base has it.
  pub has_file-save_level :
      (l : LevelState) (base : List FileMetaData) (number : ℕ)
      → has_file (save_level user l base) number ≡ (
          not (has_number l.deleted_files number)
          && (has_file l.added_files number || has_file base number))
  unfolding save_level
  has_file-save_level l base number =
      rw
        (
          save_loop-merged user l.deleted_files l.added_files base [],
          has_file-kept l.deleted_files (merged user l.added_files base) number,
          has_file-merged l.added_files base number,
        )
        refl
