-- ===== src/VersionBuilder/Saved.antt =====
-- LevelDB/db/version_set.cc, VersionSet::Builder::SaveTo: the files of a level that are saved.
use leveldb_windows.Base.{
  ℕ, ◌+◌, ◌≡◌, refl, sym, ap, ◌∙◌, List, [], ◌∷◌, ◌++◌, append-nil, append_assoc, All,
  if◌then◌else◌, Bool-cases, inl, inr,
}
use leveldb_windows.Comparator.{Comparator}
use leveldb_windows.VersionEdit.{FileMetaData}
use leveldb_windows.VersionBuilder.{
  has_number, maybe_add_file, add_all, by_smallest_key, up_to, beyond, save_loop,
}

-- The files that are not deleted, with a reference more.
unfoldable pub kept : List ℕ → List FileMetaData → List FileMetaData
kept deleted [] = []
kept deleted (f ∷ files) =
    let rest = kept deleted files in
    if has_number deleted f.number then rest else record f { refs = f.refs + 1 } ∷ rest

kept-append :
    (deleted : List ℕ) (xs ys : List FileMetaData)
    → kept deleted (xs ++ ys) ≡ kept deleted xs ++ kept deleted ys
unfolding kept
kept-append deleted [] ys = refl
kept-append deleted (f ∷ xs) ys = elim (Bool-cases (has_number deleted f.number)) [
  | inl gone ↦ rw gone (kept-append deleted xs ys)
  | inr stays ↦ rw (stays, kept-append deleted xs ys)
]

maybe_add_file-kept :
    (deleted : List ℕ) (f : FileMetaData) (files : List FileMetaData)
    → maybe_add_file deleted f files ≡ files ++ kept deleted (f ∷ [])
unfolding kept maybe_add_file
maybe_add_file-kept deleted f files = elim (Bool-cases (has_number deleted f.number)) [
  | inl gone ↦ rw gone (sym (append-nil files))
  | inr stays ↦ rw stays refl
]

add_all-kept :
    (deleted : List ℕ) (rest files : List FileMetaData)
    → add_all deleted rest files ≡ files ++ kept deleted rest
unfolding add_all
add_all-kept deleted [] files = unfold kept in sym (append-nil files)
add_all-kept deleted (f ∷ rest) files =
    add_all-kept deleted rest (maybe_add_file deleted f files)
    ∙ rw maybe_add_file-kept (
        append_assoc files (kept deleted (f ∷ [])) (kept deleted rest)
        ∙ ap (λ s. files ++ s) (sym (kept-append deleted (f ∷ []) rest)))

module _ (user : Comparator) where
  unfoldable pub merged : List FileMetaData → List FileMetaData → List FileMetaData
  merged [] base = base
  merged (a ∷ added) base = up_to user a base ++ (a ∷ merged added (beyond user a base))

  pub save_loop-merged :
      (deleted : List ℕ) (added base files : List FileMetaData)
      → save_loop user deleted added base files ≡ files ++ kept deleted (merged added base)
  unfolding save_loop merged
  save_loop-merged deleted [] base files = add_all-kept deleted base files
  save_loop-merged deleted (a ∷ added) base files =
      let smaller = up_to user a base in
      let rest = merged added (beyond user a base) in
      save_loop-merged deleted added (beyond user a base)
        (maybe_add_file deleted a (add_all deleted smaller files))
      ∙ rw (maybe_add_file-kept, add_all-kept)
          (simp (
            append_assoc,
            kept-append deleted smaller (a ∷ rest),
            kept-append deleted (a ∷ []) rest,
          ))

module _ {κ} (P : FileMetaData → Type κ) (user : Comparator) (a : FileMetaData) where
  pub All-up_to : (base : List FileMetaData) → All P base → All P (up_to user a base)
  unfolding up_to
  All-up_to [] h = tt
  All-up_to (f ∷ base) h = elim (Bool-cases (by_smallest_key user a f)) [
    | inl before ↦ rw before tt
    | inr behind ↦ rw behind (h.0, All-up_to base h.1)
  ]

  pub All-beyond : (base : List FileMetaData) → All P base → All P (beyond user a base)
  unfolding beyond
  All-beyond [] h = tt
  All-beyond (f ∷ base) h = elim (Bool-cases (by_smallest_key user a f)) [
    | inl before ↦ rw before h
    | inr behind ↦ rw behind (All-beyond base h.1)
  ]
