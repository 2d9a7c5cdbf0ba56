-- ===== src/VersionBuilder/Sorted.antt =====
-- LevelDB/db/version_set.cc, VersionSet::Builder::SaveTo: the order of the files of a saved level.
use leveldb_windows.Base.{ℕ, ◌+◌, List, [], ◌∷◌, ◌++◌, All, All-append, Bool-cases, inl, inr}
use leveldb_windows.Comparator.{Comparator, IsOrder}
use leveldb_windows.VersionEdit.{FileMetaData}
use leveldb_windows.VersionBuilder.{has_number, by_smallest_key, insert_file, up_to, beyond}
use leveldb_windows.VersionBuilder.Order.{NotAfter, IsSorted, before_is_NotAfter, All-NotAfter}
use leveldb_windows.VersionBuilder.Saved.{kept, merged, All-up_to, All-beyond}

module _ (P : FileMetaData → Type 0) (user : Comparator) where
  All-merged :
      (added base : List FileMetaData) → All P added → All P base → All P (merged user added base)
  unfolding merged
  All-merged [] base h k = k
  All-merged (a ∷ added) base h k =
      All-append P (up_to user a base) (a ∷ merged user added (beyond user a base))
        (All-up_to P user a base k)
        (h.0, All-merged added (beyond user a base) h.1 (All-beyond P user a base k))

  pub All-insert_file :
      (f : FileMetaData) (files : List FileMetaData)
      → P f
      → All P files
      → All P (insert_file user f files)
  unfolding insert_file
  All-insert_file f [] p h = (p, tt)
  All-insert_file f (g ∷ files) p h = elim (Bool-cases (by_smallest_key user f g)) [
    | inl before ↦ rw before (p, h)
    | inr behind ↦ rw behind (elim (Bool-cases (by_smallest_key user g f)) [
      | inl after ↦ rw after (h.0, All-insert_file f files p h.1)
      | inr equal ↦ rw equal h
    ])
  ]

module _ (user : Comparator) where
  IsSorted-append :
      (xs ys : List FileMetaData)
      → IsSorted user xs
      → IsSorted user ys
      → All (λ x. All (NotAfter user x) ys) xs
      → IsSorted user (xs ++ ys)
  IsSorted-append [] ys p q h = q
  IsSorted-append (x ∷ xs) ys p q h =
      (All-append (NotAfter user x) xs ys p.0 h.0, IsSorted-append xs ys p.1 q h.1)

  up_to-NotAfter :
      (a : FileMetaData) (base : List FileMetaData)
      → All (λ f. NotAfter user f a) (up_to user a base)
  unfolding up_to
  up_to-NotAfter a [] = tt
  up_to-NotAfter a (f ∷ base) = elim (Bool-cases (by_smallest_key user a f)) [
    | inl before ↦ rw before tt
    | inr behind ↦ rw behind (behind, up_to-NotAfter a base)
  ]

  up_to-IsSorted :
      (a : FileMetaData) (base : List FileMetaData)
      → IsSorted user base
      → IsSorted user (up_to user a base)
  unfolding up_to
  up_to-IsSorted a [] s = tt
  up_to-IsSorted a (f ∷ base) s = elim (Bool-cases (by_smallest_key user a f)) [
    | inl before ↦ rw before tt
    | inr behind ↦
        rw behind (All-up_to (NotAfter user f) user a base s.0, up_to-IsSorted a base s.1)
  ]

  beyond-IsSorted :
      (a : FileMetaData) (base : List FileMetaData)
      → IsSorted user base
      → IsSorted user (beyond user a base)
  unfolding beyond
  beyond-IsSorted a [] s = tt
  beyond-IsSorted a (f ∷ base) s = elim (Bool-cases (by_smallest_key user a f)) [
    | inl before ↦ rw before s
    | inr behind ↦ rw behind (beyond-IsSorted a base s.1)
  ]

  All-kept :
      (f : FileMetaData) (deleted : List ℕ) (files : List FileMetaData)
      → All (NotAfter user f) files
      → All (NotAfter user (record f { refs = f.refs + 1 })) (kept deleted files)
  unfolding kept by_smallest_key
  All-kept f deleted [] h = tt
  All-kept f deleted (g ∷ files) h = elim (Bool-cases (has_number deleted g.number)) [
    | inl gone ↦ rw gone (All-kept f deleted files h.1)
    | inr stays ↦ rw stays (h.0, All-kept f deleted files h.1)
  ]

  pub kept-IsSorted :
      (deleted : List ℕ) (files : List FileMetaData)
      → IsSorted user files
      → IsSorted user (kept deleted files)
  unfolding kept
  kept-IsSorted deleted [] s = tt
  kept-IsSorted deleted (f ∷ files) s = elim (Bool-cases (has_number deleted f.number)) [
    | inl gone ↦ rw gone (kept-IsSorted deleted files s.1)
    | inr stays ↦ rw stays (All-kept f deleted files s.0, kept-IsSorted deleted files s.1)
  ]

module _ (user : Comparator) (order : IsOrder user) where
  beyond-NotAfter :
      (a : FileMetaData) (base : List FileMetaData)
      → IsSorted user base
      → All (NotAfter user a) (beyond user a base)
  unfolding beyond
  beyond-NotAfter a [] s = tt
  beyond-NotAfter a (f ∷ base) s = elim (Bool-cases (by_smallest_key user a f)) [
    | inl before ↦
        let first = before_is_NotAfter user order a f before in
        rw before (first, All-NotAfter user order a f base first s.0)
    | inr behind ↦ rw behind (beyond-NotAfter a base s.1)
  ]

  below_all :
      (a : FileMetaData) (xs ys : List FileMetaData)
      → All (λ f. NotAfter user f a) xs
      → All (NotAfter user a) ys
      → All (λ f. All (NotAfter user f) (a ∷ ys)) xs
  below_all a [] ys h k = tt
  below_all a (f ∷ xs) ys h k =
      ((h.0, All-NotAfter user order f a ys h.0 k), below_all a xs ys h.1 k)

  pub merged-IsSorted :
      (added base : List FileMetaData)
      → IsSorted user added
      → IsSorted user base
      → IsSorted user (merged user added base)
  unfolding merged
  merged-IsSorted [] base p q = q
  merged-IsSorted (a ∷ added) base p q =
      let rest = merged user added (beyond user a base) in
      let behind =
        All-merged (NotAfter user a) user added (beyond user a base) p.0
          (beyond-NotAfter a base q) in
      IsSorted-append user (up_to user a base) (a ∷ rest) (up_to-IsSorted user a base q)
        (behind, merged-IsSorted added (beyond user a base) p.1 (beyond-IsSorted user a base q))
        (below_all a (up_to user a base) rest (up_to-NotAfter user a base) behind)
