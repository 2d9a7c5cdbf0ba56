-- ===== src/VersionBuilder/Invariant.antt =====
-- LevelDB/db/version_set.cc, VersionSet::Builder: the order of the added files and of the saved
-- ones.
use leveldb_windows.Base.{
  ℕ, zero, suc, ◌≡◌, refl, List, [], ◌∷◌, Bytes, All, get_or, set, Bool-cases, inl, inr,
}
use leveldb_windows.Comparator.{Comparator, IsOrder}
use leveldb_windows.VersionEdit.{FileMetaData, VersionEdit}
use leveldb_windows.Version.Levels.{Levels}
use leveldb_windows.VersionBuilder.{
  LevelState, no_changes, Builder, new_builder, change_level, apply_pointers, apply_deleted,
  added_file, by_smallest_key, insert_file, add_to_level, apply_new_files, apply, save_level,
  save_levels, save_to,
}
use leveldb_windows.VersionBuilder.Order.{NotAfter, IsSorted, before_is_NotAfter, All-NotAfter}
use leveldb_windows.VersionBuilder.Saved.{merged, save_loop-merged}
use leveldb_windows.VersionBuilder.Sorted.{All-insert_file, kept-IsSorted, merged-IsSorted}

module _ {ℓ κ} {A : Type ℓ} (P : A → Type κ) where
  All-set : (xs : List A) (i : ℕ) (v : A) → All P xs → P v → All P (set xs i v)
  All-set [] i v h p = tt
  All-set (x ∷ xs) zero v h p = (p, h.1)
  All-set (x ∷ xs) (suc i) v h p = (h.0, All-set xs i v h.1 p)

  All-get_or : (xs : List A) (i : ℕ) (d : A) → All P xs → P d → P (get_or xs i d)
  All-get_or [] i d h p = p
  All-get_or (x ∷ xs) zero d h p = h.0
  All-get_or (x ∷ xs) (suc i) d h p = All-get_or xs i d h.1 p

module _ (user : Comparator) where
  abbrev Added : LevelState → Type 0
  Added l = IsSorted user l.added_files

  -- The added files of every level are in order.
  abbrev pub InOrder : Builder → Type 0
  InOrder b = All Added b.levels

  -- The edits, applied one after the other.
  pub apply_all : Builder → List VersionEdit → Builder
  apply_all b [] = b
  apply_all b (edit ∷ edits) = apply_all (apply user b edit) edits

  change_level-InOrder :
      (b : Builder) (level : ℕ) (change : LevelState → LevelState)
      → ((l : LevelState) → Added l → Added (change l))
      → InOrder b
      → InOrder (change_level b level change)
  change_level-InOrder b level change keeps v =
      All-set Added b.levels level _ v
        (keeps (get_or b.levels level no_changes) (All-get_or Added b.levels level no_changes v tt))

  apply_pointers-levels :
      (pointers : List (ℕ × Bytes)) (b : Builder) → (apply_pointers pointers b).levels ≡ b.levels
  unfolding apply_pointers
  apply_pointers-levels [] b = refl
  apply_pointers-levels ((level, key) ∷ pointers) b =
      apply_pointers-levels pointers
        (record b { compact_pointer = set b.compact_pointer level key })

  apply_deleted-InOrder :
      (deleted : List (ℕ × ℕ)) (b : Builder) → InOrder b → InOrder (apply_deleted deleted b)
  unfolding apply_deleted
  apply_deleted-InOrder [] b v = v
  apply_deleted-InOrder ((level, number) ∷ deleted) b v =
      apply_deleted-InOrder deleted
        (change_level b level (λ l. record l { deleted_files = number ∷ l.deleted_files }))
        (change_level-InOrder b level (λ l. record l { deleted_files = number ∷ l.deleted_files })
          (λ l s. s) v)

module _ (user : Comparator) (order : IsOrder user) where
  insert_file-IsSorted :
      (f : FileMetaData) (files : List FileMetaData)
      → IsSorted user files
      → IsSorted user (insert_file user f files)
  unfolding insert_file
  insert_file-IsSorted f [] s = (tt, tt)
  insert_file-IsSorted f (g ∷ files) s = elim (Bool-cases (by_smallest_key user f g)) [
    | inl before ↦
        let first = before_is_NotAfter user order f g before in
        rw before ((first, All-NotAfter user order f g files first s.0), s)
    | inr behind ↦ rw behind (elim (Bool-cases (by_smallest_key user g f)) [
      | inl after ↦ rw after (
        All-insert_file (NotAfter user g) user f files (before_is_NotAfter user order g f after)
            s.0,
        insert_file-IsSorted f files s.1,
      )
      | inr equal ↦ rw equal s
    ])
  ]

  apply_new_files-InOrder :
      (files : List (ℕ × FileMetaData)) (b : Builder)
      → InOrder user b
      → InOrder user (apply_new_files user files b)
  unfolding apply_new_files
  apply_new_files-InOrder [] b v = v
  apply_new_files-InOrder ((level, f) ∷ files) b v =
      apply_new_files-InOrder files (change_level b level (add_to_level user f)) (
        change_level-InOrder user b level (add_to_level user f)
          (λ l s. insert_file-IsSorted (added_file f) l.added_files s) v)

  apply-InOrder :
      (b : Builder) (edit : VersionEdit) → InOrder user b → InOrder user (apply user b edit)
  unfolding apply
  apply-InOrder b edit v =
      let pointed = apply_pointers edit.compact_pointers b in
      apply_new_files-InOrder edit.new_files (apply_deleted edit.deleted_files pointed) (
        apply_deleted-InOrder user edit.deleted_files pointed
          (rw (apply_pointers-levels user edit.compact_pointers b) v))

  apply_all-InOrder :
      (b : Builder) (edits : List VersionEdit)
      → InOrder user b
      → InOrder user (apply_all user b edits)
  unfolding apply_all
  apply_all-InOrder b [] v = v
  apply_all-InOrder b (edit ∷ edits) v =
      apply_all-InOrder (apply user b edit) edits (apply-InOrder b edit v)

  save_level-IsSorted :
      (l : LevelState) (base : List FileMetaData)
      → IsSorted user l.added_files
      → IsSorted user base
      → IsSorted user (save_level user l base)
  unfolding save_level
  save_level-IsSorted l base p q =
      rw (save_loop-merged user l.deleted_files l.added_files base []) (
        kept-IsSorted user l.deleted_files (merged user l.added_files base)
          (merged-IsSorted user order l.added_files base p q))

  save_levels-IsSorted :
      (levels : List LevelState) (base : Levels)
      → All (Added user) levels
      → All (IsSorted user) base
      → All (IsSorted user) (save_levels user levels base)
  unfolding save_levels
  save_levels-IsSorted [] base p q = tt
  save_levels-IsSorted (l ∷ levels) [] p q =
      (save_level-IsSorted l [] p.0 tt, save_levels-IsSorted levels [] p.1 tt)
  save_levels-IsSorted (l ∷ levels) (files ∷ base) p q =
      (save_level-IsSorted l files p.0 q.0, save_levels-IsSorted levels base p.1 q.1)

  -- Whatever edits a new builder applies to a version with the files of every level in order, the
  -- files that it saves are in order in every level: by smallest key, and by number where two keys are
  -- equal.
  pub save_to-IsSorted :
      (pointers : List Bytes) (edits : List VersionEdit) (base : Levels)
      → All (IsSorted user) base
      → All (IsSorted user) (save_to user (apply_all user (new_builder pointers) edits) base)
  unfolding save_to new_builder
  save_to-IsSorted pointers edits base sorted =
      save_levels-IsSorted _ base
        (apply_all-InOrder (new_builder pointers) edits
          (tt, (tt, (tt, (tt, (tt, (tt, (tt, tt))))))))
        sorted
