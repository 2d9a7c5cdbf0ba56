-- ===== src/Memenv/FileSystem/Names.antt =====
-- What the names of an environment mean after an operation.
use leveldb_windows.Base.{
  ℕ, ◌≡◌, refl, ◌∙◌, ap, arith, true, [], ◌∷◌, none, some, Bytes, if◌then◌else◌, Bool-cases,
  Option-cases, inl, inr,
}
use leveldb_windows.Slice.{slice_eq}
use leveldb_windows.Slice.Lex.{slice_eq_iff}
use leveldb_windows.Memenv.FileSystem.{
  FileMap, find_name, erase_name, place_name, assign_name, InMemoryEnv, exists_name,
  delete_file_internal, file_exists, move_name, rename_file,
}

same_name : (a b c : Bytes) → slice_eq a b ≡ true → slice_eq a c ≡ slice_eq b c
same_name a b c h = ap (λ n. slice_eq n c) ((slice_eq_iff a b).0 h)

name_self : (a : Bytes) → slice_eq a a ≡ true
name_self a = (slice_eq_iff a a).1 refl

name_flip : (a b : Bytes) → slice_eq a b ≡ slice_eq b a
name_flip a b = ground (arith, slice_eq_iff a b, slice_eq_iff b a)

find_name-erase_name :
    (m : FileMap) (name j : Bytes)
    → find_name (erase_name m name) j ≡ (if slice_eq name j then none else find_name m j)
unfolding find_name erase_name
find_name-erase_name [] name j = ground arith
find_name-erase_name ((n, file) ∷ m) name j =
    ground (
      arith,
      same_name n name j,
      same_name n j name,
      name_flip j name,
      find_name-erase_name m name j,
    )

find_name-place_name :
    (m : FileMap) (name j : Bytes) (file : ℕ)
    → find_name m name ≡ none
    → find_name (place_name m name file) j ≡ (if slice_eq name j then some file else find_name m j)
unfolding find_name place_name
find_name-place_name [] name j file h = refl
find_name-place_name ((n, f) ∷ m) name j file h = ground (
  arith,
  name_flip n name,
  same_name name n j,
  same_name name j n,
  same_name n j name,
  name_flip j n,
  name_flip j name,
  find_name-place_name m name j file,
)

find_name-assign_name :
    (m : FileMap) (name j : Bytes) (file : ℕ)
    → find_name (assign_name m name file) j ≡ (if slice_eq name j then some file else find_name m j)
unfolding assign_name
find_name-assign_name m name j file = ground (
  arith,
  find_name-place_name (erase_name m name) name j file,
  find_name-erase_name m name name,
  find_name-erase_name m name j,
  name_self name,
)

-- A move between two names, on the map that the deletion of the target leaves.
find_name-move_name :
    (m : FileMap) (src target name : Bytes) (file : ℕ)
    → find_name m src ≡ some file
    → find_name (move_name (erase_name m target) src target) name ≡ (
        if slice_eq src name
        then none
        else if slice_eq target name
        then some file
        else find_name m name)
unfolding move_name
find_name-move_name m src target name file h =
    let cleared = erase_name m target in
    elim (Bool-cases (slice_eq target src)) [
      | inl one ↦
          let gone : find_name cleared src ≡ none = rw (find_name-erase_name, one) in
          rw
            (
              gone,
              move_name,
              find_name-erase_name cleared src name,
              find_name-erase_name m target name,
            )
            (ground (arith, same_name target src name))
      | inr two ↦
          let kept : find_name cleared src ≡ some file = rw (find_name-erase_name, two) h in
          rw
            (
              kept,
              move_name,
              find_name-erase_name (assign_name cleared target file) src name,
              find_name-assign_name cleared target name file,
              find_name-erase_name m target name,
            )
            (ground arith)
    ]

-- After a rename the source's name is gone, the target's is the file that the source's was, and
-- every other name is what it was. Where the two names are one, the name is gone.
pub find_name-rename_file :
    (env : InMemoryEnv) (src target name : Bytes)
    → file_exists env src ≡ true
    → find_name (rename_file env src target).1.file_map name ≡ (
        if slice_eq src name
        then none
        else if slice_eq target name
        then find_name env.file_map src
        else find_name env.file_map name)
unfolding rename_file file_exists delete_file_internal exists_name
find_name-rename_file env src target name h = elim (Option-cases (find_name env.file_map src)) [
  | inl missing ↦ absurd (cc (rw (missing, exists_name) at h))
  | inr (file, found) ↦
      rw h (find_name-move_name env.file_map src target name file found ∙ rw found refl)
]
