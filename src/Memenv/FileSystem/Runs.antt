-- ===== src/Memenv/FileSystem/Runs.antt =====
-- Files and names in memory at concrete values.
use leveldb_windows.Base.{
  ℕ, ◌≡◌, refl, arith, true, [], ◌∷◌, ◌++◌, inl, inr, none, Bytes, take, drop, replicate,
  length-replicate, ltb, if◌then◌else◌,
}
use leveldb_windows.Slice.{slice_eq}
use leveldb_windows.Status.{io_error}
use leveldb_windows.Memenv.{FileState, new_file_state, append, read}
use leveldb_windows.Memenv.Contents.{contents, IsBlock, IsFile}
use leveldb_windows.Memenv.Append.{contents-append}
use leveldb_windows.Memenv.ReadBack.{read_lem}
use leveldb_windows.Memenv.FileSystem.{
  InMemoryEnv, find_name, exists_name, file_exists, rename_file,
}
use leveldb_windows.Memenv.FileSystem.Names.{find_name-rename_file}

memory : Bytes
memory = replicate 8192 0

memory-IsBlock : IsBlock memory
unfolding memory
memory-IsBlock = length-replicate {A = ℕ} 8192 0

new_file_state-IsFile : IsFile new_file_state
unfolding new_file_state
new_file_state-IsFile = record { whole = tt; enough = omega arith; no_more = omega arith }

abbrev three : FileState
three = append memory new_file_state (1 ∷ 2 ∷ 3 ∷ [])

contents-append_example :
    IsFile (append memory three (4 ∷ []))
    × (contents (append memory three (4 ∷ [])) ≡ contents three ++ (4 ∷ []))
contents-append_example =
    contents-append memory memory-IsBlock three (4 ∷ [])
      (contents-append memory memory-IsBlock new_file_state (1 ∷ 2 ∷ 3 ∷ [])
        new_file_state-IsFile).0

read_lem_example : read three 1 5 ≡ (
    if ltb three.size 1
    then inr (io_error "Offset greater than file size.")
    else inl (take 5 (drop 1 (contents three))))
read_lem_example =
    read_lem three 1 5
      (contents-append memory memory-IsBlock new_file_state (1 ∷ 2 ∷ 3 ∷ [])
        new_file_state-IsFile).0

abbrev env : InMemoryEnv
env = record { store = three ∷ three ∷ []; file_map = (b'a' ∷ [], 0) ∷ (b'b' ∷ [], 1) ∷ [] }

a_exists : file_exists env (b'a' ∷ []) ≡ true
unfolding file_exists find_name exists_name slice_eq
a_exists = refl

-- A file that is renamed to its own name is lost.
find_name-rename_file_example :
    find_name (rename_file env (b'a' ∷ []) (b'a' ∷ [])).1.file_map (b'a' ∷ []) ≡ (
      if slice_eq (b'a' ∷ []) (b'a' ∷ [])
      then none
      else if slice_eq (b'a' ∷ []) (b'a' ∷ [])
      then find_name env.file_map (b'a' ∷ [])
      else find_name env.file_map (b'a' ∷ []))
find_name-rename_file_example =
    find_name-rename_file env (b'a' ∷ []) (b'a' ∷ []) (b'a' ∷ []) a_exists
