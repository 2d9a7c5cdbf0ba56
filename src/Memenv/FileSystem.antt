-- ===== src/Memenv/FileSystem.antt =====
-- LevelDB/helpers/memenv/memenv.cc, the class InMemoryEnv and the file objects that it gives out. A
-- file object holds its file by the number in the store, so that a file that is deleted or renamed
-- stays readable; the names map to numbers. The lock serialises the operations.
pub mod Names
mod Runs
use leveldb_windows.Base.{
  ℕ, zero, suc, ◌+◌, ◌-◌, Bool, true, false, ◌&&◌, List, [], ◌∷◌, ◌++◌, ◌⊎◌, inl, inr, Option, none,
  some, Bytes, length, take, drop, get_or, set, ltb, leb, ◌==◌, if◌then◌else◌,
}
use leveldb_windows.Slice.{slice_eq, starts_with, slice_compare}
use leveldb_windows.Status.{Status, ok_status, io_error}
use leveldb_windows.Memenv.{FileState, new_file_state, append, read}
use Prim.Native.Nat.{Ordering}

-- `std::map`, in the order of the names.
abbrev pub FileMap : Type 0
FileMap = List (Bytes × ℕ)

pub find_name : FileMap → Bytes → Option ℕ
find_name [] name = none
find_name ((n, file) ∷ m) name = if slice_eq n name then some file else find_name m name

pub erase_name : FileMap → Bytes → FileMap
erase_name [] name = []
erase_name ((n, file) ∷ m) name =
    let rest = erase_name m name in if slice_eq n name then rest else (n, file) ∷ rest

pub place_name : FileMap → Bytes → ℕ → FileMap
place_name [] name file = (name, file) ∷ []
place_name ((n, f) ∷ m) name file =
    let rest = place_name m name file in
    elim (slice_compare n name) [ Ordering.lt ↦ (n, f) ∷ rest | _ ↦ (name, file) ∷ ((n, f) ∷ m) ]

-- `file_map_[name] = file`
pub assign_name : FileMap → Bytes → ℕ → FileMap
assign_name m name file = place_name (erase_name m name) name file

pub record InMemoryEnv : Type 0 where
  pub store : List FileState
  pub file_map : FileMap

-- `SequentialFileImpl`; the other two file objects hold no more than the file.
pub record SequentialFile : Type 0 where
  pub file : ℕ
  pub pos : ℕ

abbrev pub file_of : InMemoryEnv → ℕ → FileState
file_of env file = get_or env.store file new_file_state

pub exists_name : Option ℕ → Bool
exists_name none = false
exists_name (some file) = true

-- `IOError(fname, "File not found")`
abbrev pub not_there : Status
not_there = io_error "File not found"

pub new_sequential_file : InMemoryEnv → Bytes → SequentialFile ⊎ Status
new_sequential_file env fname = elim (find_name env.file_map fname) [
  | none ↦ inr not_there
  | some file ↦ inl (record { file = file; pos = 0 })
]

pub new_random_access_file : InMemoryEnv → Bytes → ℕ ⊎ Status
new_random_access_file env fname = elim (find_name env.file_map fname) [
  | none ↦ inr not_there
  | some file ↦ inl file
]

pub delete_file_internal : InMemoryEnv → Bytes → InMemoryEnv
delete_file_internal env fname = record env { file_map = erase_name env.file_map fname }

pub new_writable_file : InMemoryEnv → Bytes → ℕ × InMemoryEnv
new_writable_file env fname =
    let file = length env.store in
    let cleared = delete_file_internal env fname in
    (
      file,
      record {
        store = env.store ++ (new_file_state ∷ []);
        file_map = assign_name cleared.file_map fname file;
      },
    )

pub file_exists : InMemoryEnv → Bytes → Bool
file_exists env fname = exists_name (find_name env.file_map fname)

pub children : Bytes → FileMap → List Bytes
children dir [] = []
children dir ((filename, file) ∷ m) =
    let rest = children dir m in
    if leb (length dir + 1) (length filename)
      && get_or filename (length dir) 0 == b'/'
      && starts_with filename dir
    then drop (length dir + 1) filename ∷ rest
    else rest

pub get_children : InMemoryEnv → Bytes → List Bytes
get_children env dir = children dir env.file_map

pub delete_file : InMemoryEnv → Bytes → Status × InMemoryEnv
delete_file env fname =
    if file_exists env fname then (ok_status, delete_file_internal env fname) else (not_there, env)

pub get_file_size : InMemoryEnv → Bytes → ℕ ⊎ Status
get_file_size env fname = elim (find_name env.file_map fname) [
  | none ↦ inr not_there
  | some file ↦ inl (file_of env file).size
]

-- The target is deleted first. Where the two names are one, `file_map_[src]` makes a null entry
-- then, which is erased.
pub move_name : FileMap → Bytes → Bytes → FileMap
move_name m src target = elim (find_name m src) [
  | none ↦ erase_name m src
  | some file ↦ erase_name (assign_name m target file) src
]

pub rename_file : InMemoryEnv → Bytes → Bytes → Status × InMemoryEnv
rename_file env src target =
    let cleared = delete_file_internal env target in
    if file_exists env src
    then (ok_status, record cleared { file_map = move_name cleared.file_map src target })
    else (not_there, env)

-- The methods of the file objects.
pub writable_append : Bytes → InMemoryEnv → ℕ → Bytes → InMemoryEnv
writable_append memory env file bytes = record env {
  store = set env.store file (append memory (file_of env file) bytes);
}

pub sequential_read : InMemoryEnv → SequentialFile → ℕ → (Bytes ⊎ Status) × SequentialFile
sequential_read env f n = elim (read (file_of env f.file) f.pos n) [
  | inl result ↦ (inl result, record f { pos = f.pos + length result })
  | inr status ↦ (inr status, f)
]

pub sequential_skip : InMemoryEnv → SequentialFile → ℕ → Status × SequentialFile
sequential_skip env f n =
    let size = (file_of env f.file).size in
    let available = size - f.pos in
    let step = if ltb available n then available else n in
    if ltb size f.pos
    then (io_error "pos_ > file_->Size()", f)
    else (ok_status, record f { pos = f.pos + step })
