-- ===== src/Memenv.antt =====
-- LevelDB/helpers/memenv/memenv.cc: files in memory. A file is a list of blocks and a size; the
-- environment is a map from names to files.
pub mod Contents
pub mod Append
pub mod ReadBack
pub mod FileSystem
use leveldb_windows.Base.{
  ℕ, zero, suc, ◌+◌, ◌-◌, ◌*◌, ◌/◌, ◌%◌, Bool, true, false, List, [], ◌∷◌, ◌++◌, ◌⊎◌, inl, inr,
  Bytes, length, take, drop, get_or, min, ltb, leb, ◌==◌, if◌then◌else◌,
}
use leveldb_windows.Status.{Status, ok_status, io_error}

abbrev pub block_size : ℕ
block_size = 8192

-- The reference count is kept by the environment and is left out: the model frees nothing.
pub record FileState : Type 0 where
  pub blocks : List Bytes
  pub size : ℕ

pub new_file_state : FileState
new_file_state = record { blocks = []; size = 0 }

-- `memcpy(block + offset, src, length)`
pub write_at : ℕ → Bytes → Bytes → Bytes
write_at offset src block = take offset block ++ (src ++ drop (offset + length src) block)

-- A change of `blocks_.back()`.
pub write_last : ℕ → Bytes → List Bytes → List Bytes
write_last offset src [] = []
write_last offset src (block ∷ []) = write_at offset src block ∷ []
write_last offset src (block ∷ next ∷ blocks) = block ∷ write_last offset src (next ∷ blocks)

-- `memory` is what `new char[kBlockSize]` holds.
module _ (memory : Bytes) where
  -- One round of the loop: the file, and the number of bytes that it took.
  pub append_round : FileState → Bytes → FileState × ℕ
  append_round f src =
      let offset = f.size % block_size in
      let blocks = if offset == 0 then f.blocks ++ (memory ∷ []) else f.blocks in
      let room = if offset == 0 then block_size else block_size - offset in
      let avail = if ltb (length src) room then length src else room in
      (record { blocks = write_last offset (take avail src) blocks; size = f.size + avail }, avail)

  -- The loop, on fuel for its rounds.
  pub append_loop : ℕ → FileState → Bytes → FileState
  append_loop zero f src = f
  append_loop (suc fuel) f src =
      let round = append_round f src in
      let rest = append_loop fuel round.0 (drop round.1 src) in
      if ltb 0 (length src) then rest else f

  -- Every round takes a byte at least.
  pub append : FileState → Bytes → FileState
  append f src = append_loop (length src) f src

-- The copying loop, on fuel for its rounds.
pub copy_loop : ℕ → List Bytes → ℕ → ℕ → ℕ → Bytes
copy_loop zero blocks block block_offset bytes_to_copy = []
copy_loop (suc fuel) blocks block block_offset bytes_to_copy =
    let room = block_size - block_offset in
    let avail = if ltb bytes_to_copy room then bytes_to_copy else room in
    let rest = copy_loop fuel blocks (block + 1) 0 (bytes_to_copy - avail) in
    if ltb 0 bytes_to_copy
    then take avail (drop block_offset (get_or blocks block [])) ++ rest
    else []

pub read : FileState → ℕ → ℕ → Bytes ⊎ Status
read f offset n =
    let available = f.size - offset in
    let n' = if ltb available n then available else n in
    let block = offset / block_size in
    let block_offset = offset % block_size in
    if ltb f.size offset
    then inr (io_error "Offset greater than file size.")
    else (if n' == 0
        then inl []
        else (if leb n' (block_size - block_offset)
            then inl (take n' (drop block_offset (get_or f.blocks block [])))
            else inl (copy_loop n' f.blocks block block_offset n')))
