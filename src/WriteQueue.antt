-- ===== src/WriteQueue.antt =====
-- LevelDB/db/db_impl.cc, DBImpl::Write and DBImpl::BuildBatchGroup: the writer at the front of the queue
-- writes its batch with those of writers behind it, and hands them the outcome. The log and the
-- memtable are a parameter.
pub mod Group
pub mod Write
mod Runs
use leveldb_windows.Base.{
  ℕ, zero, suc, ◌+◌, ◌*◌, ◌%◌, ◌^◌, widen_int, Bool, true, false, not, ◌&&◌, Option, none, some,
  List, [], ◌∷◌, ◌++◌, Bytes, length, ltb, leb, ◌==◌, if◌then◌else◌,
}
use leveldb_windows.Status.{Status, ok_status, ok}
use leveldb_windows.WriteBatch.{WriteBatch, new_write_batch, append, count, set_sequence}

-- `DBImpl::Writer` in the queue, by a number that stands for its address; no batch is NULL.
pub record Writer : Type 0 where
  pub id : ℕ
  pub batch : Option WriteBatch
  pub sync : Bool

abbrev pub byte_size : WriteBatch → ℕ
byte_size b = length b.rep

abbrev pub small_write : ℕ
small_write = 128 * 2 ^ 10

pub max_group_size : ℕ → ℕ
max_group_size size = if leb size small_write then size + small_write else 2 ^ 20

-- `*result`: the first writer's own batch, or the temporary one.
pub data Grouped : Type 0 where
  own temporary : WriteBatch → Grouped

abbrev pub grouped_batch : Grouped → WriteBatch
grouped_batch (own b) = b
grouped_batch (temporary b) = b

-- `tmp_batch_` is empty before the first batch is put into it.
pub append_batch : Grouped → WriteBatch → Grouped
append_batch (own first) b = temporary (append (append new_write_batch first) b)
append_batch (temporary result) b = temporary (append result b)

-- The loop of `BuildBatchGroup` on the writers behind the first: the batch, and the last writer.
pub build_loop : Bool → ℕ → ℕ → Grouped → ℕ → List Writer → Grouped × ℕ
build_loop first_sync max_size size result last [] = (result, last)
build_loop first_sync max_size size result last (w ∷ writers) =
    if w.sync && not first_sync then (result, last) else elim w.batch [
      | none ↦ build_loop first_sync max_size size result w.id writers
      | some b ↦
          (let rest =
              build_loop first_sync max_size (size + byte_size b) (append_batch result b) w.id
                writers in
            if ltb max_size (size + byte_size b) then (result, last) else rest)
    ]

pub build_batch_group : WriteBatch → Writer → List Writer → Grouped × ℕ
build_batch_group batch first writers =
    build_loop first.sync (max_group_size (byte_size batch)) (byte_size batch) (own batch) first.id
      writers

-- The loop that takes writers off the queue, up to the last of the group: their numbers, and the queue
-- that is left.
pub pop_through : ℕ → List Writer → List ℕ × List Writer
pop_through last [] = ([], [])
pop_through last (w ∷ writers) =
    let rest = pop_through last writers in
    if w.id == last then (w.id ∷ [], writers) else (w.id ∷ rest.0, rest.1)

-- `Log::Writer::AddRecord`, `WritableFile::Sync` and `WriteBatchInternal::InsertInto`, on the state of
-- the log and the memtable.
pub record Sinks (S : Type 0) : Type 0 where
  pub add_record : Bytes → S → Status × S
  pub sync_log : S → Status × S
  pub insert_into : WriteBatch → S → Status × S

pub record Db (S : Type 0) : Type 0 where
  pub last_sequence : ℕ
  pub bg_error : Status
  pub writers : List Writer
  pub sinks : S

abbrev pub record_background_error : {S : Type 0} → Status → Db S → Db S
record_background_error s db = if ok db.bg_error then record db { bg_error = s } else db

module _ {S : Type 0} (sinks : Sinks S) where
  abbrev then_ok : Status × S → (S → Status × S) → Status × S
  then_ok (ok_status, s) step = step s
  then_ok (e, s) step = (e, s)

  -- The record, a sync where it is asked for, and the memtable; the Boolean is `sync_error`.
  pub commit : Bool → WriteBatch → S → Status × Bool × S
  commit sync updates s =
      let logged = sinks.add_record updates.rep s in
      let synced = if sync then sinks.sync_log logged.1 else (ok_status, logged.1) in
      let inserted = sinks.insert_into updates synced.1 in
      if ok logged.0
      then (if ok synced.0 then (inserted.0, false, inserted.1) else (synced.0, true, synced.1))
      else (logged.0, false, logged.1)

  -- `Write` of the writer at the front, once `MakeRoomForWrite` has answered `room`: the status, the
  -- writers that are done with it, and the state. The writers that wait are not woken here. The count
  -- that is added to the last number is an `int`.
  pub write_front : Status → Writer → List Writer → Db S → Status × List ℕ × Db S
  write_front room first writers db = elim first.batch [
    | none ↦
        (let popped = pop_through first.id (first ∷ writers) in
          (room, popped.0, record db { writers = popped.1 }))
    | some batch ↦
        (let (grouped, last) = build_batch_group batch first writers in
          let updates = set_sequence (grouped_batch grouped) (db.last_sequence + 1) in
          let (status, sync_error, s) = commit first.sync updates db.sinks in
          let recorded = if sync_error then record_background_error status db else db in
          let written = record recorded {
            last_sequence = (db.last_sequence + widen_int (count updates)) % 2 ^ 64;
            writers = (pop_through last (first ∷ writers)).1;
            sinks = s;
          } in
          let alone = pop_through first.id (first ∷ writers) in
          if ok room
          then (status, (pop_through last (first ∷ writers)).0, written)
          else (room, alone.0, record db { writers = alone.1 }))
  ]
