-- ===== src/CompactionWork.antt =====
-- LevelDB/db/db_impl.cc, DBImpl::DoCompactionWork and the operations on its output files: the entries
-- of a compaction's inputs go through in order, those that no reader needs are dropped, and the others
-- go to new files. The memtable compactions that the loop lets in between are not among its steps, and
-- the file system and the table format are a parameter.
pub mod Examine
pub mod Keep
pub mod Reads
pub mod Outputs
pub mod Result
pub mod Ends
mod Runs
use leveldb_windows.Base.{
  ℕ, zero, suc, ◌+◌, ◌-◌, Bool, true, false, not, ◌&&◌, Option, none, some, List, [], ◌∷◌, ◌++◌,
  Bytes, length, leb, ltb, if◌then◌else◌,
}
use leveldb_windows.Comparator.{Comparator}
use leveldb_windows.Status.{Status, ok_status, io_error, ok}
use leveldb_windows.DbFormat.{
  ParsedInternalKey, ValueType, type_value, type_deletion, parse_internal_key, max_sequence_number,
}
use leveldb_windows.VersionEdit.{VersionEdit, add_file, new_file}
use leveldb_windows.Entries.{Entry, is_eq}
use leveldb_windows.Compaction.{
  Compaction, is_base_level_for_key, should_stop_before, add_input_deletions,
}

-- The user key of the last entry that parsed, and its number; no key at first and behind an entry
-- that does not parse.
pub record Seen : Type 0 where
  pub current_user_key : Option Bytes
  pub last_sequence_for_key : ℕ

abbrev pub nothing_seen : Seen
nothing_seen = record { current_user_key = none; last_sequence_for_key = max_sequence_number }

pub record Verdict : Type 0 where
  pub stop_before : Bool
  pub dropped : Bool
  pub seen : Seen
  pub compaction : Compaction

module _ (user : Comparator) (smallest_snapshot : ℕ) where
  -- `last_sequence_for_key` once the entry's user key is the current one.
  abbrev pub last_for : Seen → Bytes → ℕ
  last_for seen user_key = elim seen.current_user_key [
    | none ↦ max_sequence_number
    | some u ↦
        if is_eq (user.compare_keys user_key u)
        then seen.last_sequence_for_key
        else max_sequence_number
  ]

  -- Whether the entry is an obsolete deletion marker; the compaction is asked only where the rest holds.
  pub obsolete_marker : Compaction → ParsedInternalKey → Bool × Compaction
  obsolete_marker c ikey = elim ikey.type [
    | type_value ↦ (false, c)
    | type_deletion ↦
        if leb ikey.sequence smallest_snapshot
        then is_base_level_for_key user c ikey.user_key
        else (false, c)
  ]

  pub drop_entry : Compaction → Seen → Option ParsedInternalKey → Bool × Seen × Compaction
  drop_entry c seen none = (false, nothing_seen, c)
  drop_entry c seen (some ikey) =
      let seen' : Seen = record {
        current_user_key = some ikey.user_key;
        last_sequence_for_key = ikey.sequence;
      } in
      if leb (last_for seen ikey.user_key) smallest_snapshot
      then (true, seen', c)
      else ((obsolete_marker c ikey).0, seen', (obsolete_marker c ikey).1)

  -- The questions that a round asks of its entry.
  pub examine : Compaction → Seen → Bytes → Verdict
  examine c seen key =
      let (stop, c') = should_stop_before user c key in
      let (dropped, seen', c'') = drop_entry c' seen (parse_internal_key key) in
      record { stop_before = stop; dropped = dropped; seen = seen'; compaction = c'' }

-- `CompactionState::Output`, with the entries that are in its file once it is finished.
pub record Output : Type 0 where
  pub number : ℕ
  pub file_size : ℕ
  pub smallest : Bytes
  pub largest : Bytes
  pub file_entries : List Entry

-- What the steps change: the last output stands first, and `builder` holds what was added to it.
pub record Work : Type 0 where
  pub next_file_number : ℕ
  pub pending_outputs : List ℕ
  pub outputs : List Output
  pub builder : Option (List Entry)
  pub total_bytes : ℕ

-- How the file of a number is created; the size of a table with some entries; and how `Finish`, the
-- two calls on the file, and a first look into the table end.
pub record Tables : Type 0 where
  pub create : ℕ → Status
  pub table_size : List Entry → ℕ
  pub finish : ℕ → List Entry → Status

abbrev pub change_output : (Output → Output) → List Output → List Output
change_output f [] = []
change_output f (o ∷ outputs) = f o ∷ outputs

abbrev pub output_number : List Output → ℕ
output_number [] = 0
output_number (o ∷ outputs) = o.number

module _ (tables : Tables) where
  pub open_compaction_output_file : Work → Status × Work
  open_compaction_output_file w =
      let number = w.next_file_number in
      let out : Output = record {
        number = number;
        file_size = 0;
        smallest = [];
        largest = [];
        file_entries = [];
      } in
      let opened = record w {
        next_file_number = number + 1;
        pending_outputs = number ∷ w.pending_outputs;
        outputs = out ∷ w.outputs;
      } in
      if ok (tables.create number)
      then (tables.create number, record opened { builder = some [] })
      else (tables.create number, opened)

  -- On the entries of the builder, which is there.
  pub finish_compaction_output_file : Status → List Entry → Work → Status × Work
  finish_compaction_output_file input_status added w =
      let number = output_number w.outputs in
      let size = tables.table_size added in
      let closed = record w {
        outputs =
            change_output (λ o. record o { file_size = size; file_entries = added }) w.outputs;
        total_bytes = w.total_bytes + size;
        builder = none;
      } in
      (if ok input_status then tables.finish number added else input_status, closed)

  abbrev starts : List Entry → Bytes → Bytes → Bytes
  starts [] smallest key = key
  starts (e ∷ added) smallest key = smallest

  pub add_to_output : List Entry → Entry → Work → Work
  add_to_output added e w = record w {
    outputs =
        change_output (λ o. record o { smallest = starts added o.smallest e.0; largest = e.0 })
          w.outputs;
    builder = some (added ++ (e ∷ []));
  }

  abbrev pub then_ok : Status × Work → (Work → Status × Work) → Status × Work
  then_ok (ok_status, w) step = step w
  then_ok (s, w) step = (s, w)

  -- The file is closed where the next key must not go to it.
  pub close_before : Status → Bool → Work → Status × Work
  close_before input_status stop w = elim w.builder [
    | none ↦ (ok_status, w)
    | some added ↦
        if stop then finish_compaction_output_file input_status added w else (ok_status, w)
  ]

  pub open_for_entry : Work → Status × Work
  open_for_entry w = elim w.builder [
    | none ↦ open_compaction_output_file w
    | some added ↦ (ok_status, w)
  ]

  -- The entry is added, and the file is closed once it is big enough.
  pub store_entry : Status → ℕ → Entry → Work → Status × Work
  store_entry input_status max_output_file_size e w = elim w.builder [
    | none ↦ (ok_status, w)
    | some added ↦
        (let stored = add_to_output added e w in
          if leb max_output_file_size (tables.table_size (added ++ (e ∷ [])))
          then finish_compaction_output_file input_status (added ++ (e ∷ [])) stored
          else (ok_status, stored))
  ]

  pub place_entry : Status → ℕ → Verdict → Entry → Work → Status × Work
  place_entry input_status max_output_file_size verdict e w =
      then_ok (close_before input_status verdict.stop_before w) (λ closed.
        if verdict.dropped
        then (ok_status, closed)
        else then_ok (open_for_entry closed) (store_entry input_status max_output_file_size e))

  pub finish_last : Status → Work → Status × Work
  finish_last input_status w = elim w.builder [
    | none ↦ (ok_status, w)
    | some added ↦ finish_compaction_output_file input_status added w
  ]

  module _ (user : Comparator) (smallest_snapshot : ℕ) (shutting_down : ℕ → Bool) where
    -- `shutting_down` is what the flag is when that many entries are left.
    pub work_loop : Status → Compaction → Seen → Work → List Entry → Status × Work
    work_loop input_status c seen w [] =
        (if shutting_down 0 then io_error "Deleting DB during compaction" else ok_status, w)
    work_loop input_status c seen w (e ∷ entries) =
        let verdict = examine user smallest_snapshot c seen e.0 in
        let placed = place_entry input_status c.max_output_file_size verdict e w in
        let rest = work_loop input_status verdict.compaction verdict.seen placed.1 entries in
        if shutting_down (suc (length entries))
        then (io_error "Deleting DB during compaction", w)
        else if ok placed.0
        then rest
        else placed

    -- The work of `DoCompactionWork` on the entries of its input, up to the edit.
    pub do_compaction_work : Status → Compaction → Work → List Entry → Status × Work
    do_compaction_work input_status c w entries =
        then_ok (work_loop input_status c nothing_seen w entries) (λ worked.
          then_ok (finish_last input_status worked) (λ finished. (input_status, finished)))

abbrev add_outputs : ℕ → List Output → VersionEdit → VersionEdit
add_outputs level [] edit = edit
add_outputs level (o ∷ outputs) edit =
    add_file (add_outputs level outputs edit) (level + 1)
      (new_file o.number o.file_size o.smallest o.largest)

-- The edit of `InstallCompactionResults`.
pub install_compaction_results : Compaction → VersionEdit → Work → VersionEdit
install_compaction_results c edit w = add_outputs c.level w.outputs (add_input_deletions c edit)

-- `snapshots_` has the oldest one first.
pub smallest_snapshot_of : ℕ → List ℕ → ℕ
smallest_snapshot_of last_sequence [] = last_sequence
smallest_snapshot_of last_sequence (oldest ∷ snapshots) = oldest
