-- ===== src/DbIter.antt =====
-- LevelDB/db/db_iter.cc: the iterator that shows a user the newest visible entry of each key, over an
-- internal iterator on the entries of all tables and memtables.

pub mod Forward
pub mod Shows
mod Runs
use leveldb_windows.Base.{
  ℕ, Bool, true, false, not, ◌&&◌, Option, none, some, List, [], ◌∷◌, ◌++◌, Bytes, length, leb,
  is_lt, is_gt, if◌then◌else◌, ◌==◌,
}
use leveldb_windows.Comparator.{Comparator}
use leveldb_windows.Status.{Status, ok_status, corruption, ok}
use leveldb_windows.DbFormat.{
  ParsedInternalKey, ValueType, type_value, type_deletion, value_type_for_seek, parse_internal_key,
  append_internal_key, extract_user_key,
}
use leveldb_windows.Entries.{Entry}
use leveldb_windows.Cursor.{
  Cursor, valid, current, seek_to_first, seek_to_last, seek, next, unwind, is_at,
}

pub data Direction : Type 0 where
  forward reverse : Direction

-- What changes in a `DBIter`; the internal iterator's own status is a field of its own.
pub record DbIter : Type 0 where
  pub iter : Cursor
  pub iter_status : Status
  pub status_field : Status
  pub saved_key : Bytes
  pub saved_value : Bytes
  pub direction : Direction
  pub is_valid : Bool

pub new_db_iter : Cursor → Status → DbIter
new_db_iter iter iter_status = record {
  iter = iter;
  iter_status = iter_status;
  status_field = ok_status;
  saved_key = [];
  saved_value = [];
  direction = forward;
  is_valid = false;
}

pub key : DbIter → Bytes
key it = elim it.direction [
  | forward ↦ extract_user_key (current it.iter).0
  | reverse ↦ it.saved_key
]

pub value : DbIter → Bytes
value it = elim it.direction [ forward ↦ (current it.iter).1 | reverse ↦ it.saved_value ]

pub status : DbIter → Status
status it = if ok it.status_field then it.iter_status else it.status_field

abbrev pub corrupted_key : Status
corrupted_key = corruption "corrupted internal key in DBIter"

-- What a round of `FindNextUserEntry` does with the entry that it is at.
pub data Round : Type 0 where
  yields passes corrupt : Round
  hides : Bytes → Round

-- What a round of `FindPrevUserEntry` does with it.
pub data Backwards : Type 0 where
  stops skips reports deletes : Backwards
  saves : Bytes → Backwards

abbrev is_value : ValueType → Bool
is_value type_value = true
is_value type_deletion = false

-- The entries from the current one backwards, and those ahead; none where there is no current one.
abbrev pub facing : List Entry → List Entry → List Entry × List Entry
facing before [] = ([], [])
facing before (e ∷ rest) = (e ∷ before, rest)

module _ (user : Comparator) (sequence : ℕ) where
  abbrev pub judge_parsed : Bool → Bytes → Option ParsedInternalKey → Round
  judge_parsed skipping skip none = corrupt
  judge_parsed skipping skip (some ikey) =
      if leb ikey.sequence sequence
      then elim ikey.type [
        | type_deletion ↦ hides ikey.user_key
        | type_value ↦
            if skipping && not (is_gt (user.compare_keys ikey.user_key skip))
            then passes
            else yields
      ]
      else passes

  -- The loop of `FindNextUserEntry`: the entries behind, nearest first, and those from the current one
  -- on. It gives the place where it stops, valid or not, and the status.
  pub find_next_loop : Bool → Bytes → Status → List Entry → List Entry → Cursor × Status
  find_next_loop skipping skip status before [] = (record { before = before; rest = [] }, status)
  find_next_loop skipping skip status before (e ∷ rest) =
      elim (judge_parsed skipping skip (parse_internal_key e.0)) [
        | yields ↦ (record { before = before; rest = e ∷ rest }, status)
        | passes ↦ find_next_loop skipping skip status (e ∷ before) rest
        | corrupt ↦ find_next_loop skipping skip corrupted_key (e ∷ before) rest
        | hides user_key ↦ find_next_loop true user_key status (e ∷ before) rest
      ]

  pub find_next_user_entry : Bool → Bytes → DbIter → DbIter
  find_next_user_entry skipping skip it =
      let (place, status) =
        find_next_loop skipping skip it.status_field it.iter.before it.iter.rest in
      record it { iter = place; status_field = status; saved_key = []; is_valid = valid place }

  -- The key to skip past stands in `saved_key`.
  pub next_entry : DbIter → DbIter
  next_entry it = elim it.direction [
    | forward ↦
        find_next_user_entry true (extract_user_key (current it.iter).0)
          (record it { saved_key = extract_user_key (current it.iter).0 })
    | reverse ↦
        (let inside = if valid it.iter then next it.iter else seek_to_first it.iter in
          let turned = record it { iter = inside; direction = forward } in
          if valid inside
          then find_next_user_entry true it.saved_key turned
          else record turned { is_valid = false; saved_key = [] })
  ]

  abbrev pub judge_backwards : ValueType → Bytes → Option ParsedInternalKey → Backwards
  judge_backwards found saved_key none = reports
  judge_backwards found saved_key (some ikey) =
      if leb ikey.sequence sequence
      then if is_value found && is_lt (user.compare_keys ikey.user_key saved_key)
        then stops
        else elim ikey.type [ type_deletion ↦ deletes | type_value ↦ saves ikey.user_key ]
      else skips

  -- The loop of `FindPrevUserEntry`: the entries from the current one backwards, and those ahead. It
  -- gives the place, the status, the type it found last, and the saved key and value.
  pub find_prev_loop :
      ValueType
      → Bytes
      → Bytes
      → Status
      → List Entry
      → List Entry
      → Cursor × Status × ValueType × Bytes × Bytes
  find_prev_loop found saved_key saved_value status [] ahead =
      (record { before = unwind [] ahead; rest = [] }, status, found, saved_key, saved_value)
  find_prev_loop found saved_key saved_value status (e ∷ behind) ahead =
      elim (judge_backwards found saved_key (parse_internal_key e.0)) [
        | stops ↦
            (record { before = behind; rest = e ∷ ahead }, status, found, saved_key, saved_value)
        | skips ↦ find_prev_loop found saved_key saved_value status behind (e ∷ ahead)
        | reports ↦ find_prev_loop found saved_key saved_value corrupted_key behind (e ∷ ahead)
        | deletes ↦ find_prev_loop type_deletion [] [] status behind (e ∷ ahead)
        | saves user_key ↦ find_prev_loop type_value user_key e.1 status behind (e ∷ ahead)
      ]

  pub find_prev_user_entry : DbIter → DbIter
  find_prev_user_entry it =
      let (back, ahead) = facing it.iter.before it.iter.rest in
      let (place, status, found, saved_key, saved_value) =
        find_prev_loop type_deletion it.saved_key it.saved_value it.status_field back ahead in
      let moved = record it {
        iter = if is_at back then place else it.iter;
        status_field = status;
      } in
      elim found [
        | type_deletion ↦ record moved {
          is_valid = false;
          saved_key = [];
          saved_value = [];
          direction = forward;
        }
        | type_value ↦ record moved {
          is_valid = true;
          saved_key = saved_key;
          saved_value = saved_value;
        }
      ]

  -- The loop of `Prev` that leaves the entries of the current user key, on the entries behind.
  pub leave_key : Bytes → List Entry → List Entry → Cursor
  leave_key saved_key [] ahead = record { before = unwind [] ahead; rest = [] }
  leave_key saved_key (e ∷ behind) ahead =
      let further = leave_key saved_key behind (e ∷ ahead) in
      if is_lt (user.compare_keys (extract_user_key e.0) saved_key)
      then record { before = behind; rest = e ∷ ahead }
      else further

  pub prev_entry : DbIter → DbIter
  prev_entry it = elim it.direction [
    | reverse ↦ find_prev_user_entry it
    | forward ↦
        (let saved_key = extract_user_key (current it.iter).0 in
          let place = leave_key saved_key it.iter.before it.iter.rest in
          if valid place
          then find_prev_user_entry
              (record it { iter = place; saved_key = saved_key; direction = reverse })
          else record it { iter = place; is_valid = false; saved_key = []; saved_value = [] })
  ]

  pub seek_entry : Bytes → DbIter → DbIter
  seek_entry target it =
      let seek_key =
        append_internal_key []
          (record { user_key = target; sequence = sequence; type = value_type_for_seek }) in
      let placed = record it {
        iter = seek user seek_key it.iter;
        direction = forward;
        saved_value = [];
        saved_key = seek_key;
      } in
      if valid placed.iter
      then find_next_user_entry false seek_key placed
      else record placed { is_valid = false }

  pub seek_to_first_entry : DbIter → DbIter
  seek_to_first_entry it =
      let placed = record it {
        iter = seek_to_first it.iter;
        direction = forward;
        saved_value = [];
      } in
      if valid placed.iter
      then find_next_user_entry false placed.saved_key placed
      else record placed { is_valid = false }

  pub seek_to_last_entry : DbIter → DbIter
  seek_to_last_entry it =
      find_prev_user_entry
        (record it { iter = seek_to_last it.iter; direction = reverse; saved_value = [] })
