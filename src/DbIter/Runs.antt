-- ===== src/DbIter/Runs.antt =====
-- The iterator over concrete entries.
use leveldb_windows.Base.{◌≡◌, true, [], ◌∷◌}
use leveldb_windows.Comparator.Shorten.{bytewise-IsOrder}
use leveldb_windows.Status.{ok_status}
use leveldb_windows.DbFormat.Keys.{internal_key}
use leveldb_windows.Cursor.{contents}
use leveldb_windows.Entries.Samples.{
  user, entries, deleted_key, old_key, first_key, last_key, parse_first, entries-InOrder,
}
use leveldb_windows.DbIter.{DbIter, new_db_iter, next_entry, seek_to_first_entry}
use leveldb_windows.DbIter.Forward.{Past}
use leveldb_windows.DbIter.Shows.{Shows, Any, at_entry, next_entry-Shows, seek_to_first_entry-Shows}

abbrev start : DbIter
start = new_db_iter (record { before = []; rest = entries }) ok_status

-- At sequence number 8 the reader does not see the deletion.
seek_to_first_entry-Shows_example :
    Shows user 8 Any entries (seek_to_first_entry user 8 start)
    × (contents (seek_to_first_entry user 8 start).iter ≡ entries)
unfolding new_db_iter
seek_to_first_entry-Shows_example =
    seek_to_first_entry-Shows user bytewise-IsOrder 8 start entries-InOrder

next_entry-Shows_example :
    Shows user 8 (Past user true (b'c' ∷ [])) entries (
      next_entry user 8 (
        at_entry start
          ((internal_key old_key, 1 ∷ []) ∷ (internal_key deleted_key, []) ∷ [])
          (internal_key first_key, 2 ∷ [])
          ((internal_key last_key, 3 ∷ []) ∷ [])))
    × (contents
          (next_entry user 8 (
            at_entry start
              ((internal_key old_key, 1 ∷ []) ∷ (internal_key deleted_key, []) ∷ [])
              (internal_key first_key, 2 ∷ [])
              ((internal_key last_key, 3 ∷ []) ∷ []))).iter
        ≡ entries)
next_entry-Shows_example =
    next_entry-Shows user bytewise-IsOrder 8 start
      ((internal_key old_key, 1 ∷ []) ∷ (internal_key deleted_key, []) ∷ [])
      ((internal_key last_key, 3 ∷ []) ∷ []) (internal_key first_key, 2 ∷ []) first_key
      entries-InOrder parse_first
