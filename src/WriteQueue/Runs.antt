-- ===== src/WriteQueue/Runs.antt =====
-- A write of a group of three writers.
use leveldb_windows.Base.{arith, true, false, some, none, List, [], ◌∷◌, Bytes, map}
use leveldb_windows.Status.{ok_status}
use leveldb_windows.WriteBatch.Layout.{assign, remove}
use leveldb_windows.WriteQueue.{Sinks, Db, write_front}
use leveldb_windows.WriteQueue.Group.{Request, writer_of}
use leveldb_windows.WriteQueue.Write.{Written, write_front-Written}

abbrev sinks : Sinks (List Bytes)
sinks = record {
  add_record = λ bytes records. (ok_status, bytes ∷ records);
  sync_log = λ records. (ok_status, records);
  insert_into = λ batch records. (ok_status, records);
}

abbrev db : Db (List Bytes)
db = record { last_sequence = 40; bg_error = ok_status; writers = []; sinks = [] }

abbrev behind : List Request
behind =
    record { id = 2; updates = some (remove (b'x' ∷ []) ∷ []); sync = false }
    ∷ record { id = 3; updates = none; sync = false }
    ∷ record { id = 4; updates = some (assign (b'y' ∷ []) (b'z' ∷ []) ∷ []); sync = true }
    ∷ []

abbrev first : Request
first = record { id = 1; updates = some (assign (b'a' ∷ []) (b'b' ∷ []) ∷ []); sync = false }

write_front-Written_example :
    Written sinks 1
      (assign (b'a' ∷ []) (b'b' ∷ []) ∷ [])
      false
      behind
      db
      (write_front sinks ok_status (writer_of first) (map writer_of behind) db)
write_front-Written_example =
    write_front-Written sinks 1 (assign (b'a' ∷ []) (b'b' ∷ []) ∷ []) false behind db (omega arith)
      (omega arith) (omega arith)
