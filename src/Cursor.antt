-- ===== src/Cursor.antt =====
-- LevelDB/include/leveldb/iterator.h: an iterator over entries in order, as a place between the
-- entries behind it, nearest first, and those from the current one on. It is valid where there is a
-- current one, and it stands behind the last entry otherwise.
use leveldb_windows.Base.{Bool, true, false, List, [], ◌∷◌, Bytes, is_lt, if◌then◌else◌}
use leveldb_windows.Comparator.{Comparator}
use leveldb_windows.DbFormat.{internal_compare}
use leveldb_windows.Entries.{Entry}

pub record Cursor : Type 0 where
  pub before : List Entry
  pub rest : List Entry

abbrev pub is_at : List Entry → Bool
is_at [] = false
is_at (e ∷ rest) = true

abbrev pub valid : Cursor → Bool
valid c = is_at c.rest

abbrev head_entry : List Entry → Entry
head_entry [] = ([], [])
head_entry (e ∷ rest) = e

-- `key()` and `value()`, where the iterator is valid.
abbrev pub current : Cursor → Entry
current c = head_entry c.rest

-- The entries behind in front of the others.
abbrev pub rewind : List Entry → List Entry → List Entry
rewind [] rest = rest
rewind (e ∷ before) rest = rewind before (e ∷ rest)

abbrev pub unwind : List Entry → List Entry → List Entry
unwind before [] = before
unwind before (e ∷ rest) = unwind (e ∷ before) rest

abbrev pub contents : Cursor → List Entry
contents c = rewind c.before c.rest

abbrev pub seek_to_first : Cursor → Cursor
seek_to_first c = record { before = []; rest = contents c }

abbrev pub to_end : Cursor → Cursor
to_end c = record { before = unwind c.before c.rest; rest = [] }

abbrev step_forward : List Entry → List Entry → Cursor
step_forward before [] = record { before = before; rest = [] }
step_forward before (e ∷ rest) = record { before = e ∷ before; rest = rest }

abbrev pub next : Cursor → Cursor
next c = step_forward c.before c.rest

-- Before the first entry it is no longer valid.
abbrev step_back : List Entry → List Entry → Cursor
step_back [] rest = record { before = unwind [] rest; rest = [] }
step_back (e ∷ before) rest = record { before = before; rest = e ∷ rest }

abbrev pub prev : Cursor → Cursor
prev c = step_back c.before c.rest

abbrev pub seek_to_last : Cursor → Cursor
seek_to_last c = step_back (unwind c.before c.rest) []

module _ (user : Comparator) where
  pub seek_from : Bytes → List Entry → List Entry → Cursor
  seek_from target before [] = record { before = before; rest = [] }
  seek_from target before (e ∷ rest) =
      let behind = seek_from target (e ∷ before) rest in
      if is_lt (internal_compare user e.0 target)
      then behind
      else record { before = before; rest = e ∷ rest }

  -- The first entry whose key is at or past the target.
  pub seek : Bytes → Cursor → Cursor
  seek target c = seek_from target [] (contents c)
