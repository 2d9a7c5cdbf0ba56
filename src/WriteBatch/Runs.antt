-- ===== src/WriteBatch/Runs.antt =====
-- Batches run on concrete input, and the theorems at concrete input.
use leveldb_windows.Base.{◌≡◌, arith, some, List, [], ◌∷◌, ◌++◌}
use leveldb_windows.Status.{Status, ok_status, corruption}
use leveldb_windows.WriteBatch.{Handler, new_write_batch, append, iterate}
use leveldb_windows.WriteBatch.Layout.{
  Update, assign, remove, layout, apply_updates, new_write_batch-updates, append-layout,
}
use leveldb_windows.WriteBatch.Iterate.{iterate-layout, iterate-new_write_batch}
use leveldb_windows.WriteBatch.Total.{iterate_ends}

-- A handler that keeps the calls, the last first.
abbrev recorder : Handler (List Update)
recorder = record {
  on_put = λ key value calls. assign key value ∷ calls;
  on_delete = λ key calls. remove key ∷ calls;
}

abbrev two_updates : List Update
two_updates = assign (b'k' ∷ []) (b'v' ∷ b'w' ∷ []) ∷ remove (b'x' ∷ []) ∷ []

iterate-new_write_batch_example :
    iterate recorder (apply_updates new_write_batch two_updates) []
    ≡ some (remove (b'x' ∷ []) ∷ assign (b'k' ∷ []) (b'v' ∷ b'w' ∷ []) ∷ [], ok_status)
iterate-new_write_batch_example =
    iterate-new_write_batch recorder two_updates [] (omega arith) (omega arith)

iterate-layout_example :
    iterate recorder (record { rep = layout 7 5 two_updates }) []
    ≡ some (
      remove (b'x' ∷ []) ∷ assign (b'k' ∷ []) (b'v' ∷ b'w' ∷ []) ∷ [],
      corruption "WriteBatch has wrong count",
    )
iterate-layout_example =
    iterate-layout recorder 7 5 two_updates [] (omega arith) (omega arith) (omega arith)

new_write_batch-updates_example :
    apply_updates new_write_batch two_updates ≡ record { rep = layout 0 2 two_updates }
new_write_batch-updates_example = new_write_batch-updates two_updates (omega arith) (omega arith)

append-layout_example :
    append (record { rep = layout 3 2 two_updates }) (record { rep = layout 9 2 two_updates })
    ≡ record { rep = layout 3 4 (two_updates ++ two_updates) }
append-layout_example = append-layout 3 2 9 2 two_updates two_updates (omega arith)

iterate_ends_example :
    (r : List Update × Status) × (iterate recorder (record { rep = 1 ∷ 2 ∷ [] }) [] ≡ some r)
iterate_ends_example = iterate_ends recorder (record { rep = 1 ∷ 2 ∷ [] }) [] (omega arith)
