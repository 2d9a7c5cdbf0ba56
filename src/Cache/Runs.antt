-- ===== src/Cache/Runs.antt =====
-- Runs of the handle table.
use leveldb_windows.Base.{◌≡◌, refl, arith, none, some, [], ◌∷◌, if◌then◌else◌}
use leveldb_windows.Cache.{
  Handle, HandleTable, matches, lookup_handle, insert_handle, remove_handle, bucket_of,
}
use leveldb_windows.Cache.Chains.{same_key}
use leveldb_windows.Cache.Table.{IsMap, insert_handle_lem, remove_handle_lem}

abbrev one_handle : Handle
one_handle = record { id = 1; key = 7 ∷ []; hash = 5; value = 70; charge = 1 }

abbrev two_handle : Handle
two_handle = record { id = 2; key = 8 ∷ []; hash = 9; value = 80; charge = 1 }

-- Both handles are of the same bucket of the four.
abbrev full_table : HandleTable
full_table = record { num_buckets = 4; elems = 1; buckets = [] ∷ (one_handle ∷ []) ∷ [] ∷ [] ∷ [] }

full_table-IsMap : IsMap full_table
unfolding bucket_of
full_table-IsMap = record {
  some_buckets = omega arith;
  sized = refl;
  placed = (tt, tt, ((refl, tt), (tt, tt), (tt, tt, (tt, tt, tt))));
}

insert_handle_lem_example :
    IsMap (insert_handle full_table two_handle).1
    × (lookup_handle (insert_handle full_table two_handle).1 (7 ∷ []) 5 ≡ (
        if matches (7 ∷ []) 5 two_handle
        then some two_handle
        else lookup_handle full_table (7 ∷ []) 5))
    × ((insert_handle full_table two_handle).0 ≡ lookup_handle full_table (8 ∷ []) 9)
insert_handle_lem_example =
    insert_handle_lem full_table two_handle (7 ∷ []) 5 (omega arith) full_table-IsMap

remove_handle_lem_example :
    IsMap (remove_handle full_table (7 ∷ []) 5).1
    × (lookup_handle (remove_handle full_table (7 ∷ []) 5).1 (7 ∷ []) 5
        ≡ (if same_key (7 ∷ []) 5 (7 ∷ []) 5 then none else lookup_handle full_table (7 ∷ []) 5))
    × ((remove_handle full_table (7 ∷ []) 5).0 ≡ lookup_handle full_table (7 ∷ []) 5)
remove_handle_lem_example = remove_handle_lem full_table (7 ∷ []) 5 (7 ∷ []) 5 full_table-IsMap
