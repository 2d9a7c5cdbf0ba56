-- ===== src/Compaction/Places.antt =====
-- LevelDB/db/version_set.cc: the levels and places of a compaction behind a question to it.
use leveldb_windows.Base.{◌≡◌, refl, arith, Bytes}
use leveldb_windows.Comparator.{Comparator}
use leveldb_windows.Compaction.{Compaction, is_base_level_for_key, should_stop_before}

-- The two compactions are at the same level of the same files.
abbrev pub SameLevels : Compaction → Compaction → Type 0
SameLevels c d = (d.level ≡ c.level) × (d.input_levels ≡ c.input_levels)

module _ (user : Comparator) where
  pub is_base_level_for_key-SameLevels :
      (c : Compaction) (key : Bytes) → SameLevels c (is_base_level_for_key user c key).1
  unfolding is_base_level_for_key
  is_base_level_for_key-SameLevels c key = (refl, refl)

  pub should_stop_before-SameLevels :
      (c : Compaction) (key : Bytes)
      → SameLevels c (should_stop_before user c key).1
        × ((should_stop_before user c key).1.level_ptrs ≡ c.level_ptrs)
  unfolding should_stop_before
  should_stop_before-SameLevels c key = ground arith
