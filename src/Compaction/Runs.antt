-- ===== src/Compaction/Runs.antt =====
-- A compaction at concrete files.
use leveldb_windows.Base.{All, ◌≡◌, ◌≢◌, refl, arith, not, [], ◌∷◌, Bytes, drop}
use leveldb_windows.Comparator.{Comparator, bytewise_comparator}
use leveldb_windows.Comparator.Shorten.{bytewise-IsOrder}
use leveldb_windows.Slice.{slice_compare}
use leveldb_windows.Coding.{encode_fixed64}
use leveldb_windows.DbFormat.{ParsedInternalKey, type_value, internal_compare, extract_user_key}
use leveldb_windows.DbFormat.Keys.{internal_key}
use leveldb_windows.VersionEdit.{FileMetaData, new_file}
use leveldb_windows.Version.Levels.{Levels}
use leveldb_windows.Compaction.{Compaction, new_compaction, is_base_level_for_key}
use leveldb_windows.Compaction.BaseLevel.{IsReady, holds_key, is_base_level_for_key_lem}
use leveldb_windows.Compaction.Inputs.{get_range2}
use leveldb_windows.Compaction.Inputs.Range.{Covers, NotBelow, get_range2_minimal}
use Prim.Native.Nat.{lt, gt}

abbrev user : Comparator
user = bytewise_comparator

abbrev key : Bytes → ParsedInternalKey
key u = record { user_key = u; sequence = 4; type = type_value }

abbrev deep : FileMetaData
deep = new_file 7 1000 (internal_key (key (b'f' ∷ []))) (internal_key (key (b'k' ∷ [])))

abbrev levels : Levels
levels = [] ∷ [] ∷ (deep ∷ []) ∷ []

abbrev started : Compaction
started = record (new_compaction 0 levels) { level_ptrs = 0 ∷ 0 ∷ 0 ∷ 0 ∷ 0 ∷ 0 ∷ 0 ∷ [] }

deep_in_order : internal_compare user deep.smallest deep.largest ≡ lt
unfolding internal_compare extract_user_key slice_compare encode_fixed64
deep_in_order = refl

started-IsReady : (key : Bytes) → IsReady user started key
unfolding new_compaction
started-IsReady wanted = (omega arith, ((λ e. cc (deep_in_order, e), tt, tt), tt, tt))

is_base_level_for_key_lem_example :
    ((is_base_level_for_key user started (b'd' ∷ [])).0
      ≡ not (holds_key user (drop 2 started.input_levels) (b'd' ∷ [])))
    × ((later : Bytes)
        → user.compare_keys (b'd' ∷ []) later ≢ gt
        → IsReady user (is_base_level_for_key user started (b'd' ∷ [])).1 later)
unfolding new_compaction
is_base_level_for_key_lem_example =
    is_base_level_for_key_lem user bytewise-IsOrder started (b'd' ∷ [])
      (started-IsReady (b'd' ∷ []))

abbrev wide : FileMetaData
wide = new_file 9 1000 (internal_key (key (b'b' ∷ []))) (internal_key (key (b'z' ∷ [])))

get_range2_minimal_example :
    All (Covers user (get_range2 user (deep ∷ []) (wide ∷ []))) (deep ∷ wide ∷ [])
    × ((start limit : Bytes)
        → All (Covers user (start, limit)) (deep ∷ wide ∷ [])
        → NotBelow user (get_range2 user (deep ∷ []) (wide ∷ [])).0 start
          × NotBelow user limit (get_range2 user (deep ∷ []) (wide ∷ [])).1)
get_range2_minimal_example = get_range2_minimal user bytewise-IsOrder deep [] (wide ∷ [])
