-- ===== src/CompactionWork/Runs.antt =====
-- A compaction of concrete entries.
use leveldb_windows.Base.{◌≡◌, refl, arith, true, false, none, [], ◌∷◌, Bytes, All, length}
use leveldb_windows.Comparator.Shorten.{bytewise-IsOrder}
use leveldb_windows.Slice.{slice_compare}
use leveldb_windows.Coding.{encode_fixed64}
use leveldb_windows.Status.{ok_status, ok}
use leveldb_windows.DbFormat.{internal_compare, extract_user_key}
use leveldb_windows.DbFormat.Keys.{internal_key}
use leveldb_windows.VersionEdit.{FileMetaData, new_file}
use leveldb_windows.Version.Levels.{Levels}
use leveldb_windows.Entries.Samples.{
  user, entries, deleted_key, old_key, first_key, last_key, parse_deleted, parse_old, parse_first,
  parse_last, entries-InOrder,
}
use leveldb_windows.Compaction.{Compaction, new_compaction}
use leveldb_windows.Compaction.BaseLevel.{IsReady}
use leveldb_windows.CompactionWork.{Tables, do_compaction_work, nothing_seen}
use leveldb_windows.CompactionWork.Examine.{deeper}
use leveldb_windows.CompactionWork.Keep.{ReadsAlike, keep_entries}
use leveldb_windows.CompactionWork.Outputs.{files_entries}
use leveldb_windows.CompactionWork.Reads.{Parses}
use leveldb_windows.CompactionWork.Ends.{do_compaction_work_ends}
use leveldb_windows.CompactionWork.Result.{fresh_work, do_compaction_work-ReadsAlike}
use Prim.Native.Nat.{lt}

abbrev deep : FileMetaData
deep = new_file 7 1000 (internal_key first_key) (internal_key last_key)

abbrev levels : Levels
levels = [] ∷ [] ∷ (deep ∷ []) ∷ []

abbrev started : Compaction
started = record (new_compaction 0 levels) { level_ptrs = 0 ∷ 0 ∷ 0 ∷ 0 ∷ 0 ∷ 0 ∷ 0 ∷ [] }

abbrev tables : Tables
tables = record {
  create = λ n. ok_status;
  table_size = λ added. length added;
  finish = λ n added. ok_status;
}

deep_in_order : internal_compare user deep.smallest deep.largest ≡ lt
unfolding internal_compare extract_user_key slice_compare encode_fixed64
deep_in_order = refl

started-IsReady : (key : Bytes) → IsReady user started key
unfolding new_compaction
started-IsReady wanted = (omega arith, ((λ e. cc (deep_in_order, e), tt, tt), tt, tt))

entries-Parses : All Parses entries
entries-Parses = (
  (deleted_key, parse_deleted),
  ((old_key, parse_old), ((first_key, parse_first), ((last_key, parse_last), tt))),
)

succeeds :
    ok
      (do_compaction_work tables user 8 (λ n. false) ok_status started (fresh_work 12 []) entries).0
    ≡ true
succeeds =
    (do_compaction_work_ends tables user 8 (λ n. false) ok_status started 12 [] entries (λ n. refl)
      (λ n added. refl) refl (λ n. refl)).0

do_compaction_work-ReadsAlike_example :
    ReadsAlike user 8
      (deeper started)
      (b'a' ∷ [])
      (files_entries
        (do_compaction_work tables user 8
          (λ n. false)
          ok_status
          started
          (fresh_work 12 [])
          entries).1.outputs)
      entries
do_compaction_work-ReadsAlike_example =
    do_compaction_work-ReadsAlike tables user bytewise-IsOrder 8 (λ n. false) ok_status started 12
      [] entries 8 (b'a' ∷ []) succeeds started-IsReady entries-Parses entries-InOrder (omega arith)
      (omega arith)

do_compaction_work_ends_example :
    (ok
        (do_compaction_work tables user 3
          (λ n. false)
          ok_status
          started
          (fresh_work 12 [])
          entries).0
      ≡ true)
    × (files_entries
          (do_compaction_work tables user 3
            (λ n. false)
            ok_status
            started
            (fresh_work 12 [])
            entries).1.outputs
        ≡ keep_entries user 3 started nothing_seen entries)
    × ((do_compaction_work tables user 3
          (λ n. false)
          ok_status
          started
          (fresh_work 12 [])
          entries).1.builder
        ≡ none)
do_compaction_work_ends_example =
    do_compaction_work_ends tables user 3 (λ n. false) ok_status started 12 [] entries (λ n. refl)
      (λ n added. refl) refl (λ n. refl)
