-- ===== src/CompactionWork/Ends.antt =====
-- LevelDB/db/db_impl.cc, DBImpl::DoCompactionWork: its end where nothing that it depends on fails.
use leveldb_windows.Base.{
  ℕ, suc, ◌≡◌, Bool, true, false, none, List, [], ◌∷◌, ◌++◌, length, leb, Bool-cases, Option-cases,
  inl, inr,
}
use leveldb_windows.Comparator.{Comparator}
use leveldb_windows.Status.{Status, ok_status, ok}
use leveldb_windows.Entries.{Entry}
use leveldb_windows.Compaction.{Compaction}
use leveldb_windows.CompactionWork.Keep.{keep_entries}
use leveldb_windows.CompactionWork.Outputs.{files_entries, then_ok_lem}
use leveldb_windows.CompactionWork.Result.{fresh_work, do_compaction_work_outputs}
use leveldb_windows.CompactionWork.{
  Seen, Verdict, Work, Tables, examine, then_ok, finish_compaction_output_file,
  open_compaction_output_file, close_before, open_for_entry, store_entry, place_entry, work_loop,
  finish_last, do_compaction_work, nothing_seen,
}

module _ (tables : Tables) where
  then_ok_both :
      (r : Status × Work) (step : Work → Status × Work)
      → ok r.0 ≡ true
      → ((w : Work) → ok (step w).0 ≡ true)
      → ok (then_ok tables r step).0 ≡ true
  then_ok_both (ok_status, w) step h k = k w
  then_ok_both (Status.not_found s, w) step h k = h
  then_ok_both (Status.corruption s, w) step h k = h
  then_ok_both (Status.not_supported s, w) step h k = h
  then_ok_both (Status.invalid_argument s, w) step h k = h
  then_ok_both (Status.io_error s, w) step h k = h

module _ (tables : Tables) (user : Comparator) (smallest : ℕ) (shutting_down : ℕ → Bool)
    (s : Status) (creates : (n : ℕ) → ok (tables.create n) ≡ true)
    (finishes : (n : ℕ) (added : List Entry) → ok (tables.finish n added) ≡ true)
    (reads : ok s ≡ true) (runs : (n : ℕ) → shutting_down n ≡ false) where
  finish_ok :
      (added : List Entry) (w : Work) → ok (finish_compaction_output_file tables s added w).0 ≡ true
  unfolding finish_compaction_output_file
  finish_ok added w = rw (reads, finish_compaction_output_file) (finishes _ added)

  open_ok : (w : Work) → ok (open_compaction_output_file tables w).0 ≡ true
  unfolding open_compaction_output_file
  open_ok w =
      rw (creates w.next_file_number, open_compaction_output_file) (creates w.next_file_number)

  close_ok : (stop : Bool) (w : Work) → ok (close_before tables s stop w).0 ≡ true
  unfolding close_before
  close_ok stop w = elim (Option-cases w.builder) [
    | inl shut ↦ rw (shut, close_before)
    | inr (added, open') ↦ elim (Bool-cases stop) [
      | inl here ↦ rw (open', here, close_before) (finish_ok added w)
      | inr later ↦ rw (open', later, close_before)
    ]
  ]

  open_for_ok : (w : Work) → ok (open_for_entry tables w).0 ≡ true
  unfolding open_for_entry
  open_for_ok w = elim (Option-cases w.builder) [
    | inl shut ↦ rw (shut, open_for_entry) (open_ok w)
    | inr (added, open') ↦ rw (open', open_for_entry)
  ]

  store_ok : (limit : ℕ) (e : Entry) (w : Work) → ok (store_entry tables s limit e w).0 ≡ true
  unfolding store_entry
  store_ok limit e w = elim (Option-cases w.builder) [
    | inl shut ↦ rw (shut, store_entry)
    | inr (added, open') ↦ elim (Bool-cases (leb limit (tables.table_size (added ++ (e ∷ []))))) [
      | inl full ↦ rw (open', full, store_entry) (finish_ok (added ++ (e ∷ [])) _)
      | inr room ↦ rw (open', room, store_entry)
    ]
  ]

  place_ok :
      (limit : ℕ) (v : Verdict) (e : Entry) (w : Work)
      → ok (place_entry tables s limit v e w).0 ≡ true
  unfolding place_entry
  place_ok limit v e w =
      then_ok_both tables (close_before tables s v.stop_before w) _ (close_ok v.stop_before w)
        (λ closed. elim (Bool-cases v.dropped) [
          | inl gone ↦ rw gone
          | inr stays ↦ rw stays (
              then_ok_both tables (open_for_entry tables closed) (store_entry tables s limit e)
                (open_for_ok closed) (store_ok limit e))
        ])

  loop_ok :
      (c : Compaction) (seen : Seen) (w : Work) (entries : List Entry)
      → ok (work_loop tables user smallest shutting_down s c seen w entries).0 ≡ true
  unfolding work_loop
  loop_ok c seen w [] = rw (runs 0)
  loop_ok c seen w (e ∷ entries) =
      let v = examine user smallest c seen e.0 in
      rw (runs (suc (length entries)), place_ok c.max_output_file_size v e w)
        (loop_ok v.compaction v.seen (place_entry tables s c.max_output_file_size v e w).1 entries)

  last_ok : (w : Work) → ok (finish_last tables s w).0 ≡ true
  unfolding finish_last
  last_ok w = elim (Option-cases w.builder) [
    | inl shut ↦ rw (shut, finish_last)
    | inr (added, open') ↦ rw (open', finish_last) (finish_ok added w)
  ]

  work_ok :
      (c : Compaction) (w : Work) (entries : List Entry)
      → ok (do_compaction_work tables user smallest shutting_down s c w entries).0 ≡ true
  unfolding do_compaction_work
  work_ok c w entries =
      then_ok_both tables (work_loop tables user smallest shutting_down s c nothing_seen w entries)
        _ (loop_ok c nothing_seen w entries)
        (λ worked.
          then_ok_both tables (finish_last tables s worked) _ (last_ok worked) (λ finished. reads))

-- The last file is closed.
finish_last_closes :
    (tables : Tables) (s : Status) (w : Work) → (finish_last tables s w).1.builder ≡ none
unfolding finish_last finish_compaction_output_file
finish_last_closes tables s w = elim (Option-cases w.builder) [
  | inl shut ↦ rw (shut, finish_last) shut
  | inr (added, open') ↦ rw (open', finish_last)
]

module _ (tables : Tables) (user : Comparator) (smallest : ℕ) (shutting_down : ℕ → Bool)
    (s : Status) where
  -- Work that ends with success has closed its last file.
  do_compaction_work_closes :
      (c : Compaction) (w : Work) (entries : List Entry)
      → ok (do_compaction_work tables user smallest shutting_down s c w entries).0 ≡ true
      → (do_compaction_work tables user smallest shutting_down s c w entries).1.builder ≡ none
  unfolding do_compaction_work
  do_compaction_work_closes c w entries h =
      let looped = work_loop tables user smallest shutting_down s c nothing_seen w entries in
      let (worked, goes) =
        then_ok_lem tables looped
          (λ w'. then_ok tables (finish_last tables s w') (λ finished. (s, finished))) h in
      let h' : ok (then_ok tables (finish_last tables s looped.1) (λ finished. (s, finished))).0
          ≡ true =
        rw goes at h in
      let (finished, ends) =
        then_ok_lem tables (finish_last tables s looped.1) (λ finished. (s, finished)) h' in
      rw (goes, ends) (finish_last_closes tables s looped.1)

-- Where every file is created and finished, the input has no error and the database is not shut down,
-- the work of a compaction goes through all of its entries, whatever they are: it ends with success,
-- its output files hold exactly the entries that are not dropped, in order, and its last file is
-- finished.
pub do_compaction_work_ends :
    (tables : Tables) (user : Comparator) (smallest : ℕ) (shutting_down : ℕ → Bool) (s : Status)
    (c : Compaction) (n : ℕ) (pending : List ℕ) (entries : List Entry)
    → ((m : ℕ) → ok (tables.create m) ≡ true)
    → ((m : ℕ) (added : List Entry) → ok (tables.finish m added) ≡ true)
    → ok s ≡ true
    → ((m : ℕ) → shutting_down m ≡ false)
    → (ok
          (do_compaction_work tables user smallest shutting_down s c
            (fresh_work n pending)
            entries).0
        ≡ true)
      × (files_entries
            (do_compaction_work tables user smallest shutting_down s c
              (fresh_work n pending)
              entries).1.outputs
          ≡ keep_entries user smallest c nothing_seen entries)
      × ((do_compaction_work tables user smallest shutting_down s c
            (fresh_work n pending)
            entries).1.builder
          ≡ none)
do_compaction_work_ends tables user smallest shutting_down s c n pending entries creates finishes
      reads runs =
    let good =
      work_ok tables user smallest shutting_down s creates finishes reads runs c
        (fresh_work n pending) entries in
    (
      good,
      do_compaction_work_outputs tables user smallest shutting_down s c n pending entries good,
      do_compaction_work_closes tables user smallest shutting_down s c (fresh_work n pending)
          entries good,
    )
