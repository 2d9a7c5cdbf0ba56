-- ===== src/CompactionWork/Result.antt =====
-- LevelDB/db/db_impl.cc, DBImpl::DoCompactionWork: the entries of the output files, and what readers at
-- the smallest snapshot or a later number find in them.
use leveldb_windows.Base.{
  ℕ, suc, ◌≡◌, ◌<◌, ◌≤◌, refl, sym, ◌∙◌, ap, Bool, true, false, Option, none, some, List, [], ◌∷◌,
  ◌++◌, Bytes, All, length, if◌then◌else◌, Bool-cases, inl, inr, append-nil, append_assoc,
}
use leveldb_windows.Comparator.{Comparator, IsOrder}
use leveldb_windows.Status.{Status, ok}
use leveldb_windows.DbFormat.{max_sequence_number, parse_internal_key}
use leveldb_windows.Entries.{Entry, InOrder}
use leveldb_windows.Compaction.{Compaction}
use leveldb_windows.Compaction.BaseLevel.{IsReady}
use leveldb_windows.CompactionWork.{
  Seen, Output, Work, Tables, examine, then_ok, place_entry, work_loop, finish_last,
  finish_compaction_output_file, do_compaction_work, nothing_seen,
}
use leveldb_windows.CompactionWork.Examine.{deeper}
use leveldb_windows.CompactionWork.Keep.{keep_entries, ReadsAlike, seen_key}
use leveldb_windows.CompactionWork.Outputs.{
  IsTidy, Writes, written, files_entries, then_ok_lem, fields, place_entry-Writes,
}
use leveldb_windows.CompactionWork.Reads.{Parses, ReadyFor, keep_entries-Agrees}
use leveldb_windows.Entries.{Follows}

-- Work that has not begun.
abbrev pub fresh_work : ℕ → List ℕ → Work
fresh_work n pending = record {
  next_file_number = n;
  pending_outputs = pending;
  outputs = [];
  builder = none;
  total_bytes = 0;
}

module _ (tables : Tables) (user : Comparator) (smallest : ℕ) (shutting_down : ℕ → Bool) where
  kept_first :
      (dropped : Bool) (e : Entry) (front rest : List Entry)
      → (front ++ (if dropped then [] else e ∷ [])) ++ rest
        ≡ front ++ (if dropped then rest else e ∷ rest)
  kept_first true e front rest = simp append-nil
  kept_first false e front rest = simp append_assoc

  -- The loop, where it comes to the end of the entries.
  work_loop-Writes :
      (s : Status) (c : Compaction) (seen : Seen) (w : Work) (entries : List Entry)
      → IsTidy w
      → ok (work_loop tables user smallest shutting_down s c seen w entries).0 ≡ true
      → Writes w
          (work_loop tables user smallest shutting_down s c seen w entries).1
          (keep_entries user smallest c seen entries)
  unfolding work_loop keep_entries
  work_loop-Writes s c seen w [] tidy h = (tidy, sym (append-nil (written w)))
  work_loop-Writes s c seen w (e ∷ entries) tidy h =
      let v = examine user smallest c seen e.0 in
      let placed = place_entry tables s c.max_output_file_size v e w in
      elim (Bool-cases (shutting_down (suc (length entries)))) [
        | inl stop ↦ let h' = rw stop at h in absurd (cc)
        | inr runs ↦ elim (Bool-cases (ok placed.0)) [
          | inr failed ↦ let h' = rw (runs, failed) at h in absurd (cc)
          | inl good ↦
              let h' = rw (runs, good) at h in
              let (tidy', one) =
                place_entry-Writes tables s c.max_output_file_size v e w tidy good in
              let (tidy'', more) =
                work_loop-Writes s v.compaction v.seen placed.1 entries tidy' h' in
              rw (runs, good)
                (
                  tidy'',
                  more
                      ∙ ap
                          (λ (l : List Entry).
                            l ++ keep_entries user smallest v.compaction v.seen entries)
                          one
                      ∙ kept_first v.dropped e (written w)
                          (keep_entries user smallest v.compaction v.seen entries),
                )
        ]
      ]

  finish_fields :
      (s : Status) (n : ℕ) (pending : List ℕ) (outputs : List Output)
      (builder : Option (List Entry)) (total : ℕ)
      → IsTidy (fields tables n pending outputs builder total)
      → files_entries
          (finish_last tables s (fields tables n pending outputs builder total)).1.outputs
        ≡ written (fields tables n pending outputs builder total)
  unfolding finish_last finish_compaction_output_file
  finish_fields s n pending outputs none total tidy = sym (append-nil (files_entries outputs))
  finish_fields s n pending [] (some added) total tidy = absurd tidy
  finish_fields s n pending (o ∷ outputs) (some added) total tidy = simp (tidy, append-nil)

  -- Where the work succeeds, the output files hold the entries that are kept, in order.
  pub do_compaction_work_outputs :
      (s : Status) (c : Compaction) (n : ℕ) (pending : List ℕ) (entries : List Entry)
      → ok
          (do_compaction_work tables user smallest shutting_down s c
            (fresh_work n pending)
            entries).0
        ≡ true
      → files_entries
          (do_compaction_work tables user smallest shutting_down s c
            (fresh_work n pending)
            entries).1.outputs
        ≡ keep_entries user smallest c nothing_seen entries
  unfolding do_compaction_work
  do_compaction_work_outputs s c n pending entries h =
      let looped =
        work_loop tables user smallest shutting_down s c nothing_seen (fresh_work n pending)
          entries in
      let (worked, goes) =
        then_ok_lem tables looped
          (λ w. then_ok tables (finish_last tables s w) (λ finished. (s, finished))) h in
      let h' : ok (then_ok tables (finish_last tables s looped.1) (λ finished. (s, finished))).0
          ≡ true =
        rw goes at h in
      let (finished, ends) =
        then_ok_lem tables (finish_last tables s looped.1) (λ finished. (s, finished)) h' in
      let (tidy, all) =
        work_loop-Writes s c nothing_seen (fresh_work n pending) entries tt worked in
      let w = looped.1 in
      rw (goes, ends)
        (finish_fields s w.next_file_number w.pending_outputs w.outputs w.builder w.total_bytes tidy
          ∙ all)

module _ (tables : Tables) (user : Comparator) (order : IsOrder user) (smallest : ℕ)
    (shutting_down : ℕ → Bool) where
  all_ready :
      (c : Compaction) (entries : List Entry)
      → ((key : Bytes) → IsReady user c key)
      → All (λ d. ReadyFor user c (parse_internal_key d.0)) entries
  all_ready c [] r = tt
  all_ready c (e ∷ entries) r = (
    elim (parse_internal_key e.0) as (λ o. ReadyFor user c o) [ none ↦ tt | some p ↦ r p.user_key ],
    all_ready c entries r,
  )

  all_follow :
      (entries : List Entry)
      → All (λ d. Follows user (seen_key nothing_seen) (parse_internal_key d.0)) entries
  all_follow [] = tt
  all_follow (e ∷ entries) = (tt, all_follow entries)

  -- Where a compaction of entries in order, which all parse, ends well, its output files hold the same
  -- for every reader at the smallest snapshot or a later number: of each user key it finds in them
  -- what it found in the inputs, or it finds nothing where it found a deletion and no file of a level
  -- below the output holds a range with the key. The levels below the output hold files that are
  -- disjoint and in order, the compaction's places in them are ready for every key, and the smallest
  -- snapshot is below the largest sequence number.
  pub do_compaction_work-ReadsAlike :
      (s : Status) (c : Compaction) (n : ℕ) (pending : List ℕ) (entries : List Entry) (sequence : ℕ)
      (key : Bytes)
      → ok
          (do_compaction_work tables user smallest shutting_down s c
            (fresh_work n pending)
            entries).0
        ≡ true
      → ((u : Bytes) → IsReady user c u)
      → All Parses entries
      → InOrder user entries
      → smallest ≤ sequence
      → smallest < max_sequence_number
      → ReadsAlike user sequence
          (deeper c)
          key
          (files_entries
            (do_compaction_work tables user smallest shutting_down s c
              (fresh_work n pending)
              entries).1.outputs)
          entries
  do_compaction_work-ReadsAlike s c n pending entries sequence key good ready parses sorted served
        bounded =
      rw (do_compaction_work_outputs tables user smallest shutting_down s c n pending entries good)
        (keep_entries-Agrees user order smallest sequence served bounded key (deeper c) c
          nothing_seen entries refl parses sorted (all_follow entries) (all_ready c entries ready))
