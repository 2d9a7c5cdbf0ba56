-- ===== src/CompactionWork/Outputs.antt =====
-- LevelDB/db/db_impl.cc, DBImpl::DoCompactionWork: the entries in the output files and in the
-- builder.
use leveldb_windows.Base.{
  ℕ, ◌+◌, ◌≡◌, refl, ◌∙◌, ap, arith, Bool, true, false, Option, none, some, List, [], ◌∷◌, ◌++◌,
  leb, if◌then◌else◌, Bool-cases, inl, inr, append-nil, append_assoc,
}
use leveldb_windows.Status.{Status, ok_status, ok}
use leveldb_windows.Entries.{Entry}
use leveldb_windows.CompactionWork.{
  Verdict, Output, Work, Tables, then_ok, open_compaction_output_file,
  finish_compaction_output_file, add_to_output, close_before, open_for_entry, store_entry,
  place_entry,
}

abbrev pub files_entries : List Output → List Entry
files_entries [] = []
files_entries (o ∷ outputs) = files_entries outputs ++ o.file_entries

abbrev pub added_entries : Option (List Entry) → List Entry
added_entries none = []
added_entries (some added) = added

-- What the files hold, with what the builder was given.
abbrev pub written : Work → List Entry
written w = files_entries w.outputs ++ added_entries w.builder

-- The builder is for the last output, whose file is not finished.
abbrev pub IsOpenFor : Option (List Entry) → List Output → Type 0
IsOpenFor none outputs = Unit {0}
IsOpenFor (some added) [] = ⊥
IsOpenFor (some added) (o ∷ outputs) = o.file_entries ≡ []

abbrev pub IsTidy : Work → Type 0
IsTidy w = IsOpenFor w.builder w.outputs

-- A step that writes the entries.
abbrev pub Writes : Work → Work → List Entry → Type 0
Writes w w' entries = IsTidy w' × (written w' ≡ written w ++ entries)

module _ (tables : Tables) where
  pub then_ok_lem :
      (r : Status × Work) (step : Work → Status × Work)
      → ok (then_ok tables r step).0 ≡ true
      → (ok r.0 ≡ true) × (then_ok tables r step ≡ step r.1)
  then_ok_lem (ok_status, w) step h = (refl, refl)
  then_ok_lem (Status.not_found s, w) step h = absurd (cc)
  then_ok_lem (Status.corruption s, w) step h = absurd (cc)
  then_ok_lem (Status.not_supported s, w) step h = absurd (cc)
  then_ok_lem (Status.invalid_argument s, w) step h = absurd (cc)
  then_ok_lem (Status.io_error s, w) step h = absurd (cc)

  -- The steps, on the fields of the work.
  abbrev pub fields : ℕ → List ℕ → List Output → Option (List Entry) → ℕ → Work
  fields n pending outputs builder total = record {
    next_file_number = n;
    pending_outputs = pending;
    outputs = outputs;
    builder = builder;
    total_bytes = total;
  }

  pub finish-Writes :
      (s : Status) (n : ℕ) (pending : List ℕ) (o : Output) (outputs : List Output)
      (added : List Entry) (total : ℕ)
      → o.file_entries ≡ []
      → Writes
          (fields n pending (o ∷ outputs) (some added) total)
          (finish_compaction_output_file tables s added
            (fields n pending (o ∷ outputs) (some added) total)).1
          []
  unfolding finish_compaction_output_file
  finish-Writes s n pending o outputs added total e = (tt, simp (e, append-nil))

  close-Writes :
      (s : Status) (stop : Bool) (n : ℕ) (pending : List ℕ) (outputs : List Output)
      (builder : Option (List Entry)) (total : ℕ)
      → IsOpenFor builder outputs
      → Writes
          (fields n pending outputs builder total)
          (close_before tables s stop (fields n pending outputs builder total)).1
          []
  unfolding close_before
  close-Writes s stop n pending outputs none total tidy = (tt, simp append-nil)
  close-Writes s stop n pending [] (some added) total tidy = absurd tidy
  close-Writes s true n pending (o ∷ outputs) (some added) total tidy =
      finish-Writes s n pending o outputs added total tidy
  close-Writes s false n pending (o ∷ outputs) (some added) total tidy = (tidy, simp append-nil)

  store-Writes :
      (s : Status) (limit : ℕ) (e : Entry) (n : ℕ) (pending : List ℕ) (o : Output)
      (outputs : List Output) (added : List Entry) (total : ℕ)
      → o.file_entries ≡ []
      → Writes
          (fields n pending (o ∷ outputs) (some added) total)
          (store_entry tables s limit e (fields n pending (o ∷ outputs) (some added) total)).1
          (e ∷ [])
  unfolding store_entry add_to_output finish_compaction_output_file
  store-Writes s limit e n pending o outputs added total h =
      elim (Bool-cases (leb limit (tables.table_size (added ++ (e ∷ []))))) [
        | inl full ↦ rw (full, store_entry) (tt, simp (h, append-nil, append_assoc))
        | inr room ↦ rw (room, store_entry) (h, simp (h, append-nil, append_assoc))
      ]

  abbrev empty_output : ℕ → Output
  empty_output n = record {
    number = n;
    file_size = 0;
    smallest = [];
    largest = [];
    file_entries = [];
  }

  open_made :
      (n : ℕ) (pending : List ℕ) (outputs : List Output) (total : ℕ)
      → ok (open_compaction_output_file tables (fields n pending outputs none total)).0 ≡ true
      → (open_compaction_output_file tables (fields n pending outputs none total)).1
        ≡ fields (n + 1) (n ∷ pending) (empty_output n ∷ outputs) (some []) total
  unfolding open_compaction_output_file
  open_made n pending outputs total h = elim (Bool-cases (ok (tables.create n))) [
    | inl made ↦ rw (made, open_compaction_output_file)
    | inr failed ↦ absurd (ground arith)
  ]

  -- The builder is there once the file is open.
  open_store-Writes :
      (s : Status) (limit : ℕ) (e : Entry) (n : ℕ) (pending : List ℕ) (outputs : List Output)
      (builder : Option (List Entry)) (total : ℕ)
      → IsOpenFor builder outputs
      → ok
          (then_ok tables
            (open_for_entry tables (fields n pending outputs builder total))
            (store_entry tables s limit e)).0
        ≡ true
      → Writes
          (fields n pending outputs builder total)
          (then_ok tables
            (open_for_entry tables (fields n pending outputs builder total))
            (store_entry tables s limit e)).1
          (e ∷ [])
  unfolding open_for_entry open_compaction_output_file
  open_store-Writes s limit e n pending [] (some added) total tidy h = absurd tidy
  open_store-Writes s limit e n pending (o ∷ outputs) (some added) total tidy h =
      store-Writes s limit e n pending o outputs added total tidy
  open_store-Writes s limit e n pending outputs none total tidy h =
      let opened = fields n pending outputs none total in
      let (made, goes) =
        then_ok_lem (open_compaction_output_file tables opened) (store_entry tables s limit e) h in
      let ready = fields (n + 1) (n ∷ pending) (empty_output n ∷ outputs) (some []) total in
      let stored =
        store-Writes s limit e (n + 1) (n ∷ pending) (empty_output n) outputs [] total refl in
      rw (goes, open_made n pending outputs total made) (stored.0, stored.1 ∙ simp append-nil)

  -- A round that goes on writes its entry, or nothing where the entry is dropped.
  pub place_entry-Writes :
      (s : Status) (limit : ℕ) (v : Verdict) (e : Entry) (w : Work)
      → IsTidy w
      → ok (place_entry tables s limit v e w).0 ≡ true
      → Writes w (place_entry tables s limit v e w).1 (if v.dropped then [] else e ∷ [])
  unfolding place_entry
  place_entry-Writes s limit v e w tidy h =
      let (shut, goes) =
        then_ok_lem (close_before tables s v.stop_before w)
          (λ closed.
            if v.dropped
            then (ok_status, closed)
            else then_ok tables (open_for_entry tables closed) (store_entry tables s limit e))
          h in
      let closed = (close_before tables s v.stop_before w).1 in
      let (tidy', same) =
        close-Writes s v.stop_before w.next_file_number w.pending_outputs w.outputs w.builder
          w.total_bytes tidy in
      let h' : ok
            (if v.dropped
              then (ok_status, closed)
              else then_ok tables (open_for_entry tables closed) (store_entry tables s limit e)).0
          ≡ true =
        rw goes at h in
      rw goes (elim (Bool-cases v.dropped) [
        | inl gone ↦ rw gone (tidy', same)
        | inr stays ↦
            let h'' : ok
                  (then_ok tables (open_for_entry tables closed) (store_entry tables s limit e)).0
                ≡ true =
              rw stays at h' in
            let (tidy'', more) =
              open_store-Writes s limit e closed.next_file_number closed.pending_outputs
                closed.outputs closed.builder closed.total_bytes tidy' h'' in
            rw stays (
              tidy'',
              more ∙ ap (λ (l : List Entry). l ++ (e ∷ [])) (same ∙ append-nil (written w)),
            )
      ])
