-- ===== src/CompactionWork/Reads.antt =====
-- LevelDB/db/db_impl.cc, DBImpl::DoCompactionWork: the entries that are not dropped, as a reader
-- finds them.
use leveldb_windows.Base.{
  ℕ, ◌≡◌, ◌≢◌, ◌<◌, ◌≤◌, refl, sym, ◌∙◌, Bool, true, false, Option, none, some, List, [], ◌∷◌,
  Bytes, All, leb, if◌then◌else◌, Bool-cases, inl, inr,
}
use leveldb_windows.Comparator.{Comparator, IsOrder}
use leveldb_windows.DbFormat.{ParsedInternalKey, parse_internal_key, max_sequence_number}
use leveldb_windows.Version.Levels.{Levels}
use leveldb_windows.Entries.{Entry, is_eq, newest, Follows, InOrder}
use leveldb_windows.Compaction.{Compaction}
use leveldb_windows.Compaction.BaseLevel.{IsReady}
use leveldb_windows.CompactionWork.{Seen, Verdict, last_for, examine}
use leveldb_windows.CompactionWork.Examine.{deeper, seen_at, Reason, examine-Decides}
use leveldb_windows.CompactionWork.Keep.{
  keep_entries, is_hidden, seen_key, ReadsAlike, Agrees, same_key_round, other_in_front,
  hidden_last, number_falls, hidden_above,
}
use Prim.Native.Nat.{gt}
use mathlib.Core.Path.{subst}

abbrev pub Parses : Entry → Type 0
Parses e = (p : ParsedInternalKey) × (parse_internal_key e.0 ≡ some p)

module _ (user : Comparator) where
  abbrev pub ReadyFor : Compaction → Option ParsedInternalKey → Type 0
  ReadyFor c none = Unit {0}
  ReadyFor c (some p) = IsReady user c p.user_key

  ready_later :
      (c d : Compaction) (p : ParsedInternalKey) (o : Option ParsedInternalKey)
      → ((later : Bytes)
          → user.compare_keys p.user_key later ≢ gt
          → IsReady user c later
          → IsReady user d later)
      → Follows user (some p) o
      → ReadyFor c o
      → ReadyFor d o
  ready_later c d p none moves follows r = tt
  ready_later c d p (some q) moves follows r = moves q.user_key follows.0 r

  all_ready_later :
      (c d : Compaction) (p : ParsedInternalKey) (entries : List Entry)
      → ((later : Bytes)
          → user.compare_keys p.user_key later ≢ gt
          → IsReady user c later
          → IsReady user d later)
      → All (λ e. Follows user (some p) (parse_internal_key e.0)) entries
      → All (λ e. ReadyFor c (parse_internal_key e.0)) entries
      → All (λ e. ReadyFor d (parse_internal_key e.0)) entries
  all_ready_later c d p [] moves follows r = tt
  all_ready_later c d p (e ∷ entries) moves follows r = (
    ready_later c d p (parse_internal_key e.0) moves follows.0 r.0,
    all_ready_later c d p entries moves follows.1 r.1,
  )

  Follows-seen :
      (p : ParsedInternalKey) (o : Option ParsedInternalKey)
      → Follows user (some p) o
      → Follows user (seen_key (seen_at user p)) o
  Follows-seen p none h = tt
  Follows-seen p (some q) h = h

  all_follow_seen :
      (p : ParsedInternalKey) (entries : List Entry)
      → All (λ e. Follows user (some p) (parse_internal_key e.0)) entries
      → All (λ e. Follows user (seen_key (seen_at user p)) (parse_internal_key e.0)) entries
  all_follow_seen p [] h = tt
  all_follow_seen p (e ∷ entries) h =
      (Follows-seen p (parse_internal_key e.0) h.0, all_follow_seen p entries h.1)

module _ (user : Comparator) (order : IsOrder user) (smallest sequence : ℕ)
    (served : smallest ≤ sequence) (bounded : smallest < max_sequence_number) (w : Bytes) where
  Agrees-congr :
      (levels : Levels) (hidden : Bool) (kept entries kept' entries' : List Entry)
      → newest user sequence w kept' ≡ newest user sequence w kept
      → newest user sequence w entries' ≡ newest user sequence w entries
      → Agrees user sequence levels w hidden kept entries
      → Agrees user sequence levels w hidden kept' entries'
  Agrees-congr levels true kept entries kept' entries' e f h = e ∙ h
  Agrees-congr levels false kept entries kept' entries' e f (inl same) = inl (e ∙ same ∙ sym f)
  Agrees-congr levels false kept entries kept' entries' e f (inr ((v, gone), none_kept, free)) =
      inr ((v, f ∙ gone), e ∙ none_kept, free)

  -- One round, from what holds of the rest.
  round-Agrees :
      (levels : Levels) (seen : Seen) (v : Verdict) (e : Entry) (entries kept : List Entry)
      (p : ParsedInternalKey)
      → parse_internal_key e.0 ≡ some p
      → Follows user (seen_key seen) (some p)
      → All (λ d. Follows user (some p) (parse_internal_key d.0)) entries
      → Reason user smallest levels (last_for user smallest seen p.user_key) p v.dropped
      → Agrees user sequence levels w (is_hidden user smallest (seen_at user p) w) kept entries
      → Agrees user sequence levels w
          (is_hidden user smallest seen w)
          (if v.dropped then kept else e ∷ kept)
          (e ∷ entries)
  round-Agrees levels seen v e entries kept p good follows above why rest =
      elim (Bool-cases (is_eq (user.compare_keys p.user_key w))) [
        | inl same ↦
            let rest' : Agrees user sequence levels w (leb p.sequence smallest) kept entries =
              rw same at rest in
            rw (hidden_last user order smallest sequence served bounded w seen p same) (
              same_key_round user order smallest sequence served bounded w levels e entries kept p
                (last_for user smallest seen p.user_key) v.dropped good same
                (number_falls user order smallest sequence served bounded w seen p follows) why
                rest')
        | inr other ↦
            let rest' : ReadsAlike user sequence levels w kept entries = rw other at rest in
            let (all_same, kept_same) =
              other_in_front user order smallest sequence served bounded w e entries kept p
                v.dropped good other in
            Agrees-congr levels (is_hidden user smallest seen w) kept entries
              (if v.dropped then kept else e ∷ kept) (e ∷ entries) kept_same all_same
              (hidden_above user order smallest sequence served bounded w levels seen p kept entries
                follows other above rest')
      ]

  pub keep_entries-Agrees :
      (levels : Levels) (c : Compaction) (seen : Seen) (entries : List Entry)
      → deeper c ≡ levels
      → All Parses entries
      → InOrder user entries
      → All (λ d. Follows user (seen_key seen) (parse_internal_key d.0)) entries
      → All (λ d. ReadyFor user c (parse_internal_key d.0)) entries
      → Agrees user sequence levels w
          (is_hidden user smallest seen w)
          (keep_entries user smallest c seen entries)
          entries
  unfolding keep_entries newest
  keep_entries-Agrees levels c seen [] deep parses sorted follows ready =
      elim (Bool-cases (is_hidden user smallest seen w)) [
        | inl hidden ↦ rw hidden
        | inr open' ↦ rw open' (inl refl)
      ]
  keep_entries-Agrees levels c seen (e ∷ entries) deep ((p, good), parses) sorted follows ready =
      let v = examine user smallest c seen e.0 in
      let above =
        subst (λ o. All (λ d. Follows user o (parse_internal_key d.0)) entries) good sorted.0 in
      let (saw, moves, why) =
        examine-Decides user order smallest c seen e.0 p good
          (subst (ReadyFor user c) good ready.0) in
      let deep' : deeper v.compaction ≡ levels = rw (moves.0.0, moves.0.1) deep in
      let rest =
        keep_entries-Agrees levels v.compaction (seen_at user p) entries deep' parses sorted.1
          (all_follow_seen user p entries above)
          (all_ready_later user c v.compaction p entries moves.1 above ready.1) in
      let rest' =
        subst
          (λ (s : Seen).
            Agrees user sequence levels w (is_hidden user smallest (seen_at user p) w)
              (keep_entries user smallest v.compaction s entries) entries)
          (sym saw) rest in
      round-Agrees levels seen v e entries (keep_entries user smallest v.compaction v.seen entries)
        p good (subst (Follows user (seen_key seen)) good follows.0) above
        (subst (λ l. Reason user smallest l (last_for user smallest seen p.user_key) p v.dropped)
          deep why)
        rest'
