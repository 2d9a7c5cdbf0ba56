-- ===== src/CompactionWork/Examine.antt =====
-- What the questions of a round decide of an entry that parses.
use leveldb_windows.Base.{
  ℕ, suc, ◌≡◌, ◌≢◌, ◌<◌, ◌≤◌, ◌⊎◌, refl, ◌∙◌, ap, arith, Bool, true, false, not, some, Bytes, drop,
  leb, Bool-cases, inl, inr,
}
use leveldb_windows.Comparator.{Comparator, IsOrder}
use leveldb_windows.DbFormat.{ParsedInternalKey, type_deletion, parse_internal_key}
use leveldb_windows.Version.Levels.{Levels}
use leveldb_windows.Compaction.{Compaction, should_stop_before}
use leveldb_windows.Compaction.BaseLevel.{IsReady, holds_key, is_base_level_for_key_lem}
use leveldb_windows.Compaction.Places.{
  SameLevels, is_base_level_for_key-SameLevels, should_stop_before-SameLevels,
}
use leveldb_windows.CompactionWork.{Seen, Verdict, last_for, obsolete_marker, drop_entry, examine}
use leveldb_windows.DbIter.Forward.{ValueType-cases}
use Prim.Native.Nat.{gt}
use mathlib.Core.Path.{subst}

-- The levels below the output.
abbrev pub deeper : Compaction → Levels
deeper c = drop (suc (suc c.level)) c.input_levels

module _ (user : Comparator) where
  -- The places stay ready for the key.
  IsReady-same :
      (c d : Compaction) (key : Bytes)
      → SameLevels c d
      → d.level_ptrs ≡ c.level_ptrs
      → IsReady user c key
      → IsReady user d key
  IsReady-same c d key (e, f) g r = rw (e, f, g) r

  -- Why an entry is dropped, or that it is not.
  abbrev pub Reason : ℕ → Levels → ℕ → ParsedInternalKey → Bool → Type 0
  Reason smallest levels last p dropped =
      ((last ≤ smallest) × (dropped ≡ true))
      ⊎ ((smallest < last)
          × (((dropped ≡ true)
                × (p.type ≡ type_deletion)
                × (p.sequence ≤ smallest)
                × (holds_key user levels p.user_key ≡ false))
              ⊎ (dropped ≡ false)))

  abbrev pub seen_at : ParsedInternalKey → Seen
  seen_at p = record { current_user_key = some p.user_key; last_sequence_for_key = p.sequence }

module _ (user : Comparator) (order : IsOrder user) (smallest : ℕ) where
  -- What the compaction is afterwards, for later keys.
  abbrev pub Moves : Compaction → Compaction → Bytes → Type 0
  Moves c d key =
      SameLevels c d
      × ((later : Bytes)
          → user.compare_keys key later ≢ gt
          → IsReady user c later
          → IsReady user d later)

  obsolete_marker_lem :
      (c : Compaction) (p : ParsedInternalKey)
      → IsReady user c p.user_key
      → Moves c (obsolete_marker user smallest c p).1 p.user_key
        × (((obsolete_marker user smallest c p).0 ≡ false)
            ⊎ (((obsolete_marker user smallest c p).0 ≡ true)
                × (p.type ≡ type_deletion)
                × (p.sequence ≤ smallest)
                × (holds_key user (deeper c) p.user_key ≡ false)))
  unfolding obsolete_marker
  obsolete_marker_lem c p r =
      let still : Moves c c p.user_key = ((refl, refl), λ later h k. k) in
      let asked = is_base_level_for_key_lem user order c p.user_key r in
      let moved = is_base_level_for_key-SameLevels user c p.user_key in
      elim (ValueType-cases p.type) [
        | inr shown ↦ rw (shown, obsolete_marker) (still, inl refl)
        | inl deleted ↦ elim (Bool-cases (leb p.sequence smallest)) [
          | inr late ↦ rw (deleted, late, obsolete_marker) (still, inl refl)
          | inl early ↦
              rw (deleted, early, obsolete_marker)
                (
                  (moved, λ later h k. asked.1 later h),
                  elim (Bool-cases (holds_key user (deeper c) p.user_key)) [
                    | inl held ↦ inl (asked.0 ∙ ap not held)
                    | inr free ↦ inr (asked.0 ∙ ap not free, refl, ground arith, free)
                  ],
                )
        ]
      ]

  -- The round on an entry that parses: what it has seen then, where the compaction is, and why the
  -- entry is dropped or not.
  abbrev pub Decides : Compaction → Seen → ParsedInternalKey → Verdict → Type 0
  Decides c seen p v =
      (v.seen ≡ seen_at user p)
      × Moves c v.compaction p.user_key
      × Reason user smallest (deeper c) (last_for user smallest seen p.user_key) p v.dropped

  drop_entry_lem :
      (c : Compaction) (seen : Seen) (p : ParsedInternalKey)
      → IsReady user c p.user_key
      → ((drop_entry user smallest c seen (some p)).1 ≡ seen_at user p)
        × Moves c (drop_entry user smallest c seen (some p)).2 p.user_key
        × Reason user smallest
            (deeper c)
            (last_for user smallest seen p.user_key)
            p
            (drop_entry user smallest c seen (some p)).0
  unfolding drop_entry
  drop_entry_lem c seen p r =
      let (moves, why) = obsolete_marker_lem c p r in
      let last = last_for user smallest seen p.user_key in
      elim (Bool-cases (leb last smallest)) [
        | inl hidden ↦
            rw (hidden, drop_entry) (refl, ((refl, refl), λ later h k. k), inl (ground arith, refl))
        | inr open' ↦
            rw (open', drop_entry)
              (
                refl,
                moves,
                inr (ground arith, elim why [ inl stays ↦ inr stays | inr goes ↦ inl goes ]),
              )
      ]

  pub examine-Decides :
      (c : Compaction) (seen : Seen) (key : Bytes) (p : ParsedInternalKey)
      → parse_internal_key key ≡ some p
      → IsReady user c p.user_key
      → Decides c seen p (examine user smallest c seen key)
  unfolding examine
  examine-Decides c seen key p good r =
      let c' = (should_stop_before user c key).1 in
      let (same, ptrs) = should_stop_before-SameLevels user c key in
      let (saw, moves, why) =
        drop_entry_lem c' seen p (IsReady-same user c c' p.user_key same ptrs r) in
      let levels : deeper c' ≡ deeper c = rw (same.0, same.1) in
      rw (good, examine)
        (
          saw,
          (
            (moves.0.0 ∙ same.0, moves.0.1 ∙ same.1),
            λ later h k. moves.1 later h (IsReady-same user c c' later same ptrs k),
          ),
          subst
              (λ l.
                Reason user smallest l (last_for user smallest seen p.user_key) p
                  (drop_entry user smallest c' seen (some p)).0)
              levels why,
        )
