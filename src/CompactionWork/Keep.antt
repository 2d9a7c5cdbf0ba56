-- ===== src/CompactionWork/Keep.antt =====
-- LevelDB/db/db_impl.cc, DBImpl::DoCompactionWork: the entries that are not dropped, and one round
-- of a reader on them.
use leveldb_windows.Base.{
  ℕ, ◌≡◌, ◌<◌, ◌≤◌, ◌⊎◌, refl, ◌∙◌, arith, Bool, true, false, ◌&&◌, Option, none, some, List, [],
  ◌∷◌, Bytes, All, leb, if◌then◌else◌, Bool-cases, Option-cases, inl, inr,
}
use leveldb_windows.Comparator.{Comparator, IsOrder}
use leveldb_windows.DbFormat.{
  ParsedInternalKey, type_value, type_deletion, parse_internal_key, max_sequence_number,
}
use leveldb_windows.Version.Levels.{Levels}
use leveldb_windows.Entries.{Entry, is_eq, newest, Follows}
use leveldb_windows.Entries.Newest.{newest_parsed, newest_above}
use leveldb_windows.Compaction.{Compaction}
use leveldb_windows.Compaction.BaseLevel.{holds_key}
use leveldb_windows.CompactionWork.{Seen, last_for, examine}
use leveldb_windows.CompactionWork.Examine.{Reason}
use Prim.Native.Nat.{lt, eq}

module _ (user : Comparator) (smallest : ℕ) where
  -- The entries that the loop does not drop.
  unfoldable pub keep_entries : Compaction → Seen → List Entry → List Entry
  keep_entries c seen [] = []
  keep_entries c seen (e ∷ entries) =
      let verdict = examine user smallest c seen e.0 in
      let rest = keep_entries verdict.compaction verdict.seen entries in
      if verdict.dropped then rest else e ∷ rest

  -- Whether a newer entry of the key has come that every reader sees.
  abbrev pub is_hidden : Seen → Bytes → Bool
  is_hidden seen w = elim seen.current_user_key [
    | none ↦ false
    | some u ↦ is_eq (user.compare_keys u w) && leb seen.last_sequence_for_key smallest
  ]

-- The last entry that was seen, as an entry that others follow.
abbrev pub seen_key : Seen → Option ParsedInternalKey
seen_key seen = elim seen.current_user_key [
  | none ↦ none
  | some u ↦
      some (record { user_key = u; sequence = seen.last_sequence_for_key; type = type_value })
]

module _ (user : Comparator) (sequence : ℕ) where
  -- The reader finds the same, or a deletion of a key that no deeper file holds is gone.
  abbrev pub ReadsAlike : Levels → Bytes → List Entry → List Entry → Type 0
  ReadsAlike levels w kept entries =
      (newest user sequence w kept ≡ newest user sequence w entries)
      ⊎ (((v : Bytes) × (newest user sequence w entries ≡ some (type_deletion, v)))
          × (newest user sequence w kept ≡ none)
          × ((u : Bytes) × ((user.compare_keys u w ≡ eq) × (holds_key user levels u ≡ false))))

  abbrev pub Agrees : Levels → Bytes → Bool → List Entry → List Entry → Type 0
  Agrees levels w true kept entries = newest user sequence w kept ≡ none
  Agrees levels w false kept entries = ReadsAlike levels w kept entries

module _ (user : Comparator) (order : IsOrder user) (smallest sequence : ℕ)
    (served : smallest ≤ sequence) (bounded : smallest < max_sequence_number) (w : Bytes) where
  -- One entry of another key in front, kept or not.
  pub other_in_front :
      (e : Entry) (entries kept : List Entry) (p : ParsedInternalKey) (dropped : Bool)
      → parse_internal_key e.0 ≡ some p
      → is_eq (user.compare_keys p.user_key w) ≡ false
      → (newest user sequence w (e ∷ entries) ≡ newest user sequence w entries)
        × (newest user sequence w (if dropped then kept else e ∷ kept)
            ≡ newest user sequence w kept)
  other_in_front e entries kept p true good other =
      (rw (newest_parsed user sequence w e entries p good, other), refl)
  other_in_front e entries kept p false good other = (
    rw (newest_parsed user sequence w e entries p good, other),
    rw (newest_parsed user sequence w e kept p good, other),
  )

  -- One entry of the key in front that the reader sees.
  seen_in_front :
      (e : Entry) (entries : List Entry) (p : ParsedInternalKey)
      → parse_internal_key e.0 ≡ some p
      → is_eq (user.compare_keys p.user_key w) ≡ true
      → p.sequence ≤ sequence
      → newest user sequence w (e ∷ entries) ≡ some (p.type, e.1)
  seen_in_front e entries p good same early =
      rw (newest_parsed user sequence w e entries p good, same) (ground arith)

  unseen_in_front :
      (e : Entry) (entries : List Entry) (p : ParsedInternalKey)
      → parse_internal_key e.0 ≡ some p
      → is_eq (user.compare_keys p.user_key w) ≡ true
      → sequence < p.sequence
      → newest user sequence w (e ∷ entries) ≡ newest user sequence w entries
  unseen_in_front e entries p good same late =
      rw (newest_parsed user sequence w e entries p good, same) (ground arith)

  -- A round on an entry of the key. The number seen so far is `last`; `hidden` is whether it hides the
  -- key, and the rest of the entries goes on with the number of this one.
  pub same_key_round :
      (levels : Levels) (e : Entry) (entries kept : List Entry) (p : ParsedInternalKey) (last : ℕ)
      (dropped : Bool)
      → parse_internal_key e.0 ≡ some p
      → is_eq (user.compare_keys p.user_key w) ≡ true
      → (last ≤ smallest → p.sequence ≤ smallest)
      → Reason user smallest levels last p dropped
      → Agrees user sequence levels w (leb p.sequence smallest) kept entries
      → Agrees user sequence levels w
          (leb last smallest)
          (if dropped then kept else e ∷ kept)
          (e ∷ entries)
  same_key_round levels e entries kept p last dropped good same falls (inl (old, gone)) rest =
      let early : leb p.sequence smallest ≡ true = ground (arith, falls old) in
      let hidden : leb last smallest ≡ true = ground arith in
      let none_kept : newest user sequence w kept ≡ none = rw early at rest in
      rw (gone, hidden) none_kept
  same_key_round levels e entries kept p last dropped good same falls
        (inr (young, inl (gone, marker, early', free))) rest =
      let early : leb p.sequence smallest ≡ true = ground arith in
      let shown : leb last smallest ≡ false = ground arith in
      let none_kept : newest user sequence w kept ≡ none = rw early at rest in
      rw (gone, shown, seen_in_front e entries p good same (omega arith), marker)
        (inr ((e.1, refl), none_kept, (p.user_key, (ground arith, free))))
  same_key_round levels e entries kept p last dropped good same falls (inr (young, inr stays))
        rest =
      let shown : leb last smallest ≡ false = ground arith in
      elim (Bool-cases (leb p.sequence sequence)) [
        | inl early ↦
            rw
              (
                stays,
                shown,
                seen_in_front e entries p good same (ground arith),
                seen_in_front e kept p good same (ground arith),
              )
              (inl refl)
        | inr late ↦
            let young' : leb p.sequence smallest ≡ false = ground arith in
            let alike : ReadsAlike user sequence levels w kept entries = rw young' at rest in
            rw
              (
                stays,
                shown,
                unseen_in_front e entries p good same (ground arith),
                unseen_in_front e kept p good same (ground arith),
              )
              alike
      ]

  -- The number seen so far, at an entry of the key, says whether the key is hidden.
  pub hidden_last :
      (seen : Seen) (p : ParsedInternalKey)
      → is_eq (user.compare_keys p.user_key w) ≡ true
      → is_hidden user smallest seen w ≡ leb (last_for user smallest seen p.user_key) smallest
  hidden_last seen p same = elim (Option-cases seen.current_user_key) [
    | inl fresh ↦ rw fresh (ground arith)
    | inr (u, e) ↦ rw e (ground (arith, order.eq_lt p.user_key w u, order.flipped u w))
  ]

  pub number_falls :
      (seen : Seen) (p : ParsedInternalKey)
      → Follows user (seen_key seen) (some p)
      → last_for user smallest seen p.user_key ≤ smallest
      → p.sequence ≤ smallest
  number_falls seen p follows old = elim (Option-cases seen.current_user_key) [
    | inl fresh ↦ let o = rw fresh at old in absurd (omega arith)
    | inr (u, e) ↦
        let o = rw e at old in
        let f = rw e at follows in ground (arith, o, f.1, order.flipped u p.user_key)
  ]

  before_other :
      (seen : Seen) (p : ParsedInternalKey)
      → Follows user (seen_key seen) (some p)
      → is_eq (user.compare_keys p.user_key w) ≡ false
      → is_hidden user smallest seen w ≡ true
      → user.compare_keys w p.user_key ≡ lt
  before_other seen p follows other hidden = elim (Option-cases seen.current_user_key) [
    | inl fresh ↦ let h = rw fresh at hidden in cc h
    | inr (u, e) ↦
        let h = rw e at hidden in
        let f = rw e at follows in
        ground (arith, h, f.0, order.eq_lt u w p.user_key, order.flipped w p.user_key)
  ]

  -- A hidden key does not come back behind an entry of another one.
  pub hidden_above :
      (levels : Levels) (seen : Seen) (p : ParsedInternalKey) (kept entries : List Entry)
      → Follows user (seen_key seen) (some p)
      → is_eq (user.compare_keys p.user_key w) ≡ false
      → All (λ d. Follows user (some p) (parse_internal_key d.0)) entries
      → ReadsAlike user sequence levels w kept entries
      → Agrees user sequence levels w (is_hidden user smallest seen w) kept entries
  hidden_above levels seen p kept entries follows other above alike =
      elim (Bool-cases (is_hidden user smallest seen w)) [
        | inr open' ↦ rw open' alike
        | inl hidden ↦
            let gone : newest user sequence w entries ≡ none =
              newest_above user order sequence w p entries
                (before_other seen p follows other hidden) above in
            rw hidden (elim alike [ inl same ↦ same ∙ gone | inr (v, none_kept, u) ↦ none_kept ])
      ]
