-- ===== src/Entries/Newest.antt =====
-- What a reader finds among entries in order.
use leveldb_windows.Base.{
  ℕ, ◌≡◌, refl, arith, none, some, List, [], ◌∷◌, Bytes, All, if◌then◌else◌, Option-cases, inl, inr,
  Bool-cases, ltb, length, bit_and,
}
use leveldb_windows.Comparator.{Comparator, IsOrder}
use leveldb_windows.Comparator.Order.{lt_le_trans}
use leveldb_windows.DbFormat.{
  ParsedInternalKey, parse_internal_key, extract_user_key, value_type_of, trailer,
}
use leveldb_windows.Entries.{Entry, sees, newest, Follows, InOrder}
use mathlib.Core.Path.{subst}
use Prim.Native.Nat.{lt}

module _ (user : Comparator) where
  -- The reader goes past an entry that does not parse, and past one that it does not see.
  pub newest_corrupt :
      (sequence : ℕ) (key : Bytes) (e : Entry) (entries : List Entry)
      → parse_internal_key e.0 ≡ none
      → newest user sequence key (e ∷ entries) ≡ newest user sequence key entries
  unfolding newest
  newest_corrupt sequence key e entries h = rw h

  pub newest_parsed :
      (sequence : ℕ) (key : Bytes) (e : Entry) (entries : List Entry) (p : ParsedInternalKey)
      → parse_internal_key e.0 ≡ some p
      → newest user sequence key (e ∷ entries) ≡ (
          if sees user sequence key p then some (p.type, e.1) else newest user sequence key entries)
  unfolding newest
  newest_parsed sequence key e entries p h = rw h

module _ (user : Comparator) (order : IsOrder user) where
  -- No entry of a key stands among entries with later user keys.
  pub newest_above :
      (sequence : ℕ) (key : Bytes) (p : ParsedInternalKey) (entries : List Entry)
      → user.compare_keys key p.user_key ≡ lt
      → All (λ d. Follows user (some p) (parse_internal_key d.0)) entries
      → newest user sequence key entries ≡ none
  unfolding newest
  newest_above sequence key p [] below all = refl
  newest_above sequence key p (d ∷ entries) below all =
      let rest = newest_above sequence key p entries below all.1 in
      elim (Option-cases (parse_internal_key d.0)) [
        | inl bad ↦ rw bad rest
        | inr (q, good) ↦
            let follows : Follows user (some p) (some q) =
              subst (Follows user (some p)) good all.0 in
            rw good (
              ground (
                arith,
                rest,
                lt_le_trans user order key p.user_key q.user_key,
                order.flipped key q.user_key,
                follows.0,
              ))
      ]

  -- Between two entries in order the reader of a key before the first sees neither.
  pub newest_before :
      (sequence : ℕ) (key : Bytes) (e : Entry) (entries : List Entry) (p : ParsedInternalKey)
      → InOrder user (e ∷ entries)
      → parse_internal_key e.0 ≡ some p
      → user.compare_keys key p.user_key ≡ lt
      → newest user sequence key (e ∷ entries) ≡ none
  newest_before sequence key e entries p sorted good below =
      let above =
        newest_above sequence key p entries below
          (subst (λ o. All (λ d. Follows user o (parse_internal_key d.0)) entries) good sorted.0) in
      rw (newest_parsed user sequence key e entries p good)
        (ground (arith, above, order.flipped key p.user_key))

-- The two ways to the user key of an internal key.
pub extract-parse :
    (k : Bytes) (p : ParsedInternalKey)
    → parse_internal_key k ≡ some p
    → extract_user_key k ≡ p.user_key
unfolding extract_user_key parse_internal_key
extract-parse k p h = elim (Bool-cases (ltb (length k) 8)) [
  | inl short ↦ let e = rw short at h in cc e
  | inr long ↦ elim (Option-cases (value_type_of (bit_and (trailer k) 255))) [
    | inl bad ↦ let e = rw (long, bad) at h in cc e
    | inr (t, good) ↦ let e = rw (long, good) at h in cc (e)
  ]
]
