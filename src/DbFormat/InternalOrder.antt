-- ===== src/DbFormat/InternalOrder.antt =====
-- LevelDB/db/dbformat.cc: the comparator of internal keys as an order.
use leveldb_windows.Base.{ℕ, ◌+◌, ◌*◌, ◌≤◌, ◌<◌, ◌≡◌, ◌≢◌, ◌↔◌, arith, Bytes}
use leveldb_windows.Slice.Lex.{flip}
use leveldb_windows.Comparator.{Comparator, IsOrder}
use leveldb_windows.Coding.{put_fixed64}
use leveldb_windows.DbFormat.{
  ParsedInternalKey, max_sequence_number, type_code, extract_user_key, trailer, internal_compare,
  internal_key_comparator, internal_shortest_separator, new_lookup_key, lookup_internal_key,
  value_type_for_seek, adopt,
}
use leveldb_windows.DbFormat.Keys.{
  internal_key, extract_user_key-internal_key, trailer-internal_key,
  lookup_internal_key-new_lookup_key, type_code-le,
}
use Prim.Native.Nat.{lt, eq, gt}

module _ (user : Comparator) (order : IsOrder user) where
  flipped : (a b : Bytes) → internal_compare user b a ≡ flip (internal_compare user a b)
  unfolding internal_compare
  flipped a b = ground (arith, order.flipped (extract_user_key a) (extract_user_key b))

  lt_trans :
      (x y z : Bytes)
      → internal_compare user x y ≡ lt
      → internal_compare user y z ≡ lt
      → internal_compare user x z ≡ lt
  unfolding internal_compare
  lt_trans x y z p q =
      let u = extract_user_key x in
      let v = extract_user_key y in
      let w = extract_user_key z in
      ground (
        arith,
        order.lt_trans u v w,
        order.eq_lt u v w,
        order.eq_lt w v u,
        order.flipped u v,
        order.flipped v w,
        order.flipped u w,
      )

  eq_lt :
      (x y z : Bytes)
      → internal_compare user x y ≡ eq
      → internal_compare user x z ≡ internal_compare user y z
  unfolding internal_compare
  eq_lt x y z p =
      ground (arith, order.eq_lt (extract_user_key x) (extract_user_key y) (extract_user_key z))

  -- Over a total order of user keys the internal keys are totally ordered.
  pub internal-IsOrder : IsOrder (internal_key_comparator user)
  internal-IsOrder = record { flipped = flipped; lt_trans = lt_trans; eq_lt = eq_lt }

  compare_tags :
      (x y : Bytes) (n m : ℕ)
      → user.compare_keys (extract_user_key x) (extract_user_key y) ≡ eq
      → trailer x ≡ n
      → trailer y ≡ m
      → (internal_compare user x y ≡ lt) ↔ (m < n)
  unfolding internal_compare
  compare_tags x y n m same hn hm = (λ h. ground arith, λ h. ground arith)

  -- Of two entries of one user key the one with the greater number, or the same number and the
  -- greater type, comes first.
  pub newest_first :
      (a b : ParsedInternalKey)
      → a.sequence ≤ max_sequence_number
      → b.sequence ≤ max_sequence_number
      → user.compare_keys a.user_key b.user_key ≡ eq
      → (internal_compare user (internal_key a) (internal_key b) ≡ lt)
        ↔ (b.sequence * 256 + type_code b.type < a.sequence * 256 + type_code a.type)
  newest_first a b ha hb same =
      compare_tags (internal_key a) (internal_key b) _ _
        (rw (extract_user_key-internal_key a, extract_user_key-internal_key b) same)
        (trailer-internal_key a ha) (trailer-internal_key b hb)

  user_key_equal : (u : Bytes) → user.compare_keys u u ≡ eq
  user_key_equal u = ground (arith, order.flipped u u)

  -- A lookup of a key at the number `s` stands behind exactly the entries of the key that are newer
  -- than `s`: a seek to it passes those over, and no entry that the snapshot sees.
  pub lookup_splits :
      (k : ParsedInternalKey) (s : ℕ)
      → k.sequence ≤ max_sequence_number
      → s ≤ max_sequence_number
      → (internal_compare user (internal_key k) (lookup_internal_key (new_lookup_key k.user_key s))
          ≡ lt)
        ↔ (s < k.sequence)
  lookup_splits k s hk hs =
      let seek : ParsedInternalKey = record {
        user_key = k.user_key;
        sequence = s;
        type = value_type_for_seek;
      } in
      let (newer, older) = newest_first k seek hk hs (user_key_equal k.user_key) in
      rw lookup_internal_key-new_lookup_key
        (λ h. omega (arith, newer h, type_code-le k.type), λ h. older (omega arith))

  adopted_between :
      (start limit tmp : Bytes)
      → user.compare_keys (extract_user_key start) (extract_user_key limit) ≡ lt
      → user.compare_keys tmp (extract_user_key limit) ≡ lt
      → (internal_compare user start (adopt user start (extract_user_key start) tmp) ≢ gt)
        × (internal_compare user (adopt user start (extract_user_key start) tmp) limit ≡ lt)
  unfolding internal_compare adopt put_fixed64
  adopted_between start limit tmp ordered under =
      let max_key : ParsedInternalKey = record {
        user_key = tmp;
        sequence = max_sequence_number;
        type = value_type_for_seek;
      } in
      ground (arith, extract_user_key-internal_key max_key, user_key_equal (extract_user_key start))

  -- Between two user keys in order the shortened key is in `[start, limit)`, if the user's
  -- separator for them is below the second.
  pub internal_separator_between :
      (start limit : Bytes)
      → user.compare_keys (extract_user_key start) (extract_user_key limit) ≡ lt
      → user.compare_keys
          (user.find_shortest_separator (extract_user_key start) (extract_user_key limit))
          (extract_user_key limit)
        ≡ lt
      → (internal_compare user start (internal_shortest_separator user start limit) ≢ gt)
        × (internal_compare user (internal_shortest_separator user start limit) limit ≡ lt)
  unfolding internal_shortest_separator
  internal_separator_between start limit = adopted_between start limit _
