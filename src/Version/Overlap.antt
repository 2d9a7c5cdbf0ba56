-- ===== src/Version/Overlap.antt =====
-- LevelDB/db/version_set.cc, SomeFileOverlapsRange: the search and the check of every file.
use leveldb_windows.Base.{
  ℕ, ◌^◌, ◌≤◌, ◌<◌, ◌≡◌, ◌≢◌, refl, sym, arith, Bool, true, false, not, Option, none, some, List,
  [], ◌∷◌, Bytes, length, get_or, All, leb, if◌then◌else◌,
}
use leveldb_windows.Comparator.{Comparator, IsOrder}
use leveldb_windows.DbFormat.{
  ParsedInternalKey, max_sequence_number, value_type_for_seek, internal_compare, extract_user_key,
}
use leveldb_windows.DbFormat.Keys.{
  internal_key, type_code-le, extract_user_key-internal_key, trailer-internal_key,
}
use leveldb_windows.DbFormat.InternalOrder.{internal-IsOrder}
use leveldb_windows.VersionEdit.{FileMetaData}
use leveldb_windows.Version.{
  no_file, ends_before, after_file, before_file, some_file_meets, seek_key,
  some_file_overlaps_range,
}
use leveldb_windows.Version.FindFile.{Ascends, first_reaching, find_file-eq}
use Prim.Native.Nat.{lt, gt}

-- The bounds of a file are internal keys as the database makes them.
pub record HasKeys (f : FileMetaData) : Type 0 where
  pub last : ParsedInternalKey
  pub last_bytes : f.largest ≡ internal_key last
  pub last_number : last.sequence ≤ max_sequence_number

module _ (user : Comparator) where
  -- The files of a level above 0: each has its keys in order, and ends before the next begins.
  abbrev pub IsDisjoint : List FileMetaData → Type 0
  IsDisjoint [] = Unit {0}
  IsDisjoint (f ∷ files) =
      (internal_compare user f.smallest f.largest ≢ gt)
      × All (λ g. internal_compare user f.largest g.smallest ≡ lt) files
      × IsDisjoint files

  abbrev pub StartsBelow : FileMetaData → FileMetaData → Type 0
  StartsBelow f g =
      user.compare_keys (extract_user_key f.smallest) (extract_user_key g.smallest) ≢ gt

module _ (user : Comparator) (order : IsOrder user) where
  -- `a ≤ b < c ≤ d` of internal keys.
  chain_lt :
      (a b c d : Bytes)
      → internal_compare user a b ≢ gt
      → internal_compare user b c ≡ lt
      → internal_compare user c d ≢ gt
      → internal_compare user b d ≡ lt
  chain_lt a b c d p q r =
      let o = internal-IsOrder user order in
      ground (arith, o.lt_trans b c d, o.eq_lt d c b, o.flipped c d, o.flipped b c, o.flipped b d)

  chain_le :
      (a b c : Bytes)
      → internal_compare user a b ≢ gt
      → internal_compare user b c ≡ lt
      → internal_compare user a c ≡ lt
  chain_le a b c p q =
      let o = internal-IsOrder user order in ground (arith, o.lt_trans a b c, o.eq_lt a b c)

  user_keys_le :
      (a b : Bytes)
      → internal_compare user a b ≡ lt
      → user.compare_keys (extract_user_key a) (extract_user_key b) ≢ gt
  unfolding internal_compare
  user_keys_le a b h = ground arith

  pub IsDisjoint-All :
      (f : FileMetaData) (files : List FileMetaData)
      → internal_compare user f.smallest f.largest ≢ gt
      → All (λ g. internal_compare user f.largest g.smallest ≡ lt) files
      → IsDisjoint user files
      → All (λ g. internal_compare user f.largest g.largest ≡ lt) files
        × All (StartsBelow user f) files
  IsDisjoint-All f [] p h d = (tt, tt)
  IsDisjoint-All f (g ∷ files) p h d =
      let rest = IsDisjoint-All f files p h.1 d.2 in
      (
        (chain_lt f.smallest f.largest g.smallest g.largest p h.0 d.0, rest.0),
        (
          user_keys_le f.smallest g.smallest (chain_le f.smallest f.largest g.smallest p h.0),
          rest.1,
        ),
      )

  pub IsDisjoint-Ascends : (files : List FileMetaData) → IsDisjoint user files → Ascends user files
  IsDisjoint-Ascends [] d = tt
  IsDisjoint-Ascends (f ∷ files) d =
      ((IsDisjoint-All f files d.0 d.1 d.2).0, IsDisjoint-Ascends files d.2)

  -- A file ends before the first entry of a user key exactly when the key is after the file.
  ends_before-seek_key :
      (f : FileMetaData) (u : Bytes)
      → HasKeys f
      → ends_before user f (seek_key u) ≡ after_file user (some u) f
  unfolding internal_compare
  ends_before-seek_key f u k =
      let seek : ParsedInternalKey = record {
        user_key = u;
        sequence = max_sequence_number;
        type = value_type_for_seek;
      } in
      rw (k.last_bytes) (
        ground (
          arith,
          extract_user_key-internal_key k.last,
          extract_user_key-internal_key seek,
          trailer-internal_key k.last k.last_number,
          trailer-internal_key seek (omega arith),
          type_code-le k.last.type,
          order.flipped k.last.user_key u,
        ))

  pub none_meet :
      (f : FileMetaData) (files : List FileMetaData) (smallest largest : Option Bytes)
      → All (StartsBelow user f) files
      → before_file user largest f ≡ true
      → some_file_meets user files smallest largest ≡ false
  unfolding some_file_meets
  none_meet f [] smallest largest up before = refl
  none_meet f (g ∷ files) smallest none up before = cc
  none_meet f (g ∷ files) smallest (some u) up before =
      let a = extract_user_key f.smallest in
      let b = extract_user_key g.smallest in
      let beyond : before_file user (some u) g ≡ true = ground (
        arith,
        order.lt_trans u a b,
        order.eq_lt a b u,
        order.flipped a u,
        order.flipped b u,
        up.0,
      ) in
      ground (arith, beyond, none_meet f files smallest (some u) up.1 before)

  -- The file that the search looks at.
  abbrev looked_at : List FileMetaData → Option Bytes → ℕ → Bool
  looked_at files largest index =
      if leb (length files) index
      then false
      else not (before_file user largest (get_or files index no_file))

  scan_from :
      (files : List FileMetaData) (u : Bytes) (largest : Option Bytes)
      → IsDisjoint user files
      → All HasKeys files
      → some_file_meets user files (some u) largest
        ≡ looked_at files largest (first_reaching user files (seek_key u))
  unfolding some_file_meets first_reaching
  scan_from [] u largest d k = refl
  scan_from (f ∷ files) u largest d k = ground (
    arith,
    ends_before-seek_key f u k.0,
    none_meet f files (some u) largest (IsDisjoint-All f files d.0 d.1 d.2).1,
    scan_from files u largest d.2 k.1,
  )

  scan_all :
      (files : List FileMetaData) (largest : Option Bytes)
      → IsDisjoint user files
      → some_file_meets user files none largest ≡ looked_at files largest 0
  unfolding some_file_meets
  scan_all [] largest d = refl
  scan_all (f ∷ files) largest d =
      ground (arith, none_meet f files none largest (IsDisjoint-All f files d.0 d.1 d.2).1)

  -- On disjoint sorted files, fewer than 2^31 of them and with internal keys for bounds, the search
  -- for an overlap gives what the check of every file gives, also where a bound is missing.
  pub some_file_overlaps_range_eq :
      (files : List FileMetaData) (smallest largest : Option Bytes)
      → IsDisjoint user files
      → All HasKeys files
      → length files < 2 ^ 31
      → some_file_overlaps_range user true files smallest largest
        ≡ some_file_overlaps_range user false files smallest largest
  unfolding some_file_overlaps_range
  some_file_overlaps_range_eq files none largest d k few = sym (scan_all files largest d)
  some_file_overlaps_range_eq files (some u) largest d k few =
      rw (find_file-eq user order files (seek_key u) (IsDisjoint-Ascends files d) few)
        (sym (scan_from files u largest d k))
