-- ===== src/Version/Get/Candidates.antt =====
-- LevelDB/db/version_set.cc, Version::Get: the file of a level above 0 that is looked into.
use leveldb_windows.Base.{
  ℕ, zero, suc, ◌^◌, ◌<◌, ◌≡◌, ◌≢◌, refl, arith, true, false, List, [], ◌∷◌, Bytes, length, get_or,
  All, leb, is_lt,
}
use leveldb_windows.Comparator.{Comparator, IsOrder}
use leveldb_windows.DbFormat.{internal_compare, extract_user_key}
use leveldb_windows.DbFormat.InternalOrder.{internal-IsOrder}
use leveldb_windows.VersionEdit.{FileMetaData}
use leveldb_windows.Version.{no_file, ends_before}
use leveldb_windows.Version.FindFile.{first_reaching, find_file-eq}
use leveldb_windows.Version.Overlap.{IsDisjoint, IsDisjoint-Ascends}
use leveldb_windows.Version.Get.{candidate_above}
use Prim.Native.Nat.{lt, gt}

module _ (user : Comparator) (order : IsOrder user) where
  -- A file before one that starts at or before the key ends before the key.
  earlier_ends :
      (f g : FileMetaData) (key : Bytes)
      → internal_compare user f.largest g.smallest ≡ lt
      → internal_compare user g.smallest key ≢ gt
      → ends_before user f key ≡ true
  earlier_ends f g key h k =
      let o = internal-IsOrder user order in
      ground (
        arith,
        o.lt_trans f.largest g.smallest key,
        o.eq_lt g.smallest key f.largest,
        o.flipped f.largest g.smallest,
        o.flipped f.largest key,
      )

  All-at :
      (P : FileMetaData → Type 0) (files : List FileMetaData) (i : ℕ)
      → All P files
      → i < length files
      → P (get_or files i no_file)
  All-at P [] i h small = absurd (omega arith)
  All-at P (f ∷ files) zero h small = h.0
  All-at P (f ∷ files) (suc i) h small = All-at P files i h.1 (omega arith)

  -- The scan stops at the file that holds the key.
  first_reaching-eq :
      (files : List FileMetaData) (i : ℕ) (key : Bytes)
      → IsDisjoint user files
      → i < length files
      → internal_compare user (get_or files i no_file).smallest key ≢ gt
      → ends_before user (get_or files i no_file) key ≡ false
      → first_reaching user files key ≡ i
  unfolding first_reaching
  first_reaching-eq [] i key d small starts reaches = absurd (omega arith)
  first_reaching-eq (f ∷ files) zero key d small starts reaches = rw reaches
  first_reaching-eq (f ∷ files) (suc i) key d small starts reaches =
      let before =
        earlier_ends f (get_or files i no_file) key
          (All-at (λ g. internal_compare user f.largest g.smallest ≡ lt) files i d.1 (omega arith))
          starts in
      rw (before, first_reaching-eq files i key d.2 (omega arith) starts reaches)

  user_key_reached :
      (f : FileMetaData) (key : Bytes)
      → internal_compare user f.smallest key ≢ gt
      → is_lt (user.compare_keys (extract_user_key key) (extract_user_key f.smallest)) ≡ false
  unfolding internal_compare
  user_key_reached f key h =
      ground (arith, order.flipped (extract_user_key key) (extract_user_key f.smallest))

  -- In a level of disjoint files, fewer than 2^31 of them, a read of an internal key looks into the
  -- file whose range from its smallest to its largest key holds the key, and into no other.
  pub candidate_above-eq :
      (files : List FileMetaData) (i : ℕ) (key : Bytes)
      → IsDisjoint user files
      → length files < 2 ^ 31
      → i < length files
      → internal_compare user (get_or files i no_file).smallest key ≢ gt
      → internal_compare user (get_or files i no_file).largest key ≢ lt
      → candidate_above user files (extract_user_key key) key ≡ get_or files i no_file ∷ []
  unfolding candidate_above
  candidate_above-eq files i key d few small starts ends =
      let reaches : ends_before user (get_or files i no_file) key ≡ false = ground arith in
      let here : leb (length files) i ≡ false = ground arith in
      rw
        (
          find_file-eq user order files key (IsDisjoint-Ascends user order files d) few,
          first_reaching-eq files i key d small starts reaches,
          here,
          user_key_reached (get_or files i no_file) key starts,
        )
        refl
