-- ===== src/Version/FindFile.antt =====
-- LevelDB/db/version_set.cc, FindFile: the search and a scan.
use leveldb_windows.Base.{
  ℕ, zero, suc, ◌+◌, ◌/◌, ◌%◌, ◌^◌, ◌≤◌, ◌<◌, ◌≡◌, arith, true, false, List, [], ◌∷◌, Bytes, length,
  get_or, All, if◌then◌else◌, Bool-cases, inl, inr,
}
use leveldb_windows.Comparator.{Comparator, IsOrder}
use leveldb_windows.DbFormat.{internal_compare}
use leveldb_windows.DbFormat.InternalOrder.{internal-IsOrder}
use leveldb_windows.VersionEdit.{FileMetaData}
use leveldb_windows.Version.{no_file, ends_before, find_file_loop, find_file}
use Prim.Native.Nat.{lt}

module _ (user : Comparator) where
  -- The largest keys of the files ascend.
  abbrev pub Ascends : List FileMetaData → Type 0
  Ascends [] = Unit {0}
  Ascends (f ∷ files) =
      All (λ g. internal_compare user f.largest g.largest ≡ lt) files × Ascends files

  -- The number of files that a scan passes before one that does not end before the key.
  unfoldable pub first_reaching : List FileMetaData → Bytes → ℕ
  first_reaching [] key = 0
  first_reaching (f ∷ files) key =
      let rest = first_reaching files key in if ends_before user f key then suc rest else 0

  pub first_reaching-le :
      (files : List FileMetaData) (key : Bytes) → first_reaching files key ≤ length files
  unfolding first_reaching
  first_reaching-le [] key = omega arith
  first_reaching-le (f ∷ files) key = ground (arith, first_reaching-le files key)

  pub ends_before_first :
      (files : List FileMetaData) (key : Bytes) (i : ℕ)
      → i < first_reaching files key
      → ends_before user (get_or files i no_file) key ≡ true
  unfolding first_reaching
  ends_before_first [] key i h = absurd (omega arith)
  ends_before_first (f ∷ files) key zero h = ground arith
  ends_before_first (f ∷ files) key (suc i) h = ground (arith, ends_before_first files key i)

module _ (user : Comparator) (order : IsOrder user) where
  later_reaches :
      (f g : FileMetaData) (key : Bytes)
      → internal_compare user f.largest g.largest ≡ lt
      → ends_before user f key ≡ false
      → ends_before user g key ≡ false
  later_reaches f g key h e =
      ground (arith, (internal-IsOrder user order).lt_trans f.largest g.largest key)

  all_reach :
      (f : FileMetaData) (files : List FileMetaData) (key : Bytes) (i : ℕ)
      → All (λ g. internal_compare user f.largest g.largest ≡ lt) files
      → ends_before user f key ≡ false
      → i < length files
      → ends_before user (get_or files i no_file) key ≡ false
  all_reach f [] key i h e small = absurd (omega arith)
  all_reach f (g ∷ files) key zero h e small = later_reaches f g key h.0 e
  all_reach f (g ∷ files) key (suc i) h e small = all_reach f files key i h.1 e (omega arith)

  pub reaches_behind :
      (files : List FileMetaData) (key : Bytes) (i : ℕ)
      → Ascends user files
      → first_reaching user files key ≤ i
      → i < length files
      → ends_before user (get_or files i no_file) key ≡ false
  unfolding first_reaching
  reaches_behind [] key i up h small = absurd (omega arith)
  reaches_behind (f ∷ files) key zero up h small = ground arith
  reaches_behind (f ∷ files) key (suc i) up h small = elim (Bool-cases (ends_before user f key)) [
    | inl before ↦
        let shifted : suc (first_reaching user files key) ≤ suc i = rw before at h in
        reaches_behind files key i up.1 (omega arith) (omega arith)
    | inr reached ↦ all_reach f files key i up.0 reached (omega arith)
  ]

  -- The range always holds the place that the scan finds.
  find_file_loop-eq :
      (fuel : ℕ) (files : List FileMetaData) (key : Bytes) (left right : ℕ)
      → Ascends user files
      → length files < 2 ^ 31
      → right ≤ length files
      → left ≤ first_reaching user files key
      → first_reaching user files key ≤ right
      → right < fuel + left
      → find_file_loop user fuel files key left right ≡ first_reaching user files key
  unfolding find_file_loop
  find_file_loop-eq zero files key left right up few inside above below enough =
      absurd (omega arith)
  find_file_loop-eq (suc fuel) files key left right up few inside above below enough =
      let mid = (left + right) % 2 ^ 32 / 2 in
      let middle : mid ≡ (left + right) / 2 = omega arith in
      ground (
        arith,
        middle,
        ends_before_first user files key mid,
        reaches_behind files key mid up,
        find_file_loop-eq fuel files key (mid + 1) right up few,
        find_file_loop-eq fuel files key left mid up few,
      )

  -- On files whose largest keys ascend, fewer than 2^31 of them, the binary search returns the index
  -- of the first file whose largest key is not before the key, or the number of files.
  pub find_file-eq :
      (files : List FileMetaData) (key : Bytes)
      → Ascends user files
      → length files < 2 ^ 31
      → find_file user files key ≡ first_reaching user files key
  unfolding find_file
  find_file-eq files key up few =
      let all : length files % 2 ^ 32 ≡ length files = omega arith in
      rw all (
        find_file_loop-eq (suc (length files)) files key 0 (length files) up few (omega arith)
          (omega arith) (first_reaching-le user files key) (omega arith))
