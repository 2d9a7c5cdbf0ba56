-- ===== src/Compaction/Inputs/Range.antt =====
-- The range that a compaction's inputs cover.
use leveldb_windows.Base.{
  ◌≢◌, arith, Bool, true, false, List, [], ◌∷◌, ◌++◌, Bytes, All, is_lt, is_gt, if◌then◌else◌,
}
use leveldb_windows.Comparator.{Comparator, IsOrder}
use leveldb_windows.DbFormat.{internal_compare}
use leveldb_windows.DbFormat.InternalOrder.{internal-IsOrder}
use leveldb_windows.VersionEdit.{FileMetaData}
use leveldb_windows.Compaction.Inputs.{widen_range, get_range, get_range2}
use Prim.Native.Nat.{gt}

one_of : (P : Bytes → Type 0) (b : Bool) (x y : Bytes) → P x → P y → P (if b then x else y)
one_of P true x y h k = h
one_of P false x y h k = k

module _ (user : Comparator) where
  abbrev pub NotBelow : Bytes → Bytes → Type 0
  NotBelow a b = internal_compare user b a ≢ gt

  -- The range from `smallest` to `largest` covers the range of the file.
  abbrev pub Covers : Bytes × Bytes → FileMetaData → Type 0
  Covers (smallest, largest) f = NotBelow f.smallest smallest × NotBelow largest f.largest

module _ (user : Comparator) (order : IsOrder user) where
  NotBelow-refl : (a : Bytes) → NotBelow user a a
  NotBelow-refl a = let o = internal-IsOrder user order in ground (arith, o.flipped a a)

  chained : (a b c : Bytes) → NotBelow user a b → NotBelow user b c → NotBelow user a c
  chained a b c h k =
      let o = internal-IsOrder user order in
      ground (
        arith,
        o.lt_trans a c b,
        o.lt_trans c b a,
        o.eq_lt c b a,
        o.eq_lt b a c,
        o.flipped a c,
        o.flipped c a,
        o.flipped b c,
        o.flipped c b,
        o.flipped a b,
        o.flipped b a,
      )

  -- The smaller of two, as the code takes it, is not above either.
  smaller_below :
      (a b : Bytes)
      → NotBelow user a (if is_lt (internal_compare user a b) then a else b)
        × NotBelow user b (if is_lt (internal_compare user a b) then a else b)
  smaller_below a b =
      let o = internal-IsOrder user order in
      ground (arith, o.flipped a b, NotBelow-refl a, NotBelow-refl b)

  larger_above :
      (a b : Bytes)
      → NotBelow user (if is_gt (internal_compare user a b) then a else b) a
        × NotBelow user (if is_gt (internal_compare user a b) then a else b) b
  larger_above a b =
      let o = internal-IsOrder user order in
      ground (arith, o.flipped a b, NotBelow-refl a, NotBelow-refl b)

  widen_range-Covers :
      (smallest largest : Bytes) (inputs : List FileMetaData)
      → NotBelow user smallest (widen_range user smallest largest inputs).0
        × NotBelow user (widen_range user smallest largest inputs).1 largest
        × All (Covers user (widen_range user smallest largest inputs)) inputs
  unfolding widen_range
  widen_range-Covers smallest largest [] = (NotBelow-refl smallest, NotBelow-refl largest, tt)
  widen_range-Covers smallest largest (f ∷ inputs) =
      let smaller =
        if is_lt (internal_compare user f.smallest smallest) then f.smallest else smallest in
      let larger = if is_gt (internal_compare user f.largest largest) then f.largest else largest in
      let below = smaller_below f.smallest smallest in
      let above = larger_above f.largest largest in
      let (low, high, rest) = widen_range-Covers smaller larger inputs in
      let range = widen_range user smaller larger inputs in
      (
        chained smallest smaller range.0 below.1 low,
        chained range.1 larger largest high above.1,
        (
          (
            chained f.smallest smaller range.0 below.0 low,
            chained range.1 larger f.largest high above.0,
          ),
          rest,
        ),
      )

  widen_range_within :
      (start limit smallest largest : Bytes) (inputs : List FileMetaData)
      → NotBelow user smallest start
      → NotBelow user limit largest
      → All (Covers user (start, limit)) inputs
      → NotBelow user (widen_range user smallest largest inputs).0 start
        × NotBelow user limit (widen_range user smallest largest inputs).1
  unfolding widen_range
  widen_range_within start limit smallest largest [] h k covered = (h, k)
  widen_range_within start limit smallest largest (f ∷ inputs) h k covered =
      widen_range_within start limit
        (if is_lt (internal_compare user f.smallest smallest) then f.smallest else smallest)
        (if is_gt (internal_compare user f.largest largest) then f.largest else largest) inputs
        (one_of (λ key. NotBelow user key start) (is_lt (internal_compare user f.smallest smallest))
          f.smallest smallest covered.0.0 h)
        (one_of (λ key. NotBelow user limit key) (is_gt (internal_compare user f.largest largest))
          f.largest largest covered.0.1 k)
        covered.1

  -- The range of two lists of files, the first not empty, covers the range of every file of either
  -- and lies within any other range that does.
  pub get_range2_minimal :
      (first : FileMetaData) (inputs1 inputs2 : List FileMetaData)
      → All (Covers user (get_range2 user (first ∷ inputs1) inputs2)) (first ∷ inputs1 ++ inputs2)
        × ((start limit : Bytes)
            → All (Covers user (start, limit)) (first ∷ inputs1 ++ inputs2)
            → NotBelow user (get_range2 user (first ∷ inputs1) inputs2).0 start
              × NotBelow user limit (get_range2 user (first ∷ inputs1) inputs2).1)
  unfolding get_range2 get_range
  get_range2_minimal first inputs1 inputs2 =
      let (low, high, rest) =
        widen_range-Covers first.smallest first.largest (inputs1 ++ inputs2) in
      (
        ((low, high), rest),
        λ start limit covered.
            widen_range_within start limit first.smallest first.largest (inputs1 ++ inputs2)
              covered.0.0 covered.0.1 covered.1,
      )
