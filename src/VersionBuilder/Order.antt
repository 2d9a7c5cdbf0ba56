-- ===== src/VersionBuilder/Order.antt =====
-- The order of the files of a level, and lists in that order.
use leveldb_windows.Base.{◌≡◌, arith, true, false, List, [], ◌∷◌, All}
use leveldb_windows.Comparator.{Comparator, IsOrder}
use leveldb_windows.DbFormat.InternalOrder.{internal-IsOrder}
use leveldb_windows.VersionEdit.{FileMetaData}
use leveldb_windows.VersionBuilder.{by_smallest_key}

module _ (user : Comparator) where
  -- The second does not come before the first.
  abbrev pub NotAfter : FileMetaData → FileMetaData → Type 0
  NotAfter f g = by_smallest_key user g f ≡ false

  abbrev pub IsSorted : List FileMetaData → Type 0
  IsSorted [] = Unit {0}
  IsSorted (f ∷ files) = All (NotAfter f) files × IsSorted files

module _ (user : Comparator) (order : IsOrder user) where
  pub NotAfter-trans :
      (f g h : FileMetaData) → NotAfter user f g → NotAfter user g h → NotAfter user f h
  unfolding by_smallest_key
  NotAfter-trans f g h p q =
      let o = internal-IsOrder user order in
      let a = f.smallest in
      let b = g.smallest in
      let c = h.smallest in
      ground (
        arith,
        o.lt_trans a b c,
        o.lt_trans c a b,
        o.lt_trans b c a,
        o.eq_lt a b c,
        o.eq_lt c b a,
        o.eq_lt b c a,
        o.flipped a b,
        o.flipped b c,
        o.flipped a c,
      )

  pub before_is_NotAfter :
      (f g : FileMetaData) → by_smallest_key user f g ≡ true → NotAfter user f g
  unfolding by_smallest_key
  before_is_NotAfter f g h =
      let o = internal-IsOrder user order in ground (arith, o.flipped f.smallest g.smallest)

  pub All-NotAfter :
      (f g : FileMetaData) (files : List FileMetaData)
      → NotAfter user f g
      → All (NotAfter user g) files
      → All (NotAfter user f) files
  All-NotAfter f g [] p h = tt
  All-NotAfter f g (x ∷ files) p h = (NotAfter-trans f g x p h.0, All-NotAfter f g files p h.1)
